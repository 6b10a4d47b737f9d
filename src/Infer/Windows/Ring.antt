-- ===== src/Infer/Windows/Ring.antt =====
-- The rings of a client's windows, whose head is the next place to write.
use wei.Base.{
  ℕ, zero, suc, ◌+◌, ◌-◌, ◌%◌, ◌<◌, ◌≡◌, refl, sym, ap, ◌∙◌, Option, some, none, List, [], ◌∷◌,
  arith, get_elem?, get_or, set,
}
use wei.Base.Ring.{Shows, push-Shows, filled, back, back_zero}
use wei.Infer.Windows.{newest_index, oldest_index}

module _ {A : Type 0} where
  -- A ring whose head is the next place to write, filled from place 0.
  pub record Window (ring : List A) (head fill : ℕ) (h : List A) : Type 0 where
    pub shows : Shows ring (newest_index head) fill h
    pub in_range : head < 8
    pub filling : fill < 8 → head ≡ fill

  pub push-Window :
      (ring : List A) (head fill : ℕ) (h : List A) (v : A)
      → Window ring head fill h
      → Window (set ring head v) ((head + 1) % 8) (filled fill) (v ∷ h)
  push-Window ring head fill h v w = record {
    shows =
        let same : newest_index ((head + 1) % 8) ≡ head = omega (arith, w.in_range) in
        rw same (
          push-Shows ring (newest_index head) head fill h v w.shows w.in_range
            (λ held. omega (arith, w.in_range)));
    in_range = omega arith;
    filling = ground (arith, w.filling, w.in_range);
  }

  or_else : Option A → A → A
  or_else none d = d
  or_else (some x) d = x

  get_or-or_else : (xs : List A) (i : ℕ) (d : A) → get_or xs i d ≡ or_else (get_elem? xs i) d
  unfolding or_else
  get_or-or_else [] i d = refl
  get_or-or_else (x ∷ xs) zero d = refl
  get_or-or_else (x ∷ xs) (suc i) d = get_or-or_else xs i d

  same_get_or :
      (xs ys : List A) (i j : ℕ) (d : A)
      → get_elem? xs i ≡ get_elem? ys j
      → get_or xs i d ≡ get_or ys j d
  same_get_or xs ys i j d e = rw (get_or-or_else xs i d, get_or-or_else ys j d, e) refl

  module _ (ring : List A) (head fill : ℕ) (h : List A) (d : A) (w : Window ring head fill h)
      (held : 0 < fill) where
    pub Window_newest : get_or ring (newest_index head) d ≡ get_or h 0 d
    Window_newest = same_get_or ring h (newest_index head) 0 d (
        ap (get_elem? ring) (sym (back_zero (newest_index head) w.shows.newest))
        ∙ w.shows.shown 0 held)

    -- The oldest of the last eight.
    pub Window_oldest : get_or ring (oldest_index fill head) d ≡ get_or h (fill - 1) d
    Window_oldest =
        same_get_or ring h (oldest_index fill head) (fill - 1) d
          (ap (get_elem? ring) back_oldest ∙ w.shows.shown (fill - 1) (omega arith))
      where
        back_oldest : oldest_index fill head ≡ back (newest_index head) (fill - 1)
        back_oldest = ground (arith, w.in_range, w.filling, w.shows.held)
