-- ===== src/Base/Ring.antt =====
-- Ring buffers of eight places, the size of the windows and of the episode ring of a client.
use wei.Base.{
  ℕ, zero, suc, ◌+◌, ◌-◌, ◌%◌, ◌<◌, ◌≡◌, ◌≢◌, sym, ap, ◌∙◌, some, List, ◌∷◌, arith, if◌then◌else◌,
  ltb, length, get_elem?, set, length-set, get_elem?-set_self, get_elem?-set_ne,
}

-- `if (fill < 8) fill++`.
abbrev pub filled : ℕ → ℕ
filled fill = if ltb fill 8 then fill + 1 else fill

-- The place of the value `k` before the newest, which is at `at`.
abbrev pub back : ℕ → ℕ → ℕ
back at k = (at + 8 - k) % 8

pub back_zero : (at : ℕ) → at < 8 → back at 0 ≡ at
back_zero at h = omega arith

back-suc : (at j : ℕ) → at < 8 → j < 7 → back ((at + 1) % 8) (suc j) ≡ back at j
back-suc at j h k = omega arith

back_ne : (at j : ℕ) → at < 8 → j < 7 → at ≢ back at (suc j)
back_ne at j h k e = omega arith

module _ {A : Type 0} where
  -- The last `fill` values of the history, whose head is the newest, are in the ring, backwards from
  -- the place `at`.
  pub record Shows (ring : List A) (at fill : ℕ) (h : List A) : Type 0 where
    pub places : length ring ≡ 8
    pub newest : at < 8
    pub held : fill ≡ (if ltb (length h) 8 then length h else 8)
    pub shown : (k : ℕ) → k < fill → get_elem? ring (back at k) ≡ get_elem? h k

  pub Shows-newest :
      (ring : List A) (at fill : ℕ) (x : A) (h : List A)
      → Shows ring at fill (x ∷ h)
      → get_elem? ring at ≡ some x
  Shows-newest ring at fill x h s =
      ap (get_elem? ring) (sym (back_zero at s.newest)) ∙ s.shown 0 (ground (arith, s.held))

  -- The newest value is written again.
  module _ (ring : List A) (at fill : ℕ) (x : A) (h : List A) (v : A)
      (s : Shows ring at fill (x ∷ h)) where
    replaced_shown :
        (k : ℕ) → k < fill → get_elem? (set ring at v) (back at k) ≡ get_elem? {A = A} (v ∷ h) k
    replaced_shown zero b =
        rw (back_zero at s.newest)
          (get_elem?-set_self ring at v (omega (arith, s.places, s.newest)))
    replaced_shown (suc j) b =
        let small : j < 7 = ground (arith, s.held) in
        get_elem?-set_ne ring at (back at (suc j)) v (back_ne at j s.newest small)
        ∙ s.shown (suc j) b

    pub replace-Shows : Shows (set ring at v) at fill (v ∷ h)
    replace-Shows = record {
      places = length-set ring at v ∙ s.places;
      newest = s.newest;
      held = s.held;
      shown = replaced_shown;
    }

  module _ (ring : List A) (at at' fill : ℕ) (h : List A) (v : A) (s : Shows ring at fill h)
      (below : at' < 8) (next : 0 < fill → at' ≡ (at + 1) % 8) where
    pushed_shown :
        (k : ℕ)
        → k < filled fill
        → get_elem? (set ring at' v) (back at' k) ≡ get_elem? {A = A} (v ∷ h) k
    pushed_shown zero b =
        rw (back_zero at' below) (get_elem?-set_self ring at' v (omega (arith, s.places)))
    pushed_shown (suc j) b =
        let fits : j < fill = ground arith in
        let small : j < 7 = ground (arith, s.held) in
        get_elem?-set_ne ring at' (back at' (suc j)) v (back_ne at' j below small)
        ∙ (rw (next (omega arith), back-suc at j s.newest small) (s.shown j fits))

    pub push-Shows : Shows (set ring at' v) at' (filled fill) (v ∷ h)
    push-Shows = record {
      places = length-set ring at' v ∙ s.places;
      newest = below;
      held = ground (arith, s.held);
      shown = pushed_shown;
    }
