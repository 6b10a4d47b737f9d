-- ===== src/Infer/Windows/View.antt =====
-- What is read from the windows of a client: the loss over the last eight samples and their mean.
use wei.Base.{
  ℕ, zero, suc, ◌+◌, ◌-◌, ◌%◌, ◌^◌, Bool, true, false, ◌≤◌, ◌<◌, ◌≡◌, refl, ap, ◌∙◌, List, [], ◌∷◌,
  arith, if◌then◌else◌, ltb, ◌==◌, length, get_or, set, take, length-set,
}
use wei.Base.Ring.{filled}
use wei.Double.{Double, of_ℕ}
use wei.Infer.Types.{Client}
use wei.Infer.Windows.{
  perr_push, phy_push, newest_index, oldest_index, growth, rate_of, perr_rate, sum, phy_mean,
}
use wei.Infer.Windows.Ring.{Window, push-Window, Window_newest, Window_oldest}

sum-take-set :
    (xs : List ℕ) (n v : ℕ) → n < length xs → sum (take (suc n) (set xs n v)) ≡ v + sum (take n xs)
unfolding sum
sum-take-set [] n v h = absurd (omega arith)
sum-take-set (x ∷ xs) zero v h = omega arith
sum-take-set (x ∷ xs) (suc n) v h = omega (arith, sum-take-set xs n v)

sum-take-suc : (xs : List ℕ) (n : ℕ) → sum (take (suc n) xs) ≡ sum (take n xs) + get_or xs n 0
unfolding sum
sum-take-suc [] zero = refl
sum-take-suc [] (suc n) = refl
sum-take-suc (x ∷ xs) zero = omega arith
sum-take-suc (x ∷ xs) (suc n) = omega (arith, sum-take-suc xs n)

sum-set : (xs : List ℕ) (i v : ℕ) → i < length xs → sum (set xs i v) + get_or xs i 0 ≡ v + sum xs
unfolding sum
sum-set [] i v h = absurd (omega arith)
sum-set (x ∷ xs) zero v h = omega arith
sum-set (x ∷ xs) (suc i) v h = omega (arith, sum-set xs i v)

take_all : {A : Type 0} (n : ℕ) (xs : List A) → length xs ≡ n → take n xs ≡ xs
take_all zero [] h = refl
take_all zero (x ∷ xs) h = absurd (omega arith)
take_all (suc n) [] h = refl
take_all (suc n) (x ∷ xs) h = ap (◌∷◌ x) (take_all n xs (omega arith))

get_or_out : {A : Type 0} (xs : List A) (i : ℕ) (d : A) → length xs ≤ i → get_or xs i d ≡ d
get_or_out [] i d h = refl
get_or_out (x ∷ xs) zero d h = absurd (omega arith)
get_or_out (x ∷ xs) (suc i) d h = get_or_out xs i d (omega arith)

-- A push keeps the sum over the filled part of the ring the sum of the last eight samples.
module _ (ring : List ℕ) (head fill : ℕ) (h : List ℕ) (v : ℕ) (w : Window ring head fill h)
    (total : sum (take fill ring) ≡ sum (take 8 h)) where
  push_room : fill < 8 → sum (take (suc fill) (set ring head v)) ≡ v + sum (take 7 h)
  push_room room = rw (w.filling room) (
      omega (
        arith,
        sum-take-set ring fill v (omega (arith, w.shows.places)),
        total,
        sum-take-suc h 7,
        get_or_out h 7 0 (ground (arith, w.shows.held)),
      ))

  push_over : fill ≡ 8 → sum (take 8 (set ring head v)) ≡ v + sum (take 7 h)
  push_over full =
      let oldest = Window_oldest ring head fill h 0 w (omega arith) in
      rw (take_all 8 (set ring head v) (length-set ring head v ∙ w.shows.places)) (
        omega (
          arith,
          sum-set ring head v (omega (arith, w.in_range, w.shows.places)),
          rw (full, take_all 8 ring w.shows.places) at total,
          rw full at oldest,
          sum-take-suc h 7,
        ))

  push_total : sum (take (filled fill) (set ring head v)) ≡ v + sum (take 7 h)
  push_total = ground (arith, push_room, push_over, w.shows.held)

-- What the windows of a client hold of the samples it has had, each list with the newest first.
pub record Samples (D : Type 0) (st : Client D) (frames errs phys : List ℕ) : Type 0 where
  pub frame_window : Window st.perr_frames st.perr_head st.perr_fill frames
  pub err_window : Window st.perr_errs st.perr_head st.perr_fill errs
  pub rate_window : Window st.phy_window st.phy_head st.phy_fill phys
  pub total : sum (take st.phy_fill st.phy_window) ≡ sum (take 8 phys)

-- The loss over a history of both counters: nothing before the second sample, then the share of
-- the errors in the growth from the oldest of the last eight samples to the newest.
abbrev pub loss_of : {D : Type 0} → Double D → List ℕ → List ℕ → D
loss_of d frames errs =
    let n = if ltb (length frames) 8 then length frames else 8 in
    if ltb (length frames) 2
    then of_ℕ d 0
    else rate_of d (growth (get_or frames 0 0) (get_or frames (n - 1) 0))
        (growth (get_or errs 0 0) (get_or errs (n - 1) 0))

module _ {D : Type 0} where
  -- A scored tick's samples join what the windows hold.
  pub push-Samples :
      (st : Client D) (frames errs phys : List ℕ) (f e p : ℕ)
      → Samples D st frames errs phys
      → Samples D (perr_push (phy_push st p) f e) (f ∷ frames) (e ∷ errs) (p ∷ phys)
  unfolding perr_push phy_push sum
  push-Samples st frames errs phys f e p s = record {
    frame_window = push-Window st.perr_frames st.perr_head st.perr_fill frames f s.frame_window;
    err_window = push-Window st.perr_errs st.perr_head st.perr_fill errs e s.err_window;
    rate_window = push-Window st.phy_window st.phy_head st.phy_fill phys p s.rate_window;
    total = push_total st.phy_window st.phy_head st.phy_fill phys p s.rate_window s.total;
  }

module _ {D : Type 0} (d : Double D) where
  -- `wei_infer_perr_rate` reads the loss from the ring alone.
  pub perr_rate-loss_of :
      (st : Client D) (frames errs phys : List ℕ)
      → Samples D st frames errs phys
      → perr_rate d st ≡ loss_of d frames errs
  unfolding perr_rate
  perr_rate-loss_of st frames errs phys s =
      rw (few, ← s.frame_window.shows.held) (go (ltb (length frames) 2) refl)
    where
      few : ltb st.perr_fill 2 ≡ ltb (length frames) 2
      few = ground (arith, s.frame_window.shows.held)

      go :
          (b : Bool)
          → ltb (length frames) 2 ≡ b
          → (if b
              then of_ℕ d 0
              else rate_of d
                  (growth
                    (get_or st.perr_frames (newest_index st.perr_head) 0)
                    (get_or st.perr_frames (oldest_index st.perr_fill st.perr_head) 0))
                  (growth
                    (get_or st.perr_errs (newest_index st.perr_head) 0)
                    (get_or st.perr_errs (oldest_index st.perr_fill st.perr_head) 0)))
            ≡ (if b
                then of_ℕ d 0
                else rate_of d
                    (growth (get_or frames 0 0) (get_or frames (st.perr_fill - 1) 0))
                    (growth (get_or errs 0 0) (get_or errs (st.perr_fill - 1) 0)))
      go true e = refl
      go false e =
          let held : 0 < st.perr_fill = ground (arith, s.frame_window.shows.held) in
          rw
            (
              Window_newest st.perr_frames st.perr_head st.perr_fill frames 0 s.frame_window held,
              Window_oldest st.perr_frames st.perr_head st.perr_fill frames 0 s.frame_window held,
              Window_newest st.perr_errs st.perr_head st.perr_fill errs 0 s.err_window held,
              Window_oldest st.perr_errs st.perr_head st.perr_fill errs 0 s.err_window held,
            )
            refl

  -- The mean of the last eight link rates, or of all while there are fewer; 0 before the first.
  abbrev pub mean_of : List ℕ → D
  mean_of phys =
      let n = if ltb (length phys) 8 then length phys else 8 in
      if n == 0 then of_ℕ d 0 else d.div (of_ℕ d (sum (take 8 phys) % 2 ^ 64)) (of_ℕ d n)

  pub phy_mean-mean_of :
      (st : Client D) (frames errs phys : List ℕ)
      → Samples D st frames errs phys
      → phy_mean d st ≡ mean_of phys
  unfolding phy_mean
  phy_mean-mean_of st frames errs phys s = rw (s.total, s.rate_window.shows.held) refl
