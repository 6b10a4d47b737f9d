-- ===== src/Scorer/Bounds.antt =====
-- The ranges of the kernel's stages and of its score.
use native.Mathlib.Nat.{add-zero}
use wei.Base.{
  ℕ, suc, ◌+◌, ◌-◌, ◌*◌, ◌^◌, ◌≤◌, ◌<◌, ◌≡◌, true, false, ◌&&◌, ◌==◌, some, List, [], ◌∷◌,
  if◌then◌else◌, length, arith, Bool-cases, inl, inr,
}
use wei.Base.Int.{ℤ, pos, negsuc, ◌≤ℤ◌}
use wei.Metric.{Metric, IsTyped, is_active, is_ok}
use wei.Double.{Double, IsIeee, IsNum, IsSmall, IsUnit, of_ℕ}
use wei.Scorer.{
  Sigmoid, normalize_metric, sum_from, rms_reduce, chanutil_weight, standardize, frame_total,
  loss_percent, contributions, score_of, score, u8_of_ℤ,
}

module _ {D : Type 0} (d : Double D) (laws : IsIeee d) where
  open d use {neg, add, sub, mul, div, lt, le, sqrt, exp}

  of_ℕ_mono : (m n : ℕ) → m ≤ n → le (of_ℕ d m) (of_ℕ d n) ≡ true
  of_ℕ_mono m n h = laws.of_ℤ_mono (pos m) (pos n) (omega arith)

  of_ℤ-IsNum : (a : ℤ) → IsNum d (d.of_ℤ a)
  of_ℤ-IsNum a = laws.of_ℤ_mono a a (omega arith)

  IsSmall-of_range :
      (x : D) (n : ℕ) → n ≤ 2 ^ 64 → le (of_ℕ d 0) x ≡ true → le x (of_ℕ d n) ≡ true → IsSmall d x
  IsSmall-of_range x n h p q = (
    laws.le_trans _ _ _ (laws.of_ℤ_mono (negsuc (2 ^ 64 - 1)) (pos 0) (omega arith)) p,
    laws.le_trans _ _ _ q (of_ℕ_mono n (2 ^ 64) h),
  )

  pub unit-IsSmall : (x : D) → IsUnit d x → IsSmall d x
  unit-IsSmall x u = IsSmall-of_range x 1 (omega arith) u.0 u.1

  lt_of_not_le : (x y : D) → IsNum d x → IsNum d y → le y x ≡ false → lt x y ≡ true
  lt_of_not_le x y nx ny h = ground (arith, laws.lt-not-le x y nx ny)

  not_le_of_lt : (x y : D) → IsNum d x → IsNum d y → lt x y ≡ true → le y x ≡ false
  not_le_of_lt x y nx ny h = ground (arith, laws.lt-not-le x y nx ny)

  not_lt_of_le : (x y : D) → le x y ≡ true → lt y x ≡ false
  not_lt_of_le x y h = ground (arith, laws.num_of_le x y h, laws.lt-not-le y x)

  -- What is at least 1 is positive.
  pos_of_one_le : (y : D) → le (of_ℕ d 1) y ≡ true → lt (of_ℕ d 0) y ≡ true
  pos_of_one_le y h = ground (
    arith,
    laws.of_ℕ_pos 0,
    laws.num_of_le _ _ h,
    not_le_of_lt (of_ℕ d 0) (of_ℕ d 1) (of_ℤ-IsNum (pos 0)) (of_ℤ-IsNum (pos 1)),
    laws.le_trans (of_ℕ d 1) y (of_ℕ d 0) h,
    laws.lt-not-le (of_ℕ d 0) y (of_ℤ-IsNum (pos 0)),
  )

  -- A value held between two bounds, the lower test first.
  clamp_range :
      (x lo hi : D)
      → IsNum d x
      → le lo hi ≡ true
      → let low = if lt x lo then lo else x in
        let out = if lt hi low then hi else low in (le lo out ≡ true) × (le out hi ≡ true)
  clamp_range x lo hi nx h = ground (
    arith,
    laws.num_of_le lo hi h,
    laws.lt-not-le x lo nx,
    laws.lt-not-le hi x,
    laws.lt-not-le hi lo,
  )

  -- On inputs of at most 2^64 in magnitude, `cscore_normalize_metric` yields a value in [0, 1],
  -- whatever the domain.
  pub normalize_metric-IsUnit :
      (value lo hi : D)
      → IsSmall d value
      → IsSmall d lo
      → IsSmall d hi
      → IsUnit d (normalize_metric d value lo hi)
  unfolding normalize_metric
  normalize_metric-IsUnit value lo hi v l h = elim (Bool-cases (le (sub hi lo) (of_ℕ d 0))) [
    | inl flat ↦ rw flat (of_ℕ_mono 0 0 (omega arith), of_ℕ_mono 0 1 (omega arith))
    | inr wide ↦ rw wide (
        clamp_range _ (of_ℕ d 0) (of_ℕ d 1)
          (laws.quotient_num value lo hi v l h
            (lt_of_not_le _ _ (of_ℤ-IsNum (pos 0)) (laws.sub_num hi lo h l) wide))
          (of_ℕ_mono 0 1 (omega arith)))
  ]

  fifty : le (d.of_ℤ (negsuc 49)) (of_ℕ d 50) ≡ true
  fifty = laws.of_ℤ_mono (negsuc 49) (pos 50) (omega arith)

  -- Every element of the list is in [0, 1].
  abbrev pub AllUnit : List D → Type 0
  AllUnit [] = Unit {0}
  AllUnit (c ∷ cs) = IsUnit d c × AllUnit cs

  sum_from_range :
      (cs : List D) (accum : D) (m : ℕ)
      → m + length cs < 2 ^ 53
      → le (of_ℕ d 0) accum ≡ true
      → le accum (of_ℕ d m) ≡ true
      → AllUnit cs
      → (le (of_ℕ d 0) (sum_from d accum cs) ≡ true)
        × (le (sum_from d accum cs) (of_ℕ d (m + length cs)) ≡ true)
  unfolding sum_from
  sum_from_range [] accum m lt p q u = rw add-zero (p, q)
  sum_from_range (c ∷ cs) accum m lt p q u =
      let (p', q') = laws.add_le accum c m (omega arith) p q u.0 in
      let r = sum_from_range cs (add accum c) (m + 1) (omega arith) p' q' u.1 in
      (r.0, laws.le_trans _ _ _ r.1 (of_ℕ_mono _ _ (omega arith)))

  -- The root mean square of contributions in [0, 1] is in [0, 1].
  pub rms_reduce-IsUnit :
      (cs : List D) → length cs < 2 ^ 53 → AllUnit cs → IsUnit d (rms_reduce d cs)
  unfolding rms_reduce
  rms_reduce-IsUnit [] lt u = (of_ℕ_mono 0 0 (omega arith), of_ℕ_mono 0 1 (omega arith))
  rms_reduce-IsUnit (c ∷ cs) lt u =
      let (p, q) =
        sum_from_range (c ∷ cs) (of_ℕ d 0) 0 (omega arith) (of_ℕ_mono 0 0 (omega arith))
          (of_ℕ_mono 0 0 (omega arith)) u in
      let q' =
        laws.le_trans _ _ _ q (of_ℕ_mono (0 + suc (length cs)) (suc (length cs)) (omega arith)) in
      let mean =
        laws.div_unit _ _ (IsSmall-of_range _ (suc (length cs)) (omega arith) p q') p q'
          (laws.of_ℕ_pos (length cs)) in
      rw (not_lt_of_le _ _ mean.0) (laws.sqrt_unit _ mean)

  -- The sigmoid weight is in [0, 1], so the weighted value is in [0, 1] and no more than the reduced
  -- one.
  pub chanutil_weight-IsUnit :
      (q : Sigmoid D) (reduced chan_util : D)
      → IsSmall d q.b0
      → IsSmall d q.b1
      → IsSmall d chan_util
      → IsUnit d reduced
      → IsUnit d (chanutil_weight d q reduced chan_util)
        × (le (chanutil_weight d q reduced chan_util) reduced ≡ true)
  unfolding chanutil_weight
  chanutil_weight-IsUnit q reduced chan_util s0 s1 su u =
      let exponent = neg (add q.b0 (mul q.b1 chan_util)) in
      let finite = laws.neg_num _ (laws.add_num _ _ s0 (laws.mul_num _ _ s1 su)) in
      let held = clamp_range exponent (d.of_ℤ (negsuc 49)) (of_ℕ d 50) finite fifty in
      let grown = laws.one_add _ (laws.exp_nonneg _ (laws.num_of_le _ _ held.0).1) in
      let one : IsUnit d (of_ℕ d 1) = (of_ℕ_mono 0 1 (omega arith), of_ℕ_mono 1 1 (omega arith)) in
      let weight = laws.div_unit _ _ (unit-IsSmall _ one) one.0 grown (pos_of_one_le _ grown) in
      let scaled = laws.mul_scale reduced _ u.0 (unit-IsSmall _ u).1 weight in
      ((scaled.0, laws.le_trans _ _ _ scaled.1 u.1), scaled.1)

  scaled-IsNum :
      (x : D) → IsUnit d x → IsNum d (add (of_ℕ d 0) (mul x (sub (of_ℕ d 100) (of_ℕ d 0))))
  scaled-IsNum x u = rw (laws.sub_exact 100 0 (omega arith) (omega arith)) (
      let zero_unit : IsUnit d (of_ℕ d 0) =
        (of_ℕ_mono 0 0 (omega arith), of_ℕ_mono 0 1 (omega arith)) in
      laws.add_num _ _ (unit-IsSmall _ zero_unit) (
        laws.mul_num _ _ (unit-IsSmall _ u) (
          IsSmall-of_range _ 100 (omega arith) (of_ℕ_mono 0 100 (omega arith))
            (of_ℕ_mono 100 100 (omega arith)))))

  -- The standardised value of a value in [0, 1] is in [0, 100].
  pub standardize_range :
      (weighted : D)
      → IsUnit d weighted
      → (le (of_ℕ d 0) (standardize d weighted) ≡ true)
        × (le (standardize d weighted) (of_ℕ d 100) ≡ true)
  unfolding standardize
  standardize_range weighted u =
      clamp_range _ (of_ℕ d 0) (of_ℕ d 100) (scaled-IsNum weighted u)
        (of_ℕ_mono 0 100 (omega arith))

  pub IsSmall-ℤ : (a : ℤ) → negsuc (2 ^ 31 - 1) ≤ℤ a → a ≤ℤ pos (2 ^ 31 - 1) → IsSmall d (d.of_ℤ a)
  IsSmall-ℤ a p q = (laws.of_ℤ_mono _ _ (omega arith), laws.of_ℤ_mono _ _ (omega arith))

  pub IsSmall-ℕ : (n : ℕ) → n ≤ 2 ^ 64 → IsSmall d (of_ℕ d n)
  IsSmall-ℕ n h = IsSmall-of_range _ n h (of_ℕ_mono 0 n (omega arith)) (of_ℕ_mono n n (omega arith))

  -- A share of a counter below 2^32, in percent.
  pub percent-IsSmall :
      (errs n : ℕ)
      → errs < 2 ^ 32
      → n < 2 ^ 32
      → IsSmall d (mul (div (of_ℕ d errs) (of_ℕ d (suc n))) (of_ℕ d 100))
        × (le (of_ℕ d 0) (mul (div (of_ℕ d errs) (of_ℕ d (suc n))) (of_ℕ d 100)) ≡ true)
  percent-IsSmall errs n h total =
      let q =
        laws.div_le (of_ℕ d errs) (2 ^ 32) n (omega arith) (omega arith)
          (of_ℕ_mono 0 errs (omega arith)) (of_ℕ_mono errs (2 ^ 32) (omega arith)) in
      let r = laws.mul_le _ (2 ^ 32) 100 (omega arith) (omega arith) q.0 q.1 in
      (IsSmall-of_range _ (2 ^ 32 * 100) (omega arith) r.0 r.1, r.0)

  loss_percent-IsSmall : (m : Metric) → m.tx_err_frames < 2 ^ 32 → IsSmall d (loss_percent d m)
  unfolding loss_percent
  loss_percent-IsSmall m h = elim (Bool-cases (frame_total m == 0)) [
    | inl idle ↦ rw idle (IsSmall-ℕ 0 (omega arith))
    | inr busy ↦
        let n = frame_total m - 1 in
        let e : frame_total m ≡ suc n = ground arith in
        rw busy (rw e (percent-IsSmall m.tx_err_frames n h (omega arith)).0)
  ]

  pub contributions-AllUnit :
      (snr phy per : D)
      → IsUnit d snr
      → IsUnit d phy
      → IsUnit d per
      → AllUnit (contributions d snr phy per)
  contributions-AllUnit snr phy per s p r =
      let o =
        laws.one_sub _ _ (square per r) (square per r) (laws.num_of_le _ _ (square per r).0).1 in
      (square snr s, (square phy p, ((o.0, o.2), tt)))
    where
      square : (x : D) → IsUnit d x → IsUnit d (mul x x)
      square x u =
          let s = laws.mul_scale x x u.0 (unit-IsSmall x u).1 u in
          (s.0, laws.le_trans _ _ _ s.1 u.1)

  -- The root mean square of the three contributions of normalised metrics.
  pub reduced-IsUnit :
      (snr phy per : D)
      → IsUnit d snr
      → IsUnit d phy
      → IsUnit d per
      → IsUnit d (rms_reduce d (contributions d snr phy per))
  reduced-IsUnit snr phy per s p r =
      rms_reduce-IsUnit (contributions d snr phy per) (omega arith)
        (contributions-AllUnit snr phy per s p r)

  pub rounded_le : (a : ℤ) (n : ℕ) → n < 256 → pos 0 ≤ℤ a → a ≤ℤ pos n → u8_of_ℤ a ≤ n
  rounded_le (pos k) n h p q = omega arith
  rounded_le (negsuc k) n h p q = absurd (omega arith)

  score_of-le :
      (q : Sigmoid D) (m : Metric)
      → IsSmall d q.b0
      → IsSmall d q.b1
      → IsTyped m
      → score_of d q m ≤ 100
  unfolding score_of
  score_of-le q m s0 s1 ty =
      let zero_small = IsSmall-ℕ 0 (omega arith) in
      let snr =
        normalize_metric-IsUnit _ _ _ (IsSmall-ℤ m.link_snr_db ty.snr_low ty.snr_high) zero_small
          (IsSmall-ℕ 40 (omega arith)) in
      let phy =
        normalize_metric-IsUnit _ _ _ (IsSmall-ℕ m.phy_rate_kbps (omega arith)) zero_small
          (IsSmall-ℕ 866000 (omega arith)) in
      let per =
        normalize_metric-IsUnit _ _ _ (loss_percent-IsSmall m ty.errors) zero_small
          (IsSmall-ℕ 100 (omega arith)) in
      let reduced = reduced-IsUnit _ _ _ snr phy per in
      let weighted =
        chanutil_weight-IsUnit q _ _ s0 s1 (IsSmall-ℕ m.chan_util_pct (omega arith)) reduced in
      let out = standardize_range _ weighted.0 in
      let near = laws.lround_le _ 100 (omega arith) out.0 out.1 in
      rounded_le _ 100 (omega arith) near.0 near.1

  -- The score of a record is at most 100, so it fits the `uint8_t` that it is cast to: for sigmoid
  -- coefficients of at most 2^64 in magnitude, and fields within their C types.
  pub score-le :
      (q : Sigmoid D) (m : Metric)
      → IsSmall d q.b0
      → IsSmall d q.b1
      → IsTyped m
      → score d q (some m) ≤ 100
  unfolding score
  score-le q m s0 s1 ty = elim (Bool-cases (is_active m.activity_state && is_ok m.status)) [
    | inl on ↦ rw on (score_of-le q m s0 s1 ty)
    | inr off ↦ rw off (omega arith)
  ]
