-- ===== src/Infer/Score/Bounds.antt =====
-- The range of the score of source/wei_infer.c.
use wei.Base.{ℕ, ◌+◌, ◌-◌, ◌^◌, ◌%◌, ◌≤◌, ◌<◌, ◌≡◌, true, arith, ltb, ◌==◌, Bool-cases, inl, inr}
use wei.Base.Int.{pos, negsuc}
use wei.Metric.{Metric, IsTyped}
use wei.Double.{Double, IsIeee, IsUnit, IsSmall, of_ℕ}
use wei.Scorer.{Sigmoid}
use wei.Scorer.Bounds.{
  IsSmall-ℕ, IsSmall-ℤ, normalize_metric-IsUnit, reduced-IsUnit, chanutil_weight-IsUnit,
  standardize_range, unit-IsSmall,
}
use wei.Infer.Types.{Client}
use wei.Infer.Windows.{phy_mean, perr_rate}
use wei.Infer.Score.{sampled, raw_score, ease, damped, ramp_of, scored, reconnect_ramp_ticks}

module _ {D : Type 0} (d : Double D) (laws : IsIeee d) where
  -- A client whose readings and bands are at most 2^64 in magnitude.
  pub record IsReadable (st : Client D) : Type 0 where
    pub snr_lo : IsSmall d st.snr_band.lo
    pub snr_hi : IsSmall d st.snr_band.hi
    pub phy_lo : IsSmall d st.phy_band.lo
    pub phy_hi : IsSmall d st.phy_band.hi
    pub per_lo : IsSmall d st.per_band.lo
    pub per_hi : IsSmall d st.per_band.hi
    pub mean : IsSmall d (phy_mean d st)
    pub rate : IsSmall d (perr_rate d st)

  module _ (q : Sigmoid D) where
    raw_score-range :
        (st : Client D) (rec : Metric)
        → IsSmall d q.b0
        → IsSmall d q.b1
        → IsTyped rec
        → IsReadable st
        → (d.le (of_ℕ d 0) (raw_score d q st rec) ≡ true)
          × (d.le (raw_score d q st rec) (of_ℕ d 100) ≡ true)
    unfolding raw_score
    raw_score-range st rec s0 s1 ty w =
        let snr =
          normalize_metric-IsUnit d laws _ _ _
            (IsSmall-ℤ d laws rec.link_snr_db ty.snr_low ty.snr_high) w.snr_lo w.snr_hi in
        let phy = normalize_metric-IsUnit d laws _ _ _ w.mean w.phy_lo w.phy_hi in
        let per = normalize_metric-IsUnit d laws _ _ _ w.rate w.per_lo w.per_hi in
        let reduced = reduced-IsUnit d laws _ _ _ snr phy per in
        let weighted =
          chanutil_weight-IsUnit d laws q _ _ s0 s1
            (IsSmall-ℕ d laws rec.chan_util_pct (omega arith)) reduced in
        standardize_range d laws _ weighted.0

    -- The ramp's factor after some steps of it.
    abbrev factor : ℕ → D
    factor steps =
        let progress = d.div (of_ℕ d steps) (of_ℕ d reconnect_ramp_ticks) in
        d.div (d.sub (of_ℕ d 1) (d.exp (d.mul (d.of_ℤ (negsuc 3)) progress)))
          (d.sub (of_ℕ d 1) (d.exp (d.of_ℤ (negsuc 3))))

    factor-IsUnit : (steps : ℕ) → steps ≤ 4 → IsUnit d (factor steps)
    factor-IsUnit steps few =
        let at_0 = laws.of_ℤ_mono (pos 0) (pos steps) (omega arith) in
        let at_4 = laws.of_ℤ_mono (pos steps) (pos 4) (omega arith) in
        let progress =
          laws.div_unit _ _ (IsSmall-ℕ d laws steps (omega arith)) at_0 at_4 (laws.of_ℕ_pos 3) in
        let exponent = laws.mul_neg 3 _ (omega arith) progress in
        let num = laws.num_of_le _ _ exponent.0 in
        let low = laws.exp_nonneg _ num.0 in
        let mono = laws.exp_mono _ _ exponent.0 in
        let high = laws.exp_nonpos _ exponent.1 in
        let o =
          laws.one_sub _ _ (low, laws.le_trans _ _ _ mono high) (laws.exp_nonneg _ num.1, high)
            mono in
        let den = laws.one_sub_pos _ low (laws.exp_neg 3) in
        laws.div_unit _ _ (unit-IsSmall d laws _ (o.0, laws.le_trans _ _ _ o.1 o.2)) o.0 o.1 den

    ease-IsUnit : (ramp : ℕ) → 0 < ramp → ramp ≤ 4 → IsUnit d (ease d q ramp)
    unfolding ease
    ease-IsUnit ramp some_left few =
        factor-IsUnit ((reconnect_ramp_ticks + 2 ^ 32 - ramp + 1) % 2 ^ 32) (omega arith)

    damped-range :
        (ramp : ℕ) (score : D)
        → ramp ≤ 4
        → d.le (of_ℕ d 0) score ≡ true
        → d.le score (of_ℕ d 100) ≡ true
        → (d.le (of_ℕ d 0) (damped d q ramp score) ≡ true)
          × (d.le (damped d q ramp score) (of_ℕ d 100) ≡ true)
    unfolding damped
    damped-range ramp score few low high = elim (Bool-cases (ltb 0 ramp)) [
      | inr over ↦ rw over (low, high)
      | inl left ↦
          let top =
            laws.le_trans _ _ _ high (laws.of_ℤ_mono (pos 100) (pos (2 ^ 64)) (omega arith)) in
          let r = laws.mul_scale score _ low top (ease-IsUnit ramp (ground arith) few) in
          rw left (r.0, laws.le_trans _ _ _ r.1 high)
    ]

    -- The score that the engine reports of a scored record is at most 100, so that it fits its
    -- byte, also while the reconnect ramp of at most 4 ticks damps it: for sigmoid coefficients,
    -- bands and window readings of at most 2^64 in magnitude, and record fields within their C
    -- types.
    pub scored-le :
        (st : Client D) (rec : Metric)
        → IsSmall d q.b0
        → IsSmall d q.b1
        → IsTyped rec
        → IsReadable (sampled d q st rec)
        → st.reconnect_ramp ≤ 4
        → (scored d q st rec).1.score ≤ 100
    unfolding scored
    scored-le st rec s0 s1 ty w few =
        let st' = sampled d q st rec in
        let raw = raw_score-range st' rec s0 s1 ty w in
        let ramp = ramp_of d q (st.phy_fill == 0) st.reconnect_ramp in
        let held = damped-range ramp _ (ground arith) raw.0 raw.1 in
        laws.to_u8_le _ 100 (omega arith) held.0 held.1
