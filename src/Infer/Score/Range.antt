-- ===== src/Infer/Score/Range.antt =====
-- What a client of source/wei_infer.c holds over its life: window entries within their C types, and
-- bands that the kernel can read.
use wei.Base.{
  ℕ, zero, suc, ◌+◌, ◌-◌, ◌*◌, ◌^◌, ◌%◌, ◌≤◌, ◌<◌, ◌≡◌, sym, true, false, arith, ltb, ◌==◌,
  Bool-cases, Bool, refl, inl, inr, List, [], ◌∷◌, set, get_or, take,
}
use wei.Base.Int.{pos}
use wei.Metric.{Metric, IsTyped}
use wei.Double.{Double, IsIeee, IsSmall, of_ℕ}
use wei.Scorer.{Sigmoid}
use wei.Scorer.Bounds.{IsSmall-ℕ, IsSmall-ℤ, percent-IsSmall, rounded_le}
use wei.Infer.Types.{
  Client, Band, Result, Contributor, none_of, snr, phy, pkt_err, chan_util, is_degraded,
  zero_client,
}
use wei.Infer.Windows.{
  growth, newest_index, oldest_index, sum, rate_of, perr_rate, phy_mean, band_widen, perr_push,
  phy_push,
}
use wei.Infer.Score.{sampled, scored, percent_byte}
use wei.Infer.Score.Bounds.{IsReadable, scored-le}
use mathlib.Core.Path.{subst}

-- Entries of type `uint32_t`.
abbrev pub AllWords : List ℕ → Type 0
AllWords [] = Unit {0}
AllWords (x ∷ xs) = (x < 2 ^ 32) × AllWords xs

get_or-lt : (xs : List ℕ) (i : ℕ) → AllWords xs → get_or xs i 0 < 2 ^ 32
get_or-lt [] i w = omega arith
get_or-lt (x ∷ xs) zero w = w.0
get_or-lt (x ∷ xs) (suc i) w = get_or-lt xs i w.1

set-AllWords : (xs : List ℕ) (i v : ℕ) → v < 2 ^ 32 → AllWords xs → AllWords (set xs i v)
set-AllWords [] i v h w = tt
set-AllWords (x ∷ xs) zero v h w = (h, w.1)
set-AllWords (x ∷ xs) (suc i) v h w = (w.0, set-AllWords xs i v h w.1)

sum-take-le : (n : ℕ) (xs : List ℕ) → AllWords xs → sum (take n xs) ≤ n * 2 ^ 32
unfolding sum
sum-take-le zero xs w = omega arith
sum-take-le (suc n) [] w = omega arith
sum-take-le (suc n) (x ∷ xs) w = omega (arith, sum-take-le n xs w.1)

growth-lt : (newest oldest : ℕ) → newest < 2 ^ 32 → growth newest oldest < 2 ^ 32
growth-lt newest oldest h = ground arith

abbrev pub is_named : Contributor → Bool
is_named none_of = false
is_named snr = true
is_named phy = true
is_named pkt_err = true
is_named chan_util = true

-- The bytes of a result that hold a percentage, and its contributor, named exactly if the verdict is
-- DEGRADED.
pub record IsSound (out : Result) : Type 0 where
  pub score : out.score ≤ 100
  pub loss : out.pkt_err_pct ≤ 100
  pub named : is_named out.dominant ≡ is_degraded out.verdict

module _ {D : Type 0} (d : Double D) (laws : IsIeee d) where
  -- A value from 0 to 2^64.
  abbrev pub IsPositive : D → Type 0
  IsPositive x = IsSmall d x × (d.le (of_ℕ d 0) x ≡ true)

  zero-IsPositive : IsPositive (of_ℕ d 0)
  zero-IsPositive = (IsSmall-ℕ d laws 0 (omega arith), laws.of_ℤ_mono (pos 0) (pos 0) (omega arith))

  rate_of-IsPositive : (frames errs : ℕ) → errs < 2 ^ 32 → IsPositive (rate_of d frames errs)
  unfolding rate_of
  rate_of-IsPositive frames errs h = elim (Bool-cases ((frames + errs) % 2 ^ 32 == 0)) [
    | inl none_sent ↦ rw none_sent zero-IsPositive
    | inr sent ↦
        let n = (frames + errs) % 2 ^ 32 - 1 in
        let e : (frames + errs) % 2 ^ 32 ≡ suc n = ground arith in
        rw sent (rw e (percent-IsSmall d laws errs n h (omega arith)))
  ]

  perr_rate-IsPositive : (st : Client D) → AllWords st.perr_errs → IsPositive (perr_rate d st)
  unfolding perr_rate
  perr_rate-IsPositive st w = elim (Bool-cases (ltb st.perr_fill 2)) [
    | inl few ↦ rw few zero-IsPositive
    | inr enough ↦ rw enough (
        rate_of-IsPositive _ _ (
          growth-lt _ (get_or st.perr_errs (oldest_index st.perr_fill st.perr_head) 0)
            (get_or-lt st.perr_errs (newest_index st.perr_head) w)))
  ]

  mean-IsSmall :
      (n : ℕ) (xs : List ℕ)
      → suc n ≤ 8
      → AllWords xs
      → IsSmall d (d.div (of_ℕ d (sum (take (suc n) xs) % 2 ^ 64)) (of_ℕ d (suc n)))
  mean-IsSmall n xs few w =
      let total = sum (take (suc n) xs) % 2 ^ 64 in
      let share =
        laws.div_le (of_ℕ d total) total n (omega arith) (omega arith)
          (laws.of_ℤ_mono (pos 0) (pos total) (omega arith))
          (laws.of_ℤ_mono (pos total) (pos total) (omega arith)) in
      let small = IsSmall-ℕ d laws total (omega arith) in
      (
        laws.le_trans _ _ _ (IsSmall-ℕ d laws 0 (omega arith)).0 share.0,
        laws.le_trans _ _ _ share.1 small.1,
      )

  phy_mean-IsSmall :
      (st : Client D) → st.phy_fill ≤ 8 → AllWords st.phy_window → IsSmall d (phy_mean d st)
  unfolding phy_mean
  phy_mean-IsSmall st few w = elim (Bool-cases (st.phy_fill == 0)) [
    | inl fresh ↦ rw fresh (IsSmall-ℕ d laws 0 (omega arith))
    | inr some_held ↦
        let n = st.phy_fill - 1 in
        let e : st.phy_fill ≡ suc n = ground arith in
        rw some_held (
          subst
            (λ (k : ℕ). IsSmall d (d.div (of_ℕ d (sum (take k st.phy_window) % 2 ^ 64)) (of_ℕ d k)))
            (sym e) (mean-IsSmall n st.phy_window (omega (arith, few)) w))
  ]

  abbrev pub IsSmallBand : Band D → Type 0
  IsSmallBand b = IsSmall d b.lo × IsSmall d b.hi

  band_widen-IsSmallBand :
      (b : Band D) (v : D) → IsSmallBand b → IsSmall d v → IsSmallBand (band_widen d b v)
  unfolding band_widen
  band_widen-IsSmallBand b v w s = ground (arith, w, s)

  -- What holds of a client's state from the zeroed one on.
  pub record IsInRange (st : Client D) : Type 0 where
    pub snr_band : IsSmallBand st.snr_band
    pub phy_band : IsSmallBand st.phy_band
    pub per_band : IsSmallBand st.per_band
    pub frames : AllWords st.perr_frames
    pub errs : AllWords st.perr_errs
    pub rates : AllWords st.phy_window
    pub phy_fill : st.phy_fill ≤ 8
    pub ramp : st.reconnect_ramp ≤ 4

  pub zero_client-IsInRange : IsInRange (zero_client d)
  zero_client-IsInRange =
      let zero_small = IsSmall-ℕ d laws 0 (omega arith) in
      record {
        snr_band = (zero_small, zero_small);
        phy_band = (zero_small, zero_small);
        per_band = (zero_small, zero_small);
        frames = omega arith;
        errs = omega arith;
        rates = omega arith;
        phy_fill = omega arith;
        ramp = omega arith;
      }

  pub IsInRange-IsReadable : (st : Client D) → IsInRange st → IsReadable d laws st
  IsInRange-IsReadable st w = record {
    snr_lo = w.snr_band.0;
    snr_hi = w.snr_band.1;
    phy_lo = w.phy_band.0;
    phy_hi = w.phy_band.1;
    per_lo = w.per_band.0;
    per_hi = w.per_band.1;
    mean = phy_mean-IsSmall st w.phy_fill w.rates;
    rate = (perr_rate-IsPositive st w.errs).0;
  }

  module _ (q : Sigmoid D) where
    pub sampled-IsInRange :
        (st : Client D) (rec : Metric) → IsTyped rec → IsInRange st → IsInRange (sampled d q st rec)
    unfolding sampled perr_push phy_push
    sampled-IsInRange st rec ty w =
        let st' = perr_push (phy_push st rec.phy_rate_kbps) rec.tx_frames rec.tx_err_frames in
        let errs = set-AllWords st.perr_errs st.perr_head rec.tx_err_frames ty.errors w.errs in
        let rates = set-AllWords st.phy_window st.phy_head rec.phy_rate_kbps ty.phy w.rates in
        let held : st'.phy_fill ≤ 8 = ground (arith, w.phy_fill) in
        record {
          snr_band =
              band_widen-IsSmallBand st.snr_band _ w.snr_band
                (IsSmall-ℤ d laws rec.link_snr_db ty.snr_low ty.snr_high);
          phy_band =
              band_widen-IsSmallBand st.phy_band _ w.phy_band (phy_mean-IsSmall st' held rates);
          per_band =
              band_widen-IsSmallBand st.per_band _ w.per_band (perr_rate-IsPositive st' errs).0;
          frames = set-AllWords st.perr_frames st.perr_head rec.tx_frames ty.frames w.frames;
          errs = errs;
          rates = rates;
          phy_fill = held;
          ramp = w.ramp;
        }

    percent_byte-le : (x : D) → IsPositive x → percent_byte d q x ≤ 100
    unfolding percent_byte
    percent_byte-le x w = elim (Bool-cases (d.le (of_ℕ d 100) x)) [
      | inl much ↦ rw much (ground arith)
      | inr little ↦
          let top =
            laws.le_total (of_ℕ d 100) x (laws.of_ℤ_mono (pos 100) (pos 100) (omega arith))
              (laws.num_of_le _ _ w.1).1 little in
          let near = laws.lround_le x 100 (omega arith) w.1 top in
          rw little (ground (arith, rounded_le d laws (d.lround x) 100 (omega arith) near.0 near.1))
    ]

    -- If the sigmoid coefficients are at most 2^64 in magnitude, and the record's fields are within
    -- their C types: scoring leaves a client in range in range, and the score and the loss that it
    -- reports are at most 100, with no contributor named yet.
    pub scored-IsInRange :
        (st : Client D) (rec : Metric)
        → IsSmall d q.b0
        → IsSmall d q.b1
        → IsTyped rec
        → IsInRange st
        → IsInRange (scored d q st rec).0 × IsSound (scored d q st rec).1
    unfolding scored
    scored-IsInRange st rec s0 s1 ty w =
        let i = sampled-IsInRange st rec ty w in
        (
          record {
            snr_band = i.snr_band;
            phy_band = i.phy_band;
            per_band = i.per_band;
            frames = i.frames;
            errs = i.errs;
            rates = i.rates;
            phy_fill = i.phy_fill;
            ramp = ground (arith, w.ramp);
          },
          record {
            score =
                scored-le d laws q st rec s0 s1 ty (IsInRange-IsReadable (sampled d q st rec) i)
                  w.ramp;
            loss = percent_byte-le _ (perr_rate-IsPositive (sampled d q st rec) i.errs);
            named = refl;
          },
        )
