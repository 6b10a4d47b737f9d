-- ===== src/Infer/Score.antt =====
-- `wei_infer_score_client` and `wei_infer_attribute` (source/wei_infer.c).
pub mod Ramp
pub mod Bounds
pub mod Range
pub mod Worst
mod Examples
use wei.Base.{
  ℕ, suc, ◌+◌, ◌-◌, ◌^◌, ◌%◌, Bool, true, false, ◌&&◌, Option, none, some, List, [], ◌∷◌,
  if◌then◌else◌, ltb, ◌==◌,
}
use wei.Base.Int.{ℤ, pos, negsuc}
use wei.Metric.{Metric, is_active, is_ok}
use wei.Double.{Double, of_ℕ}
use wei.Scorer.{
  Sigmoid, u8_of_ℤ, normalize_metric, rms_reduce, chanutil_weight, standardize, contributions,
}
use wei.Infer.Types.{
  Client, Band, Result, Contributor, smooth, none_of, snr, phy, pkt_err, chan_util,
}
use wei.Infer.Windows.{perr_push, phy_push, perr_rate, phy_mean, band_widen}

abbrev pub reconnect_ramp_ticks : ℕ
reconnect_ramp_ticks = 4

module _ {D : Type 0} (d : Double D) (q : Sigmoid D) where
  -- The client with this tick's samples in its windows and its bands widened by them.
  unfoldable pub sampled : Client D → Metric → Client D
  unfolding perr_push phy_push perr_rate phy_mean band_widen
  sampled st rec =
      let st' = perr_push (phy_push st rec.phy_rate_kbps) rec.tx_frames rec.tx_err_frames in
      record st' {
        snr_band = band_widen d st.snr_band (d.of_ℤ rec.link_snr_db);
        phy_band = band_widen d st.phy_band (phy_mean d st');
        per_band = band_widen d st.per_band (perr_rate d st');
      }

  abbrev pub in_band : Band D → D → D
  in_band b v = normalize_metric d v b.lo b.hi

  -- The standardised score of a sampled client, before the ramp.
  unfoldable pub raw_score : Client D → Metric → D
  raw_score st rec =
      let norm0 = in_band st.snr_band (d.of_ℤ rec.link_snr_db) in
      let norm1 = in_band st.phy_band (phy_mean d st) in
      let norm2 = in_band st.per_band (perr_rate d st) in
      let reduced = rms_reduce d (contributions d norm0 norm1 norm2) in
      standardize d (chanutil_weight d q reduced (of_ℕ d rec.chan_util_pct))

  -- `(1 - e^(-4p)) / (1 - e^-4)`, with p from the ticks of the ramp that are left, in `unsigned`
  -- arithmetic.
  unfoldable pub ease : ℕ → D
  ease ramp =
      let steps = (reconnect_ramp_ticks + 2 ^ 32 - ramp + 1) % 2 ^ 32 in
      let progress = d.div (of_ℕ d steps) (of_ℕ d reconnect_ramp_ticks) in
      d.div (d.sub (of_ℕ d 1) (d.exp (d.mul (d.of_ℤ (negsuc 3)) progress)))
        (d.sub (of_ℕ d 1) (d.exp (d.of_ℤ (negsuc 3))))

  -- `reconnect_ramp` once a first sample has set it.
  abbrev pub ramp_of : Bool → ℕ → ℕ
  ramp_of warming ramp = if warming then reconnect_ramp_ticks else ramp

  -- The score that is reported while `ramp` ticks of the ramp are left.
  unfoldable pub damped : ℕ → D → D
  unfolding ease
  damped ramp score = if ltb 0 ramp then d.mul score (ease ramp) else score

  unfoldable pub percent_byte : D → ℕ
  percent_byte per_pct =
      if d.le per_pct (of_ℕ d 0)
      then 0
      else if d.le (of_ℕ d 100) per_pct
      then 100
      else u8_of_ℤ (d.lround per_pct)

  -- The result and the client's state after a scored tick.
  unfoldable pub scored : Client D → Metric → Client D × Result
  unfolding sampled raw_score damped percent_byte
  scored st rec =
      let st' = sampled st rec in
      let ramp = ramp_of (st.phy_fill == 0) st.reconnect_ramp in
      (
        record st' { reconnect_ramp = if ltb 0 ramp then ramp - 1 else ramp },
        record {
          score = d.to_u8 (d.add (damped ramp (raw_score st' rec)) d.half);
          verdict = smooth;
          dominant = none_of;
          video_degrade = false;
          pkt_err_pct = percent_byte (perr_rate d st');
        },
      )

  -- `none` is the return value 0: the client is gated out, and nothing is written.
  unfoldable pub score_client : Client D → Metric → Option (Client D × Result)
  unfolding scored
  score_client st rec =
      if is_active rec.activity_state && is_ok rec.status then some (scored st rec) else none

  -- `for (i = 1; ...) if (badness[i] > badness[worst]) worst = i`.
  unfoldable pub worst_from : ℕ → D → ℕ → List D → ℕ
  worst_from worst most i [] = worst
  worst_from worst most i (b ∷ bs) =
      worst_from (if d.lt most b then i else worst) (if d.lt most b then b else most) (suc i) bs

  -- `WEI_INFER_CONTRIB_SNR + worst`.
  abbrev pub contributor : ℕ → Contributor
  contributor i =
      if i == 0 then snr else if i == 1 then phy else if i == 2 then pkt_err else chan_util

  abbrev pub badness_snr : Client D → Metric → D
  badness_snr st rec = d.sub (of_ℕ d 1) (in_band st.snr_band (d.of_ℤ rec.link_snr_db))

  abbrev pub badness_rest : Client D → Metric → List D
  badness_rest st rec =
      d.sub (of_ℕ d 1) (in_band st.phy_band (of_ℕ d rec.phy_rate_kbps))
      ∷ in_band st.per_band (perr_rate d st)
      ∷ d.div (of_ℕ d rec.chan_util_pct) (of_ℕ d 100)
      ∷ []

  unfoldable pub attribute : Client D → Metric → Contributor
  unfolding worst_from
  attribute st rec = contributor (worst_from 0 (badness_snr st rec) 1 (badness_rest st rec))
