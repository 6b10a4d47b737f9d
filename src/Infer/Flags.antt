-- ===== src/Infer/Flags.antt =====
-- The three flags that follow the score of a tick (source/wei_infer.c).
pub mod Latency
pub mod Tracker
use wei.Base.{
  ℕ, ◌+◌, Bool, true, false, ◌||◌, Option, none, some, if◌then◌else◌, ltb, leb, get_or, set,
}
use wei.Base.Int.{ℤ, pos, neg, ltb_ℤ}
use wei.Double.{Double}
use wei.Track
use wei.Track.{Table, zero_entry}
use wei.Infer.Types.{Client, Slot, Policy, Result, degraded}
use wei.Infer.Windows.{phy_instability}

-- `if (bad) out->verdict = WEI_INFER_VERDICT_DEGRADED`.
abbrev pub degrade_if : Bool → Result → Result
degrade_if bad out = if bad then record out { verdict = degraded } else out

-- What follows `wei_track_get`, whose result may be NULL: the entry is ticked and collected.
abbrev pub track_at : Policy → ℤ → ℤ → Table × Option ℕ → Table × ℤ
track_at policy instability now (t, none) = (t, pos 0)
track_at policy instability now (t, some i) =
    let ticked =
      Track.tick (get_or t i zero_entry) (neg instability) now (neg policy.tput_var_band)
        policy.tput_floor_ms in
    let (entry, excursion) = Track.collect ticked in (set t i entry, excursion.duration_ms)

module _ {D : Type 0} (d : Double D) where
  -- The tracker afterwards, and the duration of the excursion that ended, if any.
  unfoldable pub track_instability : Policy → Table → Slot D → ℤ → ℤ → Table × ℤ
  track_instability policy tracker slot instability now =
      track_at policy instability now (Track.get tracker slot.mac now)

  unfoldable pub flag_instability : Policy → Table → Slot D → Result → ℤ → Table × Result
  unfolding track_instability
  flag_instability policy tracker slot out now =
      let instability = phy_instability d slot.state in
      let (t, exc_ms) = track_instability policy tracker slot instability now in
      let unstable = ltb_ℤ policy.tput_var_band instability || ltb_ℤ (pos 0) exc_ms in
      (t, degrade_if unstable out)

module _ {D : Type 0} where
  -- The run of scores below the band, held at UINT16_MAX, and the alarm.
  unfoldable pub advance_run : Policy → Client D → ℕ → Client D
  advance_run policy st score =
      let cross =
        if ltb st.threshold_cross 65535 then st.threshold_cross + 1 else st.threshold_cross in
      if ltb score policy.latency_score_band
      then record st {
        threshold_cross = cross;
        alarm = if leb policy.latency_sustain_ticks cross then true else st.alarm;
      }
      else record st { threshold_cross = 0; alarm = false }

  unfoldable pub flag_latency_risk : Policy → Client D → Result → Client D × Result
  unfolding advance_run
  flag_latency_risk policy st out =
      let st' = advance_run policy st out.score in (st', degrade_if st'.alarm out)

unfoldable pub flag_video_degrade : Policy → Result → Result
flag_video_degrade policy out =
    if ltb out.score policy.video_degrade_band then record out { video_degrade = true } else out
