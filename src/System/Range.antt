-- ===== src/System/Range.antt =====
-- The reports on the bus over the life of the loop.
use wei.Base.{
  ℕ, ◌≡◌, ◌≤◌, ◌<◌, ◌^◌, ◌-◌, sym, Bool, true, false, List, [], ◌∷◌, Bool-cases, inl, inr, leb,
  arith,
}
use mathlib.Core.Path.{subst}
use wei.Base.Int.{ℤ, pos, negsuc, ◌≤ℤ◌}
use wei.Base.Mac.{Mac}
use wei.Metric.{Metric}
use wei.Double.{Double, IsIeee, IsSmall}
use wei.Scorer.{Sigmoid}
use wei.Infer.Types.{Result}
use wei.Infer.Score.Range.{IsSound}
use wei.Infer.Engine.{map_reap, tick}
use wei.Infer.Engine.Range.{IsMapped, AllInRange, sweep-AllInRange, reap_rows-AllInRange}
use wei.Perfreport.{
  VerdictName, smooth_name, degraded_name, ContributorName, none_name, snr_name, phy_rate_name,
  pkt_err_name, chan_util_name, verdict_name, contributor_name, Host, Report, Publisher,
  build_report, publish_tick,
}
use wei.Perfreport.Events.{publish_tick-IsAdded}
use wei.Wire.{Layout}
use wei.Wire.Range.{on_datagram-AllInRange}
use wei.Poll.{
  Ctx, Recv, datagram, interrupted, Pass, Loop, deliver, received_part, sock_drain, due, tick_if,
  start, poll_run,
}
use wei.Poll.Invariant.{run_passes-keeps}
use wei.System.{World, publish, wire_datagram, on_tick, calls}

abbrev pub is_named_name : ContributorName → Bool
is_named_name none_name = false
is_named_name snr_name = true
is_named_name phy_rate_name = true
is_named_name pkt_err_name = true
is_named_name chan_util_name = true

abbrev pub is_degraded_name : VerdictName → Bool
is_degraded_name smooth_name = false
is_degraded_name degraded_name = true

-- What the members of a report are made of, those that cJSON fails to add aside: percentages, numbers
-- of the sample within their C types, and a contributor that is named exactly if the verdict is
-- degraded.
pub record IsRanged (r : Report) : Type 0 where
  pub score : r.score ≤ 100
  pub pkt_err : r.pkt_err_pct ≤ 100
  pub chan_util : r.chan_util_pct ≤ 100
  pub phy : r.phy_rate_kbps < 2 ^ 32
  pub snr_low : negsuc (2 ^ 31 - 1) ≤ℤ r.snr_db
  pub snr_high : r.snr_db ≤ℤ pos (2 ^ 31 - 1)
  pub named : is_named_name r.dominant ≡ is_degraded_name r.verdict

abbrev pub AllRanged : List Report → Type 0
AllRanged [] = Unit {0}
AllRanged (r ∷ rs) = IsRanged r × AllRanged rs

module _ (host : Host) (mac : Mac) (out : Result) (rec : Metric) (p : Publisher) where
  build_report-IsRanged : IsSound out → IsMapped rec → IsRanged (build_report host mac out rec)
  unfolding build_report verdict_name contributor_name
  build_report-IsRanged sound m = record {
    score = sound.score;
    pkt_err = sound.loss;
    chan_util = m.util;
    phy = m.typed.phy;
    snr_low = m.typed.snr_low;
    snr_high = m.typed.snr_high;
    named = ground (arith, sound.named);
  }

  publish_tick-AllRanged :
      IsSound out
      → IsMapped rec
      → AllRanged p.events
      → AllRanged (publish_tick host p mac out rec).0.events
  publish_tick-AllRanged sound m w = elim (publish_tick-IsAdded host mac out rec p) [
    | inl same ↦ subst AllRanged (sym same) w
    | inr more ↦ subst AllRanged (sym more) (build_report-IsRanged sound m, w)
  ]

module _ {D : Type 0} (d : Double D) (laws : IsIeee d) (q : Sigmoid D) (s0 : IsSmall d q.b0)
    (s1 : IsSmall d q.b1) (l : Layout) (clock : ℕ → ℕ → ℤ) (host : ℕ → Mac → Host) where
  -- The rows and what was published.
  pub record IsRangedWorld (w : World D) : Type 0 where
    pub rows : AllInRange d laws w.engine.rows
    pub reports : AllRanged w.publisher.events

  abbrev pub IsRangedLoop : Loop (World D) → Type 0
  IsRangedLoop loop = IsRangedWorld loop.user

  deliver-IsRangedWorld :
      (m : List ℕ) (loop : Loop (World D))
      → IsRangedLoop loop
      → IsRangedLoop (deliver (calls d q l clock host) m loop)
  unfolding wire_datagram
  deliver-IsRangedWorld [] loop i = i
  deliver-IsRangedWorld (b ∷ bytes) loop i = record {
    rows =
        on_datagram-AllInRange d laws l (clock loop.user.turn) (b ∷ bytes) loop.user.engine i.rows;
    reports = i.reports;
  }

  sock_drain-IsRangedWorld :
      (rs : List Recv) (loop : Loop (World D))
      → IsRangedLoop loop
      → IsRangedLoop (sock_drain (calls d q l clock host) rs loop)
  unfolding sock_drain
  sock_drain-IsRangedWorld [] loop i = i
  sock_drain-IsRangedWorld (interrupted ∷ rs) loop i = sock_drain-IsRangedWorld rs loop i
  sock_drain-IsRangedWorld (datagram bytes ∷ rs) loop i =
      sock_drain-IsRangedWorld rs _ (deliver-IsRangedWorld (received_part bytes) loop i)

  on_tick-IsRangedWorld :
      (w : World D) → IsRangedWorld w → IsRangedWorld (on_tick d q l clock host w).0
  unfolding on_tick tick map_reap
  on_tick-IsRangedWorld w i =
      let now = clock w.turn 0 in
      let e = w.engine in
      let swept =
        sweep-AllInRange d laws q s0 s1 (λ (p : Publisher). AllRanged p.events)
          (publish d q l clock host w.turn)
          (λ mac out rec p sound m ranged.
            publish_tick-AllRanged (host w.turn mac) mac out rec p sound m ranged)
          e.rows e.policy e.tracker w.publisher now i.rows i.reports in
      record { rows = reap_rows-AllInRange d laws now _ _ swept.0; reports = swept.1 }

  module _ (path_max : ℕ) where
    tick_if-IsRangedWorld :
        (pass : Pass) (loop : Loop (World D))
        → IsRangedLoop loop
        → IsRangedLoop (tick_if path_max (calls d q l clock host) pass loop)
    unfolding due
    tick_if-IsRangedWorld pass loop i = elim (Bool-cases (leb loop.next_tick pass.after)) [
      | inl now_due ↦ rw now_due (on_tick-IsRangedWorld loop.user i)
      | inr early ↦ rw early i
    ]

    -- For sigmoid coefficients of at most 2^64 in magnitude, and from rows and published
    -- reports that are in range, as those of the daemon's start are: whatever bytes the
    -- datagrams have, and whatever ticks, clock readings and failures the passes of the loop
    -- meet, those of cJSON included: in every report on the bus, the members that cJSON has
    -- added have a score, a loss and a channel utilisation of at most 100, a rate and an SNR
    -- within their C types, and a contributor that is named exactly if the verdict is DEGRADED;
    -- and every client's state, sample and result are in range again.
    pub poll_run-IsRangedWorld :
        (now : ℕ) (passes : List Pass) (ctx : Ctx) (w : World D) (fds : List ℕ)
        → IsRangedWorld w
        → IsRangedWorld (poll_run path_max (calls d q l clock host) now passes ctx w fds).0.user
    unfolding poll_run
    poll_run-IsRangedWorld now passes ctx w fds i =
        run_passes-keeps path_max (calls d q l clock host) IsRangedLoop sock_drain-IsRangedWorld
          tick_if-IsRangedWorld passes (start now ctx w fds) i
