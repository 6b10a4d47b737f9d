-- ===== src/System/Publications.antt =====
-- How a property of the publisher passes from its calls to the runs of the loop.
use wei.Base.{
  ℕ, sym, ◌&&◌, Bool, true, false, List, [], ◌∷◌, if◌then◌else◌, Bool-cases, inl, inr, leb,
}
use mathlib.Core.Path.{subst}
use wei.Base.Int.{ℤ}
use wei.Base.Mac.{Mac}
use wei.Metric.{Metric, is_active, is_ok}
use wei.Double.{Double}
use wei.Scorer.{Sigmoid}
use wei.Infer.Types.{Result}
use wei.Infer.Engine.{Row, sweep, tick}
use wei.Infer.Engine.Sweep.{publish_all, sweep_publications}
use wei.Perfreport.{Host, Publisher, publish_tick}
use wei.Wire.{Layout}
use wei.Poll.{
  Ctx, Recv, datagram, interrupted, Pass, Loop, deliver, received_part, sock_drain, due, tick_if,
  start, poll_run,
}
use wei.Poll.Invariant.{run_passes-keeps}
use wei.System.{World, publish, wire_datagram, on_tick, calls}

module _ {D : Type 0} (d : Double D) (q : Sigmoid D) (l : Layout) (clock : ℕ → ℕ → ℤ)
    (host : ℕ → Mac → Host) (P : Publisher → Type 0)
    (step : (h : Host) (mac : Mac) (out : Result) (rec : Metric) (p : Publisher)
      → P p
      → P (publish_tick h p mac out rec).0) where
  pub publish_all-keeps :
      (turn : ℕ) (rs : List (Row D)) (p : Publisher)
      → P p
      → P (publish_all d q (publish d q l clock host turn) p rs)
  publish_all-keeps turn [] p w = w
  publish_all-keeps turn (r ∷ rs) p w =
      publish_all-keeps turn rs _
        (go (r.slot.in_use && is_active r.snapshot.activity_state && is_ok r.snapshot.status))
    where
      go :
          (b : Bool)
          → P (if b then publish d q l clock host turn r.slot.mac r.result r.snapshot p else p)
      go true = step (host turn r.slot.mac) r.slot.mac r.result r.snapshot p w
      go false = w

  on_tick-keeps : (w : World D) → P w.publisher → P (on_tick d q l clock host w).0.publisher
  unfolding on_tick tick
  on_tick-keeps w i =
      let out = publish d q l clock host w.turn in
      let e = w.engine in
      let now = clock w.turn 0 in
      let swept = (sweep d q out e.policy e.tracker w.publisher e.rows now).0 in
      subst P (sym (sweep_publications d q out e.rows e.policy e.tracker w.publisher now))
        (publish_all-keeps w.turn swept w.publisher i)

  abbrev HoldsIn : Loop (World D) → Type 0
  HoldsIn loop = P loop.user.publisher

  deliver-keeps :
      (m : List ℕ) (loop : Loop (World D))
      → HoldsIn loop
      → HoldsIn (deliver (calls d q l clock host) m loop)
  unfolding wire_datagram
  deliver-keeps [] loop i = i
  deliver-keeps (b ∷ bytes) loop i = i

  sock_drain-keeps :
      (rs : List Recv) (loop : Loop (World D))
      → HoldsIn loop
      → HoldsIn (sock_drain (calls d q l clock host) rs loop)
  unfolding sock_drain
  sock_drain-keeps [] loop i = i
  sock_drain-keeps (interrupted ∷ rs) loop i = sock_drain-keeps rs loop i
  sock_drain-keeps (datagram bytes ∷ rs) loop i =
      sock_drain-keeps rs _ (deliver-keeps (received_part bytes) loop i)

  tick_if-keeps :
      (path_max : ℕ) (pass : Pass) (loop : Loop (World D))
      → HoldsIn loop
      → HoldsIn (tick_if path_max (calls d q l clock host) pass loop)
  unfolding due
  tick_if-keeps path_max pass loop i = elim (Bool-cases (leb loop.next_tick pass.after)) [
    | inl now_due ↦ rw now_due (on_tick-keeps loop.user i)
    | inr early ↦ rw early i
  ]

  -- What every publication keeps of the publisher, the loop keeps.
  pub poll_run-keeps :
      (path_max now : ℕ) (passes : List Pass) (ctx : Ctx) (w : World D) (fds : List ℕ)
      → P w.publisher
      → P (poll_run path_max (calls d q l clock host) now passes ctx w fds).0.user.publisher
  unfolding poll_run
  poll_run-keeps path_max now passes ctx w fds i =
      run_passes-keeps path_max (calls d q l clock host) HoldsIn sock_drain-keeps
        (tick_if-keeps path_max) passes (start now ctx w fds) i
