-- ===== src/System/Steady.antt =====
-- The state of the engine and of the publisher over the life of the loop, and the loop at the period
-- of source/weid_wire.c.
use wei.Base.{ℕ, ◌≡◌, sym, true, some, List, [], ◌∷◌, arith, leb, length, Bool-cases, inl, inr}
use mathlib.Core.Path.{subst}
use mathlib.Core.Option.{some-injective}
use wei.Base.Int.{ℤ}
use wei.Base.Mac.{Mac}
use wei.Double.{Double}
use wei.Scorer.{Sigmoid}
use wei.Slots.Distinct.{Distinct}
use wei.Track.{entries}
use wei.Infer.Engine.{sweep, tick}
use wei.Infer.Engine.Membership.{IsMap}
use wei.Infer.Engine.Sweep.{sweep_publications, tick-IsMap}
use wei.Perfreport.{Host}
use wei.Perfreport.Table.{IsPublisher, publish_tick-IsPublisher}
use wei.Wire.{Layout}
use wei.Wire.Frame.{on_datagram-IsMap, on_datagram-tracker}
use wei.Poll.{
  Ctx, Recv, datagram, interrupted, Pass, Loop, deliver, received_part, sock_drain, due, tick_if,
  start, poll_run,
}
use wei.Poll.Invariant.{run_passes-keeps}
use wei.Poll.Live.{AllLe, IsIdle, poll_run_live}
use wei.System.Publications.{publish_all-keeps}
use wei.System.{World, publish, wire_datagram, on_tick, calls}

module _ {D : Type 0} (d : Double D) (q : Sigmoid D) (l : Layout) (clock : ℕ → ℕ → ℤ)
    (host : ℕ → Mac → Host) where
  pub record IsWorld (w : World D) : Type 0 where
    pub members : IsMap d w.engine.rows w.engine.count
    pub tracker : Distinct entries w.engine.tracker
    pub reports : IsPublisher w.publisher

  wire_datagram-IsWorld :
      (bytes : List ℕ) (w : World D)
      → IsWorld w
      → IsWorld (wire_datagram d q l clock host bytes w).0
  unfolding wire_datagram
  wire_datagram-IsWorld bytes w i = record {
    members = on_datagram-IsMap d l (clock w.turn) bytes w.engine i.members;
    tracker = rw (on_datagram-tracker d l (clock w.turn) bytes w.engine) i.tracker;
    reports = i.reports;
  }

  on_tick-IsWorld : (w : World D) → IsWorld w → IsWorld (on_tick d q l clock host w).0
  unfolding on_tick tick
  on_tick-IsWorld w i =
      let out = publish d q l clock host w.turn in
      let now = clock w.turn 0 in
      let e = w.engine in
      let swept = (sweep d q out e.policy e.tracker w.publisher e.rows now).0 in
      let kept = tick-IsMap d q out e w.publisher now i.members i.tracker in
      record {
        members = kept.0;
        tracker = kept.1;
        reports =
            subst IsPublisher
              (sym (sweep_publications d q out e.rows e.policy e.tracker w.publisher now))
              (publish_all-keeps d q l clock host IsPublisher
                (λ h mac out rec p kept. publish_tick-IsPublisher h mac out rec p kept) w.turn swept
                w.publisher i.reports);
      }

  abbrev pub IsSteady : Loop (World D) → Type 0
  IsSteady loop = IsWorld loop.user

  deliver-IsSteady :
      (m : List ℕ) (loop : Loop (World D))
      → IsSteady loop
      → IsSteady (deliver (calls d q l clock host) m loop)
  deliver-IsSteady [] loop i = i
  deliver-IsSteady (b ∷ bytes) loop i = wire_datagram-IsWorld (b ∷ bytes) loop.user i

  sock_drain-IsSteady :
      (rs : List Recv) (loop : Loop (World D))
      → IsSteady loop
      → IsSteady (sock_drain (calls d q l clock host) rs loop)
  unfolding sock_drain
  sock_drain-IsSteady [] loop i = i
  sock_drain-IsSteady (interrupted ∷ rs) loop i = sock_drain-IsSteady rs loop i
  sock_drain-IsSteady (datagram bytes ∷ rs) loop i =
      sock_drain-IsSteady rs _ (deliver-IsSteady (received_part bytes) loop i)

  module _ (path_max : ℕ) where
    tick_if-IsSteady :
        (pass : Pass) (loop : Loop (World D))
        → IsSteady loop
        → IsSteady (tick_if path_max (calls d q l clock host) pass loop)
    unfolding due
    tick_if-IsSteady pass loop i = elim (Bool-cases (leb loop.next_tick pass.after)) [
      | inl now_due ↦ rw now_due (on_tick-IsWorld loop.user i)
      | inr early ↦ rw early i
    ]

    -- From a well-formed engine and publisher, whatever datagrams, ticks, clock readings,
    -- allocation, bus and socket failures the passes of the daemon's loop meet: after them the
    -- membership map is well formed, no two live entries of the excursion table share an address,
    -- and the publisher has 64 slots, no two live ones with one address, and a report buffer that
    -- is NULL or has 512, 1024 or 2048 bytes.
    pub poll_run-IsWorld :
        (now : ℕ) (passes : List Pass) (ctx : Ctx) (w : World D) (fds : List ℕ)
        → IsWorld w
        → IsWorld (poll_run path_max (calls d q l clock host) now passes ctx w fds).0.user
    unfolding poll_run
    poll_run-IsWorld now passes ctx w fds i =
        run_passes-keeps path_max (calls d q l clock host) IsSteady sock_drain-IsSteady
          tick_if-IsSteady passes (start now ctx w fds) i

    -- Neither callback asks for a period.
    asks :
        {f : World D → World D × List ℕ}
        → on_tick d q l clock host ≡ f
        → (user : World D) → AllLe 5000 (f user).1
    unfolding on_tick
    asks same user = subst (λ g. AllLe 5000 (g user).1) same tt

    -- The daemon's loop at its period of 5 s, whatever its callbacks meet: over passes in which the
    -- clock does not go back and poll returns without an event, after its timeout, the loop does
    -- not return and ticks once in every pass.
    pub daemon_live :
        (now : ℕ) (passes : List Pass) (fd : ℕ) (path : List ℕ) (w : World D)
        → let ctx : Ctx = record { fd = some fd; tick_ms = 5000; sock_path = path } in
          IsIdle path_max (calls d q l clock host) now (start now ctx w (fd ∷ [])) passes
          → let (loop, on) =
              poll_run path_max (calls d q l clock host) now passes ctx w (fd ∷ []) in
            (on ≡ true) × (length loop.ticks ≡ length passes)
    daemon_live now passes fd path w idle =
        let ctx : Ctx = record { fd = some fd; tick_ms = 5000; sock_path = path } in
        poll_run_live path_max (calls d q l clock host) 5000 now passes ctx w (fd ∷ [])
          (omega arith) (λ f user given. asks (some-injective _ _ given) user) (omega arith) idle
