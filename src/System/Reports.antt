-- ===== src/System/Reports.antt =====
-- What a tick of the daemon reports of one client, from the sweep of source/wei_infer.c through the
-- publisher of source/wei_perfreport.c.
use wei.Base.{
  ℕ, ◌-◌, ◌≡◌, refl, ap, ◌∙◌, Bool, ◌&&◌, Option, none, some, List, [], ◌∷◌, arith, if◌then◌else◌,
  Bool-cases, inl, inr,
}
use mathlib.Core.Path.{subst}
use wei.Base.Int.{ℤ}
use wei.Base.Mac.{Mac, same_mac, same_mac_eq, same_mac_iff}
use wei.Metric.{is_active, is_ok}
use wei.Double.{Double}
use wei.Scorer.{Sigmoid}
use wei.Slots
use wei.Slots.Distinct.{Absent, Distinct}
use wei.Infer.Engine.{Row, members, sweep, tick}
use wei.Infer.Engine.Sweep.{publish_all, sweep_publications, sweep-KeepsAll, KeepsAll-Distinct}
use wei.Perfreport.{ClientState, states, warmup_intervals, Host, Publisher}
use wei.Perfreport.Clients.{
  Call, Interval, interval_of, intervals, sent, onto, published, IsAllocating, AllAllocating,
  run_calls, run_calls-published,
}
use wei.Wire.{Layout}
use wei.System.{World, publish, on_tick}
use wei.System.Steady.{IsWorld}

module _ {D : Type 0} (host : Mac → Host) where
  -- The row is scored in the tick, and what it is published with.
  abbrev pub is_scored : Row D → Bool
  is_scored r = r.slot.in_use && is_active r.snapshot.activity_state && is_ok r.snapshot.status

  abbrev pub call_of : Row D → Call
  call_of r = record {
    host = host r.slot.mac;
    mac = r.slot.mac;
    result = r.result;
    metrics = r.snapshot;
  }

  abbrev pub calls_of : List (Row D) → List Call
  calls_of [] = []
  calls_of (r ∷ rs) = if is_scored r then call_of r ∷ calls_of rs else calls_of rs

  -- The interval that a tick gives to a client: one if the client is in the map and was scored.
  abbrev pub interval_in : Option (Row D) → List Interval
  interval_in none = []
  interval_in (some r) = if is_scored r then interval_of (call_of r) ∷ [] else []

  module _ (m : Mac) where
    Absent-intervals : (rs : List (Row D)) → Absent members m rs → intervals m (calls_of rs) ≡ []
    Absent-intervals [] a = refl
    Absent-intervals (r ∷ rs) a =
        ground (arith, a.0, same_mac_iff r.slot.mac m, Absent-intervals rs a.1)

    intervals-calls_of :
        (rs : List (Row D))
        → Distinct members rs
        → intervals m (calls_of rs) ≡ interval_in (Slots.lookup members rs m)
    unfolding Slots.lookup
    intervals-calls_of [] u = refl
    intervals-calls_of (r ∷ rs) u = elim (Bool-cases r.slot.in_use) [
      | inl on ↦ elim (Bool-cases (same_mac r.slot.mac m)) [
        | inl mine ↦
            let others =
              Absent-intervals rs (
                subst (λ (x : Mac). Absent members x rs) (same_mac_eq r.slot.mac m mine)
                  (u.0 on)) in
            ground (arith, on, mine, others)
        | inr other ↦ ground (arith, on, other, intervals-calls_of rs u.1)
      ]
      | inr off ↦ ground (arith, off, intervals-calls_of rs u.1)
    ]

  calls_of-AllAllocating :
      ((mac : Mac) → IsAllocating (host mac)) → (rs : List (Row D)) → AllAllocating (calls_of rs)
  calls_of-AllAllocating a [] = tt
  calls_of-AllAllocating a (r ∷ rs) = elim (Bool-cases (is_scored r)) [
    | inl scored ↦ rw scored (a r.slot.mac, calls_of-AllAllocating a rs)
    | inr gated ↦ rw gated (calls_of-AllAllocating a rs)
  ]

module _ {D : Type 0} (d : Double D) (q : Sigmoid D) (l : Layout) (clock : ℕ → ℕ → ℤ)
    (host : ℕ → Mac → Host) where
  publish_all-run_calls :
      (turn : ℕ) (rs : List (Row D)) (p : Publisher)
      → publish_all d q (publish d q l clock host turn) p rs ≡ run_calls (calls_of (host turn) rs) p
  unfolding run_calls
  publish_all-run_calls turn [] p = refl
  publish_all-run_calls turn (r ∷ rs) p = elim (Bool-cases (is_scored (host turn) r)) [
    | inl scored ↦ rw scored (publish_all-run_calls turn rs _)
    | inr gated ↦ rw gated (publish_all-run_calls turn rs p)
  ]

  -- The rows as the sweep of a tick leaves them, before the reap.
  abbrev pub swept : World D → List (Row D)
  swept w =
      (sweep d q (publish d q l clock host w.turn) w.engine.policy w.engine.tracker w.publisher
        w.engine.rows (clock w.turn 0)).0

  on_tick-run_calls :
      (w : World D)
      → (on_tick d q l clock host w).0.publisher
        ≡ run_calls (calls_of (host w.turn) (swept w)) w.publisher
  unfolding on_tick tick
  on_tick-run_calls w =
      sweep_publications d q (publish d q l clock host w.turn) w.engine.rows w.engine.policy
        w.engine.tracker w.publisher (clock w.turn 0)
      ∙ publish_all-run_calls w.turn (swept w) w.publisher

  -- In a tick of the daemon, from a well-formed engine and publisher, while memory is there and
  -- a larger buffer takes every document that a smaller one takes: a client that the publisher
  -- knows has one interval if the map holds it with an active sample that is OK, with the
  -- verdict that its flags leave, and none otherwise; and the reports of it on the bus grow by
  -- what that interval publishes, whichever other clients are scored in the same tick.
  pub on_tick-published :
      (w : World D) (m : Mac) (s : ClientState)
      → IsWorld d q l clock host w
      → ((mac : Mac) → IsAllocating (host w.turn mac))
      → Slots.lookup states w.publisher.tbl m ≡ some s
      → sent m (on_tick d q l clock host w).0.publisher.events
        ≡ onto m (sent m w.publisher.events) (
            published
              (warmup_intervals - s.warmup_ticks_seen)
              s.last_emitted_class
              (interval_in (host w.turn) (Slots.lookup members (swept w) m)))
  on_tick-published w m s i a known =
      let out = publish d q l clock host w.turn in
      let e = w.engine in
      let distinct =
        KeepsAll-Distinct d e.rows (swept w)
          (sweep-KeepsAll d q out e.rows e.policy e.tracker w.publisher (clock w.turn 0))
          i.members.distinct in
      ap (λ (p : Publisher). sent m p.events) (on_tick-run_calls w)
      ∙ run_calls-published m (calls_of (host w.turn) (swept w)) w.publisher s
          (calls_of-AllAllocating (host w.turn) a (swept w)) i.reports known
      ∙ ap
          (λ is.
            onto m (sent m w.publisher.events)
              (published (warmup_intervals - s.warmup_ticks_seen) s.last_emitted_class is))
          (intervals-calls_of (host w.turn) m (swept w) distinct)
