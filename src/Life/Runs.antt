-- ===== src/Life/Runs.antt =====
-- The roster of source/wei_life.c over events, samples and intervals in any order.
use wei.Base.{
  ℕ, zero, suc, ◌+◌, ◌≡◌, refl, ◌∙◌, sym, ap, Bool, Option, none, some, List, [], ◌∷◌, arith,
  length, replicate,
}
use wei.Base.Int.{ℤ}
use wei.Base.Mac.{Mac}
use wei.Metric.{Metric}
use wei.Double.{Double}
use wei.Scorer.{Sigmoid}
use wei.Slots.{occupied}
use wei.Slots.Distinct.{Absent, Distinct}
use wei.Track.{max_clients}
use wei.Life.{
  Ctx, Roster, Policy, Event, stations, init, on_station_event, ingest_metric, eval_ctx, eval_slots,
  eval_station,
}
use wei.Life.Events.{IsRoster, on_station_event-IsRoster}
use wei.Life.Ingest.{ingest_metric-IsRoster}

module _ {D : Type 0} (d : Double D) (q : Sigmoid D) where
  eval_slots-length :
      (policy : Policy) (now : ℤ) (slots : List (Option Ctx))
      → length (eval_slots d q policy now slots).0 ≡ length slots
  unfolding eval_slots
  eval_slots-length policy now [] = refl
  eval_slots-length policy now (none ∷ slots) = ap suc (eval_slots-length policy now slots)
  eval_slots-length policy now (some ctx ∷ slots) = ap suc (eval_slots-length policy now slots)

  eval_slots-occupied :
      (policy : Policy) (now : ℤ) (slots : List (Option Ctx))
      → occupied stations (eval_slots d q policy now slots).0 ≡ occupied stations slots
  unfolding eval_slots occupied
  eval_slots-occupied policy now [] = refl
  eval_slots-occupied policy now (none ∷ slots) =
      ap (λ n. 0 + n) (eval_slots-occupied policy now slots)
  eval_slots-occupied policy now (some ctx ∷ slots) =
      ap (λ n. 1 + n) (eval_slots-occupied policy now slots)

  eval_slots-Absent :
      (policy : Policy) (now : ℤ) (slots : List (Option Ctx)) (mac : Mac)
      → Absent stations mac slots
      → Absent stations mac (eval_slots d q policy now slots).0
  unfolding eval_slots eval_ctx
  eval_slots-Absent policy now [] mac a = tt
  eval_slots-Absent policy now (none ∷ slots) mac a =
      ((λ off. absurd (ground arith)), eval_slots-Absent policy now slots mac a.1)
  eval_slots-Absent policy now (some ctx ∷ slots) mac a =
      (a.0, eval_slots-Absent policy now slots mac a.1)

  eval_slots-Distinct :
      (policy : Policy) (now : ℤ) (slots : List (Option Ctx))
      → Distinct stations slots
      → Distinct stations (eval_slots d q policy now slots).0
  unfolding eval_slots eval_ctx
  eval_slots-Distinct policy now [] u = tt
  eval_slots-Distinct policy now (none ∷ slots) u =
      ((λ off. absurd (ground arith)), eval_slots-Distinct policy now slots u.1)
  eval_slots-Distinct policy now (some ctx ∷ slots) u = (
    (λ live. eval_slots-Absent policy now slots ctx.mac (u.0 refl)),
    eval_slots-Distinct policy now slots u.1,
  )

  eval_station-IsRoster : (r : Roster) (now : ℤ) → IsRoster r → IsRoster (eval_station d q r now).0
  unfolding eval_station
  eval_station-IsRoster r now w = record {
    capacity = eval_slots-length r.policy now r.slots ∙ w.capacity;
    distinct = eval_slots-Distinct r.policy now r.slots w.distinct;
    counted = w.counted ∙ sym (eval_slots-occupied r.policy now r.slots);
  }

  -- One step of the roster: an event, with whether memory is there, a sample, or an interval.
  pub data Step (r : Roster) : Roster → Type 0 where
    event : (alloc : Bool) (e : Event) (mac : Mac) → Step r (on_station_event alloc r e mac)
    sample : (mac : Mac) (rec : Metric) → Step r (ingest_metric r mac rec)
    interval : (now : ℤ) → Step r (eval_station d q r now).0

  pub data Reach (r : Roster) : Roster → Type 0 where
    here : Reach r r
    next : {r' r'' : Roster} → Reach r r' → Step r' r'' → Reach r r''

  Step-IsRoster : {r r' : Roster} → Step r r' → IsRoster r → IsRoster r'
  Step-IsRoster {r = r} (event alloc e mac) w = on_station_event-IsRoster alloc r e mac w
  Step-IsRoster {r = r} (sample mac rec) w = ingest_metric-IsRoster r mac rec w
  Step-IsRoster {r = r} (interval now) w = eval_station-IsRoster r now w

  none-Distinct : (n : ℕ) → Distinct stations (replicate n none)
  none-Distinct zero = tt
  none-Distinct (suc n) = ((λ live. absurd (ground arith)), none-Distinct n)

  none-occupied : (n : ℕ) → 0 ≡ occupied stations (replicate n none)
  unfolding occupied
  none-occupied zero = refl
  none-occupied (suc n) = omega (arith, none-occupied n)

  init-IsRoster : (policy : Option Policy) → IsRoster (init policy)
  unfolding init
  init-IsRoster none = record {
    capacity = refl;
    distinct = none-Distinct max_clients;
    counted = none-occupied max_clients;
  }
  init-IsRoster (some policy) = record {
    capacity = refl;
    distinct = none-Distinct max_clients;
    counted = none-occupied max_clients;
  }

  Reach-keeps : {r r' : Roster} → Reach r r' → IsRoster r → IsRoster r'
  Reach-keeps here w = w
  Reach-keeps (next before s) w = Step-IsRoster s (Reach-keeps before w)

  -- Every roster that is reached from the initial one by events of stations, samples and intervals,
  -- in any order and whether or not memory is there, has 64 slots, no station in two of them, and
  -- as many taken as the active count says.
  pub Reach-IsRoster : (policy : Option Policy) (r : Roster) → Reach (init policy) r → IsRoster r
  Reach-IsRoster policy r path = Reach-keeps path (init-IsRoster policy)
