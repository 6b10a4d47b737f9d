-- ===== src/Life/Events.antt =====
-- The roster over the events of the stations.
use wei.Base.{
  ℕ, zero, suc, ◌+◌, ◌-◌, ◌%◌, ◌^◌, ◌≡◌, refl, ◌∙◌, Bool, true, false, Option, none, some, List, [],
  ◌∷◌, arith, length, length-set, set,
}
use wei.Base.Mac.{Mac}
use wei.Slots.{find, free, occupied}
use wei.Slots.Distinct.{
  Distinct, find-none-Absent, set_fresh-Distinct, occupied-set_fresh, occupied-le-length,
  set-Absent,
}
use wei.Track.{max_clients}
use wei.Life.{
  Ctx, Roster, Event, assoc, disassoc, conn_change, stations, new_ctx, attached, attach_station,
  on_station_event,
}

-- 64 slots, no station in two of them, and as many taken as `active` says.
pub record IsRoster (r : Roster) : Type 0 where
  pub capacity : length r.slots ≡ max_clients
  pub distinct : Distinct stations r.slots
  pub counted : r.active ≡ occupied stations r.slots

freed-Distinct :
    (slots : List (Option Ctx)) (i : ℕ)
    → Distinct stations slots
    → Distinct stations (set slots i none)
freed-Distinct [] i u = tt
freed-Distinct (x ∷ slots) zero u = (λ live. absurd (ground arith), u.1)
freed-Distinct (x ∷ slots) (suc i) u = (
  λ live. set-Absent stations slots _ i none (λ off. absurd (ground arith)) (u.0 live),
  freed-Distinct slots i u.1,
)

occupied-freed :
    (slots : List (Option Ctx)) (mac : Mac) (i : ℕ)
    → find stations slots mac ≡ some i
    → suc (occupied stations (set slots i none)) ≡ occupied stations slots
unfolding find occupied
occupied-freed [] mac i h = absurd (ground arith)
occupied-freed (x ∷ slots) mac zero h = ground arith
occupied-freed (x ∷ slots) mac (suc i) h = ground (arith, occupied-freed slots mac i)

attached-IsRoster :
    (alloc : Bool) (r : Roster) (mac : Mac) (o : Option ℕ)
    → find stations r.slots mac ≡ none
    → free stations r.slots ≡ o
    → IsRoster r
    → IsRoster (attached alloc r mac o)
attached-IsRoster alloc r mac none gone f w = w
attached-IsRoster false r mac (some i) gone f w = w
attached-IsRoster true r mac (some i) gone f w =
    let grown = occupied-set_fresh stations r.slots i (some (new_ctx mac)) f refl in
    let bound = occupied-le-length stations (set r.slots i (some (new_ctx mac))) in
    let size = length-set r.slots i (some (new_ctx mac)) ∙ w.capacity in
    record {
      capacity = size;
      distinct =
          set_fresh-Distinct stations r.slots i _ (find-none-Absent stations r.slots mac gone)
            w.distinct;
      counted = omega (arith, grown, bound, size, w.counted);
    }

-- Every event of a station keeps a well-formed roster well formed, with 64 slots, no station in
-- two of them, and as many taken as the active count says, whether or not memory is there for it.
pub on_station_event-IsRoster :
    (alloc : Bool) (r : Roster) (event : Event) (mac : Mac)
    → IsRoster r
    → IsRoster (on_station_event alloc r event mac)
unfolding on_station_event attach_station
on_station_event-IsRoster alloc r assoc mac w = go (find stations r.slots mac) refl
  where
    go :
        (o : Option ℕ)
        → find stations r.slots mac ≡ o
        → IsRoster (elim o [ some i ↦ r | none ↦ attached alloc r mac (free stations r.slots) ])
    go none e = attached-IsRoster alloc r mac (free stations r.slots) e refl w
    go (some i) e = w
on_station_event-IsRoster alloc r disassoc mac w = go (find stations r.slots mac) refl
  where
    go :
        (o : Option ℕ)
        → find stations r.slots mac ≡ o
        → IsRoster (elim o [
          | none ↦ r
          | some i ↦ record r {
            slots = set r.slots i none;
            active = (r.active + 2 ^ 32 - 1) % 2 ^ 32;
          }
        ])
    go none e = w
    go (some i) e = record {
      capacity = length-set r.slots i none ∙ w.capacity;
      distinct = freed-Distinct r.slots i w.distinct;
      counted = omega (
        arith,
        occupied-freed r.slots mac i e,
        w.counted,
        w.capacity,
        occupied-le-length stations r.slots,
      );
    }
on_station_event-IsRoster alloc r conn_change mac w = w
