-- ===== src/Life/Walk/Others.antt =====
-- What other threads do for other stations between the turns of the walk.
use wei.Base.{
  ℕ, ◌+◌, ◌-◌, ◌%◌, ◌^◌, ◌≡◌, ◌≢◌, refl, sym, ap, ◌∙◌, Bool, true, false, Option, none, some, arith,
  set, get_elem?, get_elem?-set_ne,
}
use mathlib.Core.Option.{some-injective}
use wei.Base.Mac.{Mac}
use wei.Metric.{Metric}
use wei.Slots.{find, free}
use wei.Slots.Scan.{find-some, free-some}
use wei.Life.{
  Ctx, Roster, Event, assoc, disassoc, conn_change, stations, is_taken, mac_of, attached,
  attach_station, detach_station, on_station_event, ingested, ingest_metric,
}

module _ (r : Roster) (k : ℕ) (ctx : Ctx) (at : get_elem? r.slots k ≡ some (some ctx)) where
  -- Another slot is written.
  set_other : (i : ℕ) (v : Option Ctx) → i ≢ k → get_elem? (set r.slots i v) k ≡ some (some ctx)
  set_other i v ne = get_elem?-set_ne r.slots i k v ne ∙ at

  -- The slot of another station, and a free slot, are other slots.
  found-ne : (mac : Mac) (i : ℕ) → mac ≢ ctx.mac → find stations r.slots mac ≡ some i → i ≢ k
  found-ne mac i other found same =
      let (slot, there, live, key, bound) = find-some stations r.slots mac i found in
      let slots_same : slot ≡ some ctx =
        some-injective _ _ (sym there ∙ ap (get_elem? r.slots) same ∙ at) in
      other (sym key ∙ ap mac_of slots_same)

  free-ne : (i : ℕ) → free stations r.slots ≡ some i → i ≢ k
  free-ne i unused same =
      let (slot, there, idle, bound) = free-some stations r.slots i unused in
      let slots_same : slot ≡ some ctx =
        some-injective _ _ (sym there ∙ ap (get_elem? r.slots) same ∙ at) in
      absurd (ground (arith, ap is_taken slots_same, idle))

  -- What is left of the slot and of the policy.
  abbrev pub Untouched : Roster → Type 0
  Untouched r' = (get_elem? r'.slots k ≡ some (some ctx)) × (r'.policy ≡ r.policy)

  attached-Untouched :
      (alloc : Bool) (mac : Mac) (o : Option ℕ)
      → free stations r.slots ≡ o
      → Untouched (attached alloc r mac o)
  attached-Untouched alloc mac none e = (at, refl)
  attached-Untouched false mac (some i) e = (at, refl)
  attached-Untouched true mac (some i) e = (set_other i _ (free-ne i e), refl)

  pub event-Untouched :
      (alloc : Bool) (e : Event) (mac : Mac)
      → mac ≢ ctx.mac
      → Untouched (on_station_event alloc r e mac)
  unfolding on_station_event attach_station detach_station
  event-Untouched alloc assoc mac other = go (find stations r.slots mac) refl
    where
      go :
          (o : Option ℕ)
          → find stations r.slots mac ≡ o
          → Untouched (elim o [ some i ↦ r | none ↦ attached alloc r mac (free stations r.slots) ])
      go none e = attached-Untouched alloc mac (free stations r.slots) refl
      go (some i) e = (at, refl)
  event-Untouched alloc disassoc mac other = go (find stations r.slots mac) refl
    where
      go :
          (o : Option ℕ)
          → find stations r.slots mac ≡ o
          → Untouched (elim o [
            | none ↦ r
            | some i ↦ record r {
              slots = set r.slots i none;
              active = (r.active + 2 ^ 32 - 1) % 2 ^ 32;
            }
          ])
      go none e = (at, refl)
      go (some i) e = (set_other i none (found-ne mac i other e), refl)
  event-Untouched alloc conn_change mac other = (at, refl)

  pub ingest-Untouched :
      (mac : Mac) (rec : Metric) → mac ≢ ctx.mac → Untouched (ingest_metric r mac rec)
  unfolding ingest_metric
  ingest-Untouched mac rec other = go (find stations r.slots mac) refl
    where
      go : (o : Option ℕ) → find stations r.slots mac ≡ o → Untouched (ingested r rec o)
      go none e = (at, refl)
      go (some i) e = (set_other i _ (found-ne mac i other e), refl)
