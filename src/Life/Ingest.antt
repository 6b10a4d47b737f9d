-- ===== src/Life/Ingest.antt =====
-- A sample that source/wei_life.c ingests, and what the roster then holds.
use wei.Base.{
  ℕ, ◌≡◌, refl, ◌∙◌, sym, ap, true, Option, none, some, arith, if◌then◌else◌, length-set, set,
  get_elem?, get_or-get_elem?, Bool-cases, inl, inr,
}
use mathlib.Core.Path.{subst}
use wei.Base.Mac.{Mac, same_mac, same_mac_eq}
use wei.Metric.{Metric}
use wei.Slots.{find, lookup}
use wei.Slots.Scan.{find-some}
use wei.Slots.Lookup.{lookup-set_known, lookup_of_find, lookup_of_Absent}
use wei.Slots.Distinct.{set_same-Distinct, occupied-set_same, find-none-Absent}
use wei.Life.{Ctx, Roster, stations, is_taken, mac_of, with_sample, ingested, ingest_metric}
use wei.Life.Events.{IsRoster}

module _ (r : Roster) (mac : Mac) (rec : Metric) where
  -- The station's context, as the roster holds it.
  record Held (i : ℕ) : Type 0 where
    pub ctx : Ctx
    pub at : get_elem? r.slots i ≡ some (some ctx)
    pub same : ctx.mac ≡ mac

  held_at :
      (i : ℕ) (slot : Option Ctx)
      → get_elem? r.slots i ≡ some slot
      → is_taken slot ≡ true
      → mac_of slot ≡ mac
      → Held i
  held_at i none at live same = absurd (ground arith)
  held_at i (some ctx) at live same = record { ctx = ctx; at = at; same = same }

  held : (i : ℕ) → find stations r.slots mac ≡ some i → Held i
  held i found =
      let (slot, at, live, same, bound) = find-some stations r.slots mac i found in
      held_at i slot at live same

  -- The write is of the station's own context.
  written :
      (i : ℕ) (h : Held i)
      → ingested r rec (some i)
        ≡ record r { slots = set r.slots i (some (record h.ctx { sample = rec })) }
  written i h =
      ap (λ slot. record r { slots = set r.slots i (with_sample rec slot) })
        (get_or-get_elem? r.slots i (some h.ctx) none h.at)

  ingested-IsRoster :
      (o : Option ℕ) → find stations r.slots mac ≡ o → IsRoster r → IsRoster (ingested r rec o)
  ingested-IsRoster none e w = w
  ingested-IsRoster (some i) e w =
      let h = held i e in
      let slot : Option Ctx = some (record h.ctx { sample = rec }) in
      subst IsRoster (sym (written i h)) (record {
        capacity = length-set r.slots i slot ∙ w.capacity;
        distinct =
            set_same-Distinct stations r.slots i (some h.ctx) slot h.at (λ live. (refl, refl))
              w.distinct;
        counted =
            w.counted ∙ sym (occupied-set_same stations r.slots i (some h.ctx) slot h.at refl);
      })

  pub ingest_metric-IsRoster : IsRoster r → IsRoster (ingest_metric r mac rec)
  unfolding ingest_metric
  ingest_metric-IsRoster w = ingested-IsRoster (find stations r.slots mac) refl w

  abbrev pub sampled : Option (Option Ctx) → Option (Option Ctx)
  sampled none = none
  sampled (some slot) = some (with_sample rec slot)

  lookup-ingested :
      (o : Option ℕ)
      → find stations r.slots mac ≡ o
      → (m : Mac)
      → lookup stations (ingested r rec o).slots m ≡ (
          if same_mac mac m
          then sampled (lookup stations r.slots mac)
          else lookup stations r.slots m)
  lookup-ingested none e m =
      let missing =
        lookup_of_Absent stations r.slots mac (find-none-Absent stations r.slots mac e) in
      elim (Bool-cases (same_mac mac m)) [
        | inl same ↦ rw same (
            ap (lookup stations r.slots) (sym (same_mac_eq mac m same))
            ∙ missing
            ∙ ap sampled (sym missing))
        | inr other ↦ rw other refl
      ]
  lookup-ingested (some i) e m =
      let h = held i e in
      let slot : Option Ctx = some (record h.ctx { sample = rec }) in
      let before = lookup_of_find stations r.slots mac i (some h.ctx) e h.at in
      ap (λ (x : Roster). lookup stations x.slots m) (written i h)
      ∙ lookup-set_known stations r.slots i slot m (ap (find stations r.slots) h.same ∙ e) refl
      ∙ ap (λ k. if same_mac k m then some slot else lookup stations r.slots m) h.same
      ∙ ap (λ o. if same_mac mac m then sampled o else lookup stations r.slots m) (sym before)

  pub lookup-ingest_metric :
      (m : Mac)
      → lookup stations (ingest_metric r mac rec).slots m ≡ (
          if same_mac mac m
          then sampled (lookup stations r.slots mac)
          else lookup stations r.slots m)
  unfolding ingest_metric
  lookup-ingest_metric m = lookup-ingested (find stations r.slots mac) refl m
