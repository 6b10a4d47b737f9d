-- ===== src/Infer/Engine/Reap.antt =====
-- Departed clients leave the map.
use wei.Base.{
  ℕ, suc, ◌+◌, ◌-◌, ◌≤◌, ◌≡◌, refl, ap, ◌∙◌, true, false, Option, none, some, List, [], map, ◌∷◌,
  arith, if◌then◌else◌, length, Bool-cases, inl, inr,
}
use wei.Base.Int.{ℤ, ◌-ℤ◌, ltb_ℤ}
use wei.Base.Mac.{Mac, same_mac_iff}
use wei.Double.{Double}
use wei.Slots
use wei.Slots.{occupied}
use wei.Slots.Distinct.{Absent, Distinct}
use wei.Slots.Lookup.{lookup_of_Absent}
use wei.Track.{absence_default_ms}
use wei.Infer.Engine.{Row, Engine, members, is_absent, released, reap_rows, map_reap}
use wei.Infer.Engine.Membership.{IsMap, IsClean, AllClean}

module _ {D : Type 0} (d : Double D) (now : ℤ) where
  -- What the loop makes of one row.
  reaped : Row D → Row D
  reaped r = if is_absent now r then released d r else r

  reap_rows-map :
      (rows : List (Row D)) (count : ℕ) → (reap_rows d now rows count).0 ≡ map reaped rows
  unfolding reap_rows reaped
  reap_rows-map [] count = refl
  reap_rows-map (r ∷ rows) count = ap (◌∷◌ (reaped r)) (reap_rows-map rows _)

  length-reaped : (rows : List (Row D)) → length (map reaped rows) ≡ length rows
  length-reaped [] = refl
  length-reaped (r ∷ rows) = ap suc (length-reaped rows)

  reaped_key :
      (r : Row D) → (reaped r).slot.in_use ≡ true → (is_absent now r ≡ false) × (reaped r ≡ r)
  unfolding reaped
  reaped_key r h = elim (Bool-cases (is_absent now r)) [
    | inl gone ↦ absurd (ground arith)
    | inr here ↦ (here, rw here)
  ]

  reaped-Absent :
      (rows : List (Row D)) (mac : Mac)
      → Absent members mac rows
      → Absent members mac (map reaped rows)
  reaped-Absent [] mac a = tt
  reaped-Absent (r ∷ rows) mac a = (
    λ live. let e = (reaped_key r live).1 in rw e (a.0 (rw e at live)),
    reaped-Absent rows mac a.1,
  )

  reaped-Distinct :
      (rows : List (Row D)) → Distinct members rows → Distinct members (map reaped rows)
  reaped-Distinct [] u = tt
  reaped-Distinct (r ∷ rows) u = (
    λ live. let e = (reaped_key r live).1 in rw e (reaped-Absent rows _ (u.0 (rw e at live))),
    reaped-Distinct rows u.1,
  )

  reaped-IsClean : (r : Row D) → IsClean d r → IsClean d (reaped r)
  unfolding reaped
  reaped-IsClean r c = elim (Bool-cases (is_absent now r)) [
    | inl gone ↦ rw gone (λ off. (refl, refl))
    | inr here ↦ rw here c
  ]

  reaped-AllClean : (rows : List (Row D)) → AllClean d rows → AllClean d (map reaped rows)
  reaped-AllClean [] c = tt
  reaped-AllClean (r ∷ rows) c = (reaped-IsClean r c.0, reaped-AllClean rows c.1)

  -- The count falls by the slots that are freed.
  reap_rows_count :
      (rows : List (Row D)) (count : ℕ)
      → occupied members rows ≤ count
      → (reap_rows d now rows count).1 + occupied members rows
        ≡ count + occupied members (map reaped rows)
  unfolding reap_rows occupied reaped
  reap_rows_count [] count h = refl
  reap_rows_count (r ∷ rows) count h =
      ground (arith, reap_rows_count rows count, reap_rows_count rows (count - 1))

  -- `wei_infer_map_reap` keeps the map well formed, its count included.
  pub map_reap-IsMap :
      (eng : Engine D)
      → IsMap d eng.rows eng.count
      → let eng' = map_reap d eng now in IsMap d eng'.rows eng'.count
  unfolding map_reap
  map_reap-IsMap eng m = rw (reap_rows-map eng.rows eng.count) (record {
    capacity = length-reaped eng.rows ∙ m.capacity;
    distinct = reaped-Distinct eng.rows m.distinct;
    counted = omega (arith, m.counted, reap_rows_count eng.rows eng.count);
    clean = reaped-AllClean eng.rows m.clean;
  })

  -- Who stays: a client seen within the absence window.
  abbrev pub kept : Option (Row D) → Option (Row D)
  kept none = none
  kept (some r) = if ltb_ℤ absence_default_ms (now -ℤ r.slot.last_seen) then none else some r

  lookup-reaped :
      (rows : List (Row D)) (mac : Mac)
      → Distinct members rows
      → Slots.lookup members (map reaped rows) mac ≡ kept (Slots.lookup members rows mac)
  unfolding Slots.lookup reaped
  lookup-reaped [] mac u = refl
  lookup-reaped (r ∷ rows) mac u = ground (
    arith,
    lookup-reaped rows mac u.1,
    same_mac_iff r.slot.mac mac,
    λ (live : r.slot.in_use ≡ true). lookup_of_Absent members rows r.slot.mac (u.0 live),
  )

  -- From a well-formed map, `wei_infer_map_reap` removes exactly the clients unseen for more than
  -- 30 s, and keeps the slots, records, results and ledgers of the others as they are.
  pub lookup-map_reap :
      (eng : Engine D) (mac : Mac)
      → IsMap d eng.rows eng.count
      → Slots.lookup members (map_reap d eng now).rows mac
        ≡ kept (Slots.lookup members eng.rows mac)
  unfolding map_reap
  lookup-map_reap eng mac m =
      rw (reap_rows-map eng.rows eng.count) (lookup-reaped eng.rows mac m.distinct)
