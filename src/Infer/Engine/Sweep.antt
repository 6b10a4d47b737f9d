-- ===== src/Infer/Engine/Sweep.antt =====
-- The sweep over the map, and the tick as a whole.
use wei.Base.{
  ℕ, suc, ◌≡◌, refl, sym, ap, ◌∙◌, true, false, ◌&&◌, Option, none, some, List, [], ◌∷◌, arith,
  if◌then◌else◌, length, Bool-cases, Option-cases, inl, inr,
}
use wei.Base.Int.{ℤ}
use wei.Base.Mac.{Mac}
use wei.Metric.{Metric, is_active, is_ok}
use wei.Double.{Double}
use wei.Scorer.{Sigmoid}
use wei.Slots.{occupied}
use wei.Slots.Distinct.{Absent, Distinct}
use wei.Track
use wei.Track.{Table, entries, absence_default_ms}
use wei.Track.Table.{reap-Distinct}
use wei.Infer.Types.{Client, Policy, Result}
use wei.Infer.Score.{score_client}
use wei.Infer.Flags.Tracker.{flag_instability-Distinct}
use wei.Infer.Engine.{Row, Engine, members, judge, score_row, sweep_row, sweep, tick}
use wei.Infer.Engine.Membership.{IsMap, AllClean}
use wei.Infer.Engine.Reap.{map_reap-IsMap}

module _ {D : Type 0} (d : Double D) where
  -- Scoring leaves a row's membership and its record alone, and a row not in use as it is.
  pub record Keeps (r r' : Row D) : Type 0 where
    pub mac : r'.slot.mac ≡ r.slot.mac
    pub in_use : r'.slot.in_use ≡ r.slot.in_use
    pub last_seen : r'.slot.last_seen ≡ r.slot.last_seen
    pub snapshot : r'.snapshot ≡ r.snapshot
    pub idle : r.slot.in_use ≡ false → r' ≡ r

  Keeps-refl : (r : Row D) → Keeps r r
  Keeps-refl r = record {
    mac = refl;
    in_use = refl;
    last_seen = refl;
    snapshot = refl;
    idle = λ off. refl;
  }

  abbrev pub KeepsAll : List (Row D) → List (Row D) → Type 0
  KeepsAll [] [] = Unit {0}
  KeepsAll [] (r ∷ rs) = ⊥
  KeepsAll (r ∷ rs) [] = ⊥
  KeepsAll (r ∷ rs) (r' ∷ rs') = Keeps r r' × KeepsAll rs rs'

  KeepsAll-Absent :
      (rs rs' : List (Row D)) (mac : Mac)
      → KeepsAll rs rs'
      → Absent members mac rs
      → Absent members mac rs'
  KeepsAll-Absent [] [] mac k a = tt
  KeepsAll-Absent [] (r ∷ rs) mac k a = absurd k
  KeepsAll-Absent (r ∷ rs) [] mac k a = absurd k
  KeepsAll-Absent (r ∷ rs) (r' ∷ rs') mac k a =
      (rw (k.0.mac, k.0.in_use) a.0, KeepsAll-Absent rs rs' mac k.1 a.1)

  pub KeepsAll-Distinct :
      (rs rs' : List (Row D)) → KeepsAll rs rs' → Distinct members rs → Distinct members rs'
  KeepsAll-Distinct [] [] k u = tt
  KeepsAll-Distinct [] (r ∷ rs) k u = absurd k
  KeepsAll-Distinct (r ∷ rs) [] k u = absurd k
  KeepsAll-Distinct (r ∷ rs) (r' ∷ rs') k u = (
    rw (k.0.mac, k.0.in_use) (λ live. KeepsAll-Absent rs rs' _ k.1 (u.0 live)),
    KeepsAll-Distinct rs rs' k.1 u.1,
  )

  KeepsAll-occupied :
      (rs rs' : List (Row D)) → KeepsAll rs rs' → occupied members rs' ≡ occupied members rs
  unfolding occupied
  KeepsAll-occupied [] [] k = refl
  KeepsAll-occupied [] (r ∷ rs) k = absurd k
  KeepsAll-occupied (r ∷ rs) [] k = absurd k
  KeepsAll-occupied (r ∷ rs) (r' ∷ rs') k = rw (k.0.in_use, KeepsAll-occupied rs rs' k.1)

  KeepsAll-length : (rs rs' : List (Row D)) → KeepsAll rs rs' → length rs' ≡ length rs
  KeepsAll-length [] [] k = refl
  KeepsAll-length [] (r ∷ rs) k = absurd k
  KeepsAll-length (r ∷ rs) [] k = absurd k
  KeepsAll-length (r ∷ rs) (r' ∷ rs') k = ap suc (KeepsAll-length rs rs' k.1)

  KeepsAll-AllClean : (rs rs' : List (Row D)) → KeepsAll rs rs' → AllClean d rs → AllClean d rs'
  KeepsAll-AllClean [] [] k c = tt
  KeepsAll-AllClean [] (r ∷ rs) k c = absurd k
  KeepsAll-AllClean (r ∷ rs) [] k c = absurd k
  KeepsAll-AllClean (r ∷ rs) (r' ∷ rs') k c = (
    λ off. let idle = sym k.0.in_use ∙ off in rw (k.0.idle idle) (c.0 idle),
    KeepsAll-AllClean rs rs' k.1 c.1,
  )

  KeepsAll-IsMap :
      (rs rs' : List (Row D)) (count : ℕ) → KeepsAll rs rs' → IsMap d rs count → IsMap d rs' count
  KeepsAll-IsMap rs rs' count k m = record {
    capacity = KeepsAll-length rs rs' k ∙ m.capacity;
    distinct = KeepsAll-Distinct rs rs' k m.distinct;
    counted = m.counted ∙ sym (KeepsAll-occupied rs rs' k);
    clean = KeepsAll-AllClean rs rs' k m.clean;
  }

  module _ (q : Sigmoid D) where
    judge-Keeps :
        (policy : Policy) (t : Table) (r : Row D) (st : Client D) (out : Result) (now : ℤ)
        → r.slot.in_use ≡ true
        → Keeps r (judge d q policy t r st out now).1
    unfolding judge
    judge-Keeps policy t r st out now on = record {
      mac = refl;
      in_use = refl;
      last_seen = refl;
      snapshot = refl;
      idle = λ off. absurd (ground (arith, on, off));
    }

    score_row-some :
        (policy : Policy) (t : Table) (r : Row D) (now : ℤ) (x : Table × Row D)
        → score_row d q policy t r now ≡ some x
        → (r.slot.in_use ≡ true)
          × ((y : Client D × Result) × (score_client d q r.slot.state r.snapshot ≡ some y)
              × (x ≡ judge d q policy t r y.0 y.1 now))
    unfolding score_row
    score_row-some policy t r now x h = elim (Bool-cases r.slot.in_use) [
      | inl on ↦ elim (Option-cases (score_client d q r.slot.state r.snapshot)) [
        | inl gated ↦ absurd (ground (arith, on, gated, h))
        | inr (y, e) ↦ (on, (y, e, ground (arith, on, e, h)))
      ]
      | inr off ↦ absurd (ground (arith, off, h))
    ]

    module _ {W : Type 0} (publish : Mac → Result → Metric → W → W) where
      module _ (policy : Policy) (t : Table) (w : W) (r : Row D) (now : ℤ) where
        -- The two ends of the body of the sweep.
        pub row_cases {ℓ} :
            (P : Row D × Table × W → Type ℓ)
            → P (r, t, w)
            → ((st : Client D) (out : Result)
                → r.slot.in_use ≡ true
                → score_client d q r.slot.state r.snapshot ≡ some (st, out)
                → let (t', r') = judge d q policy t r st out now in
                  P (r', t', publish r'.slot.mac r'.result r'.snapshot w))
            → P (sweep_row d q publish policy t w r now)
        unfolding sweep_row
        row_cases P idle judged = go (score_row d q policy t r now) refl
          where
            go :
                (o : Option (Table × Row D))
                → score_row d q policy t r now ≡ o
                → P (elim o [
                  | none ↦ (r, t, w)
                  | some (t', r') ↦ (r', t', publish r'.slot.mac r'.result r'.snapshot w)
                ])
            go none e = idle
            go (some x) e =
                let (on, found) = score_row-some policy t r now x e in
                rw found.2 (judged found.0.0 found.0.1 on found.1)

        sweep_row-Keeps : Keeps r (sweep_row d q publish policy t w r now).0
        sweep_row-Keeps =
            row_cases (λ x. Keeps r x.0) (Keeps-refl r)
              (λ st out on scored. judge-Keeps policy t r st out now on)

        sweep_row-Distinct :
            Distinct entries t → Distinct entries (sweep_row d q publish policy t w r now).1
        unfolding judge
        sweep_row-Distinct u =
            row_cases (λ x. Distinct entries x.1) u
              (λ st out on scored. flag_instability-Distinct d policy t _ now out u)

      pub sweep-KeepsAll :
          (rs : List (Row D)) (policy : Policy) (t : Table) (w : W) (now : ℤ)
          → KeepsAll rs (sweep d q publish policy t w rs now).0
      unfolding sweep
      sweep-KeepsAll [] policy t w now = tt
      sweep-KeepsAll (r ∷ rs) policy t w now =
          (sweep_row-Keeps policy t w r now, sweep-KeepsAll rs policy _ _ now)

      sweep-Distinct :
          (rs : List (Row D)) (policy : Policy) (t : Table) (w : W) (now : ℤ)
          → Distinct entries t
          → Distinct entries (sweep d q publish policy t w rs now).1
      unfolding sweep
      sweep-Distinct [] policy t w now u = u
      sweep-Distinct (r ∷ rs) policy t w now u =
          sweep-Distinct rs policy _ _ now (sweep_row-Distinct policy t w r now u)

      -- A tick keeps a well-formed map well formed, with 64 slots, distinct addresses, a count
      -- that is that of the slots in use, and the other slots clean; and if no two live entries
      -- of the excursion table share an address, none do after it.
      pub tick-IsMap :
          (eng : Engine D) (w : W) (now : ℤ)
          → IsMap d eng.rows eng.count
          → Distinct entries eng.tracker
          → let eng' = (tick d q publish eng w now).0 in
            IsMap d eng'.rows eng'.count × Distinct entries eng'.tracker
      unfolding tick
      tick-IsMap eng w now m u = (
        let swept = sweep d q publish eng.policy eng.tracker w eng.rows now in
            map_reap-IsMap d now
              (record eng { rows = swept.0; tracker = Track.reap swept.1 now absence_default_ms })
              (KeepsAll-IsMap eng.rows _ eng.count
                (sweep-KeepsAll eng.rows eng.policy eng.tracker w now) m),
        reap-Distinct _ now absence_default_ms
            (sweep-Distinct eng.rows eng.policy eng.tracker w now u),
      )

      -- The publications for some rows, in order: one for each that is in use with an active sample
      -- that is OK.
      abbrev pub publish_all : W → List (Row D) → W
      publish_all w [] = w
      publish_all w (r ∷ rs) =
          publish_all
            (if r.slot.in_use && is_active r.snapshot.activity_state && is_ok r.snapshot.status
              then publish r.slot.mac r.result r.snapshot w
              else w)
            rs

      sweep_row-publish :
          (policy : Policy) (t : Table) (w : W) (r : Row D) (now : ℤ) (rs : List (Row D))
          → let (r', t', w') = sweep_row d q publish policy t w r now in
            publish_all w' rs ≡ publish_all w (r' ∷ rs)
      unfolding sweep_row score_row judge score_client
      sweep_row-publish policy t w r now rs = ground arith

      -- The sweep of a tick publishes the result of every client that is in the map with an
      -- active sample that is OK, once, as it stands after its flags, in the order of the slots,
      -- and publishes nothing else.
      pub sweep_publications :
          (rs : List (Row D)) (policy : Policy) (t : Table) (w : W) (now : ℤ)
          → let (rs', t', w') = sweep d q publish policy t w rs now in w' ≡ publish_all w rs'
      unfolding sweep
      sweep_publications [] policy t w now = refl
      sweep_publications (r ∷ rs) policy t w now =
          sweep_publications rs policy _ _ now
          ∙ sweep_row-publish policy t w r now (
              (sweep d q publish policy (sweep_row d q publish policy t w r now).1
                (sweep_row d q publish policy t w r now).2 rs now).0)
