-- ===== src/Infer/Engine/Membership.antt =====
-- Staging: the membership map of the engine.
use mathlib.Core.Option.{some-injective}
use wei.Base.{
  ℕ, zero, suc, ◌+◌, ◌≡◌, refl, sym, ◌∙◌, ◌⊎◌, inl, inr, false, Option, none, some, List, [], ◌∷◌,
  arith, if◌then◌else◌, ltb, length, get_elem?, get_or, set, length-set, replicate,
  length-replicate,
}
use wei.Base.Int.{ℤ}
use wei.Base.Mac.{Mac, same_mac}
use wei.Metric.{Metric}
use wei.Double.{Double}
use wei.Slots
use wei.Slots.{Found, hit, miss, find, free, occupied}
use wei.Slots.Distinct.{
  Distinct, set_same-Distinct, set_fresh-Distinct, occupied-set_fresh, occupied-set_same,
  free-some-occupied, free-none-occupied,
}
use wei.Slots.Lookup.{scan_cases, Known, Fresh, Full, lookup-set_known, lookup-set_fresh}
use wei.Track.{max_clients}
use wei.Infer.Types.{zero_client, zero_log}
use wei.Infer.Engine.{Row, Engine, members, zero_row, refreshed, admitted, settled, stage_record}

module _ {D : Type 0} (d : Double D) where
  -- A slot that is not in use has the state and the ledger of a client never seen.
  abbrev pub IsClean : Row D → Type 0
  IsClean r = r.slot.in_use ≡ false → (r.slot.state ≡ zero_client d) × (r.ledger ≡ zero_log)

  abbrev pub AllClean : List (Row D) → Type 0
  AllClean [] = Unit {0}
  AllClean (r ∷ rs) = IsClean r × AllClean rs

  -- The map of an engine: 64 slots, no address in two of them, as many in use as `count` says, and
  -- the others clean.
  pub record IsMap (rows : List (Row D)) (count : ℕ) : Type 0 where
    pub capacity : length rows ≡ max_clients
    pub distinct : Distinct members rows
    pub counted : count ≡ occupied members rows
    pub clean : AllClean rows

  get_or_row :
      (rows : List (Row D)) (i : ℕ) (r : Row D)
      → get_elem? rows i ≡ some r
      → get_or rows i (zero_row d) ≡ r
  get_or_row [] i r h = absurd (ground arith)
  get_or_row (x ∷ rows) zero r h = some-injective _ _ h
  get_or_row (x ∷ rows) (suc i) r h = get_or_row rows i r h

  get-IsClean :
      (rows : List (Row D)) (i : ℕ) (r : Row D)
      → get_elem? rows i ≡ some r
      → AllClean rows
      → IsClean r
  get-IsClean [] i r h c = absurd (ground arith)
  get-IsClean (x ∷ rows) zero r h c = rw (← some-injective _ _ h) c.0
  get-IsClean (x ∷ rows) (suc i) r h c = get-IsClean rows i r h c.1

  set-AllClean :
      (rows : List (Row D)) (i : ℕ) (r : Row D)
      → IsClean r
      → AllClean rows
      → AllClean (set rows i r)
  set-AllClean [] i r h c = tt
  set-AllClean (x ∷ rows) zero r h c = (h, c.1)
  set-AllClean (x ∷ rows) (suc i) r h c = (c.0, set-AllClean rows i r h c.1)

  zero_rows-Distinct : (n : ℕ) → Distinct members (replicate n (zero_row d))
  zero_rows-Distinct zero = tt
  zero_rows-Distinct (suc n) = (λ live. absurd (ground arith), zero_rows-Distinct n)

  zero_rows-AllClean : (n : ℕ) → AllClean (replicate n (zero_row d))
  zero_rows-AllClean zero = tt
  zero_rows-AllClean (suc n) = (λ off. (refl, refl), zero_rows-AllClean n)

  zero_rows-occupied : (n : ℕ) → 0 ≡ occupied members (replicate n (zero_row d))
  unfolding occupied
  zero_rows-occupied zero = refl
  zero_rows-occupied (suc n) = omega (arith, zero_rows-occupied n)

  pub zero_rows-IsMap : IsMap (replicate max_clients (zero_row d)) 0
  zero_rows-IsMap = record {
    capacity = length-replicate max_clients (zero_row d);
    distinct = zero_rows-Distinct max_clients;
    counted = zero_rows-occupied max_clients;
    clean = zero_rows-AllClean max_clients;
  }

  module _ (eng : Engine D) (mac : Mac) (rec : Metric) (now : ℤ) where
    -- The three ends of `wei_infer_stage_record`.
    pub stage_cases {ℓ} :
        (P : Engine D → Type ℓ)
        → ((i : ℕ) (r : Row D)
            → Known members eng.rows mac i r
            → P (record eng { rows = set eng.rows i (refreshed r rec now) }))
        → ((i : ℕ) (r : Row D)
            → Fresh members eng.rows mac i r
            → P (record eng {
              rows = set eng.rows i (admitted r mac rec now);
              count = if ltb eng.count max_clients then eng.count + 1 else eng.count;
            }))
        → (Full members eng.rows mac → P eng)
        → P (stage_record d eng mac rec now)
    unfolding stage_record
    stage_cases P known fresh full =
        scan_cases members eng.rows mac (λ r. P (settled d eng mac rec now r))
          (λ i r k. rw (get_or_row eng.rows i r k.at) (known i r k))
          (λ i r f. rw (get_or_row eng.rows i r f.at) (fresh i r f)) full

    -- `wei_infer_stage_record` keeps the map well formed.
    pub stage_record-IsMap :
        IsMap eng.rows eng.count
        → let eng' = stage_record d eng mac rec now in IsMap eng'.rows eng'.count
    stage_record-IsMap m =
        stage_cases (λ e. IsMap e.rows e.count)
          (λ i r k. record {
            capacity = length-set eng.rows i _ ∙ m.capacity;
            distinct =
                set_same-Distinct members eng.rows i r _ k.at (λ live. (k.live, refl)) m.distinct;
            counted = m.counted ∙ sym (occupied-set_same members eng.rows i r _ k.at refl);
            clean = set-AllClean eng.rows i _ (get-IsClean eng.rows i r k.at m.clean) m.clean;
          })
          (λ i r f. record {
            capacity = length-set eng.rows i _ ∙ m.capacity;
            distinct = set_fresh-Distinct members eng.rows i _ f.absent m.distinct;
            counted = ground (
              arith,
              m.counted,
              m.capacity,
              occupied-set_fresh members eng.rows i (admitted r mac rec now) f.first refl,
              free-some-occupied members eng.rows i f.first,
            );
            clean = set-AllClean eng.rows i _ (λ off. cc) m.clean;
          })
          (λ f. m)

    pub stage_record-tracker : (stage_record d eng mac rec now).tracker ≡ eng.tracker
    stage_record-tracker =
        stage_cases (λ e. e.tracker ≡ eng.tracker) (λ i r k. refl) (λ i r f. refl) (λ f. refl)

    -- What a client starts or goes on with.
    abbrev pub carried : Option (Row D) → Row D
    carried none = zero_row d
    carried (some r) = r

    -- How the map finds clients after a record is staged.
    pub record Staged (eng' : Engine D) : Type 0 where
      pub row : Row D
      pub snapshot : row.snapshot ≡ rec
      pub stamp : row.slot.last_seen ≡ now
      pub state : row.slot.state ≡ (carried (Slots.lookup members eng.rows mac)).slot.state
      pub ledger : row.ledger ≡ (carried (Slots.lookup members eng.rows mac)).ledger
      pub lookups :
          (m : Mac)
          → Slots.lookup members eng'.rows m
            ≡ (if same_mac mac m then some row else Slots.lookup members eng.rows m)

    -- In a well-formed map, a staged record is dropped only if its client is unknown and all 64
    -- slots are in use, and then nothing changes. Otherwise the map finds the client with this
    -- record and this stamp, with the state and ledger that it had, or those of a client never
    -- seen if it is new; what the map finds for any other address does not change.
    pub stage_record-Staged :
        IsMap eng.rows eng.count
        → ((stage_record d eng mac rec now ≡ eng)
            × (Slots.lookup members eng.rows mac ≡ none)
            × (eng.count ≡ max_clients))
          ⊎ Staged (stage_record d eng mac rec now)
    stage_record-Staged m =
        stage_cases
          (λ e.
            ((e ≡ eng) × (Slots.lookup members eng.rows mac ≡ none) × (eng.count ≡ max_clients))
            ⊎ Staged e)
          (λ i r k. inr (record {
            row = refreshed r rec now;
            snapshot = refl;
            stamp = refl;
            state = rw k.held;
            ledger = rw k.held;
            lookups = λ m. rw (← k.same) (
                lookup-set_known members eng.rows i (refreshed r rec now) m (rw k.same k.found)
                  k.live);
          }))
          (λ i r f. inr (record {
            row = admitted r mac rec now;
            snapshot = refl;
            stamp = refl;
            state = rw f.missing (get-IsClean eng.rows i r f.at m.clean f.idle).0;
            ledger = rw f.missing (get-IsClean eng.rows i r f.at m.clean f.idle).1;
            lookups = λ m.
                lookup-set_fresh members eng.rows i (admitted r mac rec now) m f.first refl
                  f.absent;
          }))
          (λ f. inl (
            refl,
            f.missing,
            m.counted ∙ free-none-occupied members eng.rows f.none_free ∙ m.capacity,
          ))
