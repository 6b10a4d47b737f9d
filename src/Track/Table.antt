-- ===== src/Track/Table.antt =====
-- Membership of the excursion table: what `get` and `reap` do to it.
use mathlib.Core.Option.{some-injective}
use wei.Base.{
  ℕ, zero, suc, ◌≡◌, refl, true, Option, none, some, [], ◌∷◌, arith, if◌then◌else◌, get_elem?,
  get_or, set, get_elem?-set_self,
}
use wei.Base.Int.{ℤ, ◌-ℤ◌, ltb_ℤ}
use wei.Base.Mac.{Mac, same_mac, same_mac_iff}
use wei.Slots
use wei.Slots.Lookup.{
  scan_cases, Known, Fresh, Full, lookup_of_Absent, lookup-set_known, lookup-set_fresh,
}
use wei.Slots.{find, free, hit, miss}
use wei.Slots.Distinct.{Absent, Distinct, set_same-Distinct, set_fresh-Distinct}
use wei.Track.{Entry, Table, entries, zero_entry, claimed, settle, get, reap}

pub get_or_of_get_elem? :
    (t : Table) (i : ℕ) (e : Entry) → get_elem? t i ≡ some e → get_or t i zero_entry ≡ e
get_or_of_get_elem? [] i e h = absurd (ground arith)
get_or_of_get_elem? (x ∷ t) zero e h = some-injective _ _ h
get_or_of_get_elem? (x ∷ t) (suc i) e h = get_or_of_get_elem? t i e h

-- The entry of the client after `get`: the one it had, or a zeroed one, stamped.
abbrev pub stamped : Mac → Option Entry → ℤ → Entry
stamped mac none now = claimed mac now
stamped mac (some e) now = record e { last_seen = now }

abbrev pub lookup : Table → Mac → Option Entry
lookup = Slots.lookup entries

module _ (t : Table) (mac : Mac) (now : ℤ) where
  -- The three ends of `wei_track_get`.
  get_cases {ℓ} :
      (P : Table × Option ℕ → Type ℓ)
      → ((i : ℕ) (e : Entry)
          → Known entries t mac i e
          → P (set t i (record e { last_seen = now }), some i))
      → ((i : ℕ) (e : Entry) → Fresh entries t mac i e → P (set t i (claimed mac now), some i))
      → (Full entries t mac → P (t, none))
      → P (get t mac now)
  unfolding get
  get_cases P known fresh full =
      scan_cases entries t mac (λ r. P (settle t mac now r))
        (λ i e k. rw (get_or_of_get_elem? t i e k.at) (known i e k)) fresh full

  -- If no two live entries of the table share an address, none do after `wei_track_get`.
  pub get-Distinct : Distinct entries t → Distinct entries (get t mac now).0
  get-Distinct d =
      get_cases (λ r. Distinct entries r.0)
        (λ i e k. set_same-Distinct entries t i e _ k.at (λ live. (live, refl)) d)
        (λ i e f. set_fresh-Distinct entries t i _ f.absent d) (λ f. d)

  -- How the table and the returned index stand after `get`.
  abbrev pub Got : Table × Option ℕ → Type 0
  Got (t', none) = (t' ≡ t) × (lookup t mac ≡ none) × (free entries t ≡ none)
  Got (t', some i) =
      (get_elem? t' i ≡ some (stamped mac (lookup t mac) now))
      × ((m : Mac)
          → lookup t' m
            ≡ (if same_mac mac m then some (stamped mac (lookup t mac) now) else lookup t m))

  -- `wei_track_get` returns NULL only if the client is unknown and no entry is free, and then the
  -- table is unchanged. Otherwise the entry at the index returned is the client's own, kept but for
  -- the new stamp, or one claimed zeroed for a client that had none; the table then finds this
  -- entry for the client, and for every other address what it found before.
  pub get-Got : Got (get t mac now)
  get-Got =
      get_cases Got
        (λ i e k. (
          rw k.held (get_elem?-set_self t i _ k.bound),
          λ m. rw (k.held, ← k.same) (lookup-set_known entries t i _ m (rw k.same k.found) k.live),
        ))
        (λ i e f. (
          rw f.missing (get_elem?-set_self t i _ f.bound),
          λ m. rw f.missing (lookup-set_fresh entries t i _ m f.first refl f.absent),
        ))
        (λ f. (refl, f.missing, f.none_free))

-- An entry stays through a reap unless it has been unseen for longer than the absence.
abbrev pub kept_by : ℤ → ℤ → Option Entry → Option Entry
kept_by now absence none = none
kept_by now absence (some e) = if ltb_ℤ absence (now -ℤ e.last_seen) then none else some e

reap-Absent :
    (t : Table) (mac : Mac) (now absence : ℤ)
    → Absent entries mac t
    → Absent entries mac (reap t now absence)
unfolding reap
reap-Absent [] mac now absence a = tt
reap-Absent (e ∷ t) mac now absence a = (ground arith, reap-Absent t mac now absence a.1)

-- If no two live entries of the table share an address, none do after `wei_track_reap`.
pub reap-Distinct :
    (t : Table) (now absence : ℤ) → Distinct entries t → Distinct entries (reap t now absence)
unfolding reap
reap-Distinct [] now absence d = tt
reap-Distinct (e ∷ t) now absence d =
    (ground (arith, reap-Absent t e.mac now absence), reap-Distinct t now absence d.1)

-- From a table in which no two live entries share an address, `wei_track_reap` removes exactly
-- the clients unseen for longer than the absence, and leaves the entries of the others as they
-- are.
lookup-reap :
    (t : Table) (now absence : ℤ) (m : Mac)
    → Distinct entries t
    → lookup (reap t now absence) m ≡ kept_by now absence (lookup t m)
unfolding reap Slots.lookup
lookup-reap [] now absence m d = refl
lookup-reap (e ∷ t) now absence m d = ground (
  arith,
  lookup-reap t now absence m d.1,
  same_mac_iff e.mac m,
  λ (live : e.in_use ≡ true). lookup_of_Absent entries t e.mac (d.0 live),
)
