-- ===== src/Slots.antt =====
-- The fixed table of client slots, which the excursion tracker (source/wei_track.c), the
-- membership map (source/wei_infer.c) and the publish cadence (source/wei_perfreport.c) each scan
-- with the same loop: it stops at the live slot of an address, and remembers the first free slot
-- on the way.
pub mod Scan
pub mod Distinct
pub mod Lookup
use wei.Base.{
  ℕ, zero, suc, ◌+◌, Bool, true, false, ◌&&◌, Option, none, some, List, [], ◌∷◌, if◌then◌else◌,
}
use wei.Base.Mac.{Mac, same_mac}

-- What the loop reads of a slot.
pub record Slotted (A : Type 0) : Type 0 where
  pub in_use : A → Bool
  pub key : A → Mac

-- How the loop ends: at the index of the live slot, or with the first free index, if any.
pub data Found : Type 0 where
  hit : ℕ → Found
  miss : Option ℕ → Found

-- `if (slot == NULL) slot = e`.
abbrev pub or_first : Option ℕ → ℕ → Option ℕ
or_first none i = some i
or_first (some j) i = some j

abbrev pub later : Option ℕ → Option ℕ
later none = none
later (some k) = some (suc k)

module _ {A : Type 0} (s : Slotted A) where
  -- `for (i = 0; i < MAX; i++)`, from index `i` on, with the free slot found so far.
  unfoldable pub scan : List A → Mac → ℕ → Option ℕ → Found
  scan [] mac i slot = miss slot
  scan (e ∷ es) mac i slot =
      let skip = scan es mac (suc i) (or_first slot i) in
      let next = scan es mac (suc i) slot in
      elim (s.in_use e) [ false ↦ skip | true ↦ if same_mac (s.key e) mac then hit i else next ]

  -- The index of the live slot that holds the address.
  unfoldable pub find : List A → Mac → Option ℕ
  find [] mac = none
  find (e ∷ es) mac =
      if s.in_use e && same_mac (s.key e) mac then some zero else later (find es mac)

  -- The live slot that holds the address.
  unfoldable pub lookup : List A → Mac → Option A
  lookup [] mac = none
  lookup (e ∷ es) mac = if s.in_use e && same_mac (s.key e) mac then some e else lookup es mac

  -- The index of the first slot that is not in use.
  unfoldable pub free : List A → Option ℕ
  free [] = none
  free (e ∷ es) = if s.in_use e then later (free es) else some zero

  -- How many slots are in use.
  unfoldable pub occupied : List A → ℕ
  occupied [] = 0
  occupied (e ∷ es) = (if s.in_use e then 1 else 0) + occupied es
