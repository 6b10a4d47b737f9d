-- ===== src/Slots/Scan.antt =====
-- What the one-pass scan finds, against two plain searches.
use wei.Base.{
  ℕ, zero, suc, ◌+◌, ◌<◌, ◌≡◌, refl, true, false, Option, none, some, List, [], ◌∷◌, arith, length,
  get_elem?,
}
use wei.Base.Mac.{Mac, same_mac_eq}
use wei.Slots.{Slotted, Found, hit, miss, scan, find, free}

abbrev pub shift : ℕ → Option ℕ → Option ℕ
shift i none = none
shift i (some k) = some (i + k)

-- The result of the two searches, from index `i` on with a free slot already found or not.
abbrev pub joined : ℕ → Option ℕ → Option ℕ → Option ℕ → Found
joined i slot none (none) = miss slot
joined i none none (some k) = miss (some (i + k))
joined i (some j) none (some k) = miss (some j)
joined i slot (some k) f = hit (i + k)

module _ {A : Type 0} (s : Slotted A) where
  pub scan-joined :
      (es : List A) (mac : Mac) (i : ℕ) (slot : Option ℕ)
      → scan s es mac i slot ≡ joined i slot (find s es mac) (free s es)
  unfolding scan find free
  scan-joined [] mac i none = refl
  scan-joined [] mac i (some j) = refl
  scan-joined (e ∷ es) mac i none =
      ground (arith, scan-joined es mac (suc i) none, scan-joined es mac (suc i) (some i))
  scan-joined (e ∷ es) mac i (some j) = ground (arith, scan-joined es mac (suc i) (some j))

  -- The slot that `find` returns is in the table, live, and holds the address.
  pub find-some :
      (es : List A) (mac : Mac) (i : ℕ)
      → find s es mac ≡ some i
      → (e : A) × (get_elem? es i ≡ some e)
        × (s.in_use e ≡ true)
        × (s.key e ≡ mac)
        × (i < length es)
  unfolding find
  find-some [] mac i h = absurd (ground arith)
  find-some (e ∷ es) mac zero h =
      (e, refl, ground arith, ground (arith, same_mac_eq (s.key e) mac), omega arith)
  find-some (e ∷ es) mac (suc i) h =
      let (x, at, live, same, lt) = find-some es mac i (ground arith) in
      (x, at, live, same, omega arith)

  pub free-some :
      (es : List A) (i : ℕ)
      → free s es ≡ some i
      → (e : A) × (get_elem? es i ≡ some e) × (s.in_use e ≡ false) × (i < length es)
  unfolding free
  free-some [] i h = absurd (ground arith)
  free-some (e ∷ es) zero h = (e, refl, ground arith, omega arith)
  free-some (e ∷ es) (suc i) h =
      let (x, at, idle, lt) = free-some es i (ground arith) in (x, at, idle, omega arith)

  -- A live slot for the address stops the scan, whatever free slot it has passed.
  pub scan_hit :
      (es : List A) (mac : Mac) (i : ℕ) → find s es mac ≡ some i → scan s es mac 0 none ≡ hit i
  scan_hit es mac i h = ground (arith, scan-joined es mac 0 none)

  -- With no such slot it returns the first free one.
  pub scan_miss :
      (es : List A) (mac : Mac) → find s es mac ≡ none → scan s es mac 0 none ≡ miss (free s es)
  scan_miss es mac h = ground (arith, scan-joined es mac 0 none)
