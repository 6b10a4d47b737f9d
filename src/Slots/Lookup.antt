-- ===== src/Slots/Lookup.antt =====
-- What is found in a table after a write to one slot.
use wei.Base.{
  ℕ, zero, suc, ◌≡◌, ◌<◌, refl, true, false, none, some, List, [], ◌∷◌, arith, if◌then◌else◌,
  get_elem?, set, length, inl, inr, Option-cases,
}
use wei.Base.Mac.{Mac, same_mac, same_mac_iff, same_mac_refl}
use wei.Slots.{Slotted, Found, hit, miss, scan, find, free, lookup}
use wei.Slots.Scan.{find-some, free-some, scan_hit, scan_miss}
use wei.Slots.Distinct.{Absent, find-none-Absent}

module _ {A : Type 0} (s : Slotted A) where
  pub lookup_of_Absent : (es : List A) (mac : Mac) → Absent s mac es → lookup s es mac ≡ none
  unfolding lookup
  lookup_of_Absent [] mac a = refl
  lookup_of_Absent (e ∷ es) mac a =
      ground (arith, same_mac_iff (s.key e) mac, lookup_of_Absent es mac a.1)

  pub lookup_of_find :
      (es : List A) (mac : Mac) (i : ℕ) (e : A)
      → find s es mac ≡ some i
      → get_elem? es i ≡ some e
      → lookup s es mac ≡ some e
  unfolding find lookup
  lookup_of_find [] mac i e h at = absurd (ground arith)
  lookup_of_find (x ∷ es) mac zero e h at = ground arith
  lookup_of_find (x ∷ es) mac (suc i) e h at = ground (arith, lookup_of_find es mac i e)

  -- The slot that held the address is written, and keeps it.
  pub lookup-set_known :
      (es : List A) (i : ℕ) (v : A) (mac : Mac)
      → find s es (s.key v) ≡ some i
      → s.in_use v ≡ true
      → lookup s (set es i v) mac ≡ (if same_mac (s.key v) mac then some v else lookup s es mac)
  unfolding find lookup
  lookup-set_known [] i v mac h live = absurd (ground arith)
  lookup-set_known (x ∷ es) zero v mac h live =
      ground (arith, same_mac_iff (s.key x) (s.key v), same_mac_iff (s.key x) mac)
  lookup-set_known (x ∷ es) (suc i) v mac h live = ground (
    arith,
    lookup-set_known es i v mac,
    same_mac_iff (s.key x) (s.key v),
    same_mac_iff (s.key x) mac,
    same_mac_iff (s.key v) mac,
    same_mac_refl (s.key v),
  )

  -- The first free slot is written, with an address that no live slot holds.
  pub lookup-set_fresh :
      (es : List A) (i : ℕ) (v : A) (mac : Mac)
      → free s es ≡ some i
      → s.in_use v ≡ true
      → Absent s (s.key v) es
      → lookup s (set es i v) mac ≡ (if same_mac (s.key v) mac then some v else lookup s es mac)
  unfolding free lookup
  lookup-set_fresh [] i v mac f live a = absurd (ground arith)
  lookup-set_fresh (x ∷ es) zero v mac f live a = ground arith
  lookup-set_fresh (x ∷ es) (suc i) v mac f live a =
      ground
        (arith, lookup-set_fresh es i v mac, same_mac_iff (s.key v) mac, same_mac_iff (s.key x) mac)

  -- The slot of the address, as the scan has found it.
  pub record Known (es : List A) (mac : Mac) (i : ℕ) (e : A) : Type 0 where
    pub found : find s es mac ≡ some i
    pub at : get_elem? es i ≡ some e
    pub live : s.in_use e ≡ true
    pub same : s.key e ≡ mac
    pub held : lookup s es mac ≡ some e
    pub bound : i < length es

  -- The address is in no live slot, and the slot at the index is the first free one.
  pub record Fresh (es : List A) (mac : Mac) (i : ℕ) (e : A) : Type 0 where
    pub absent : Absent s mac es
    pub missing : lookup s es mac ≡ none
    pub first : free s es ≡ some i
    pub at : get_elem? es i ≡ some e
    pub idle : s.in_use e ≡ false
    pub bound : i < length es

  pub record Full (es : List A) (mac : Mac) : Type 0 where
    pub absent : Absent s mac es
    pub missing : lookup s es mac ≡ none
    pub none_free : free s es ≡ none

  -- The three ends of the scan.
  pub scan_cases {ℓ} :
      (es : List A) (mac : Mac) (P : Found → Type ℓ)
      → ((i : ℕ) (e : A) → Known es mac i e → P (hit i))
      → ((i : ℕ) (e : A) → Fresh es mac i e → P (miss (some i)))
      → (Full es mac → P (miss none))
      → P (scan s es mac 0 none)
  scan_cases es mac P known fresh full = elim (Option-cases (find s es mac)) [
    | inr (i, h) ↦
        let (e, at, live, same, lt) = find-some s es mac i h in
        rw (scan_hit s es mac i h) (
          known i e (record {
            found = h;
            at = at;
            live = live;
            same = same;
            held = lookup_of_find es mac i e h at;
            bound = lt;
          }))
    | inl h ↦
        let absent = find-none-Absent s es mac h in
        let missing = lookup_of_Absent es mac absent in
        rw (scan_miss s es mac h) (elim (Option-cases (free s es)) [
          | inr (i, f) ↦
              let (e, at, idle, lt) = free-some s es i f in
              rw f (
                fresh i e (record {
                  absent = absent;
                  missing = missing;
                  first = f;
                  at = at;
                  idle = idle;
                  bound = lt;
                }))
          | inl f ↦ rw f (full (record { absent = absent; missing = missing; none_free = f }))
        ])
  ]

  -- What is found after a write at the index where the scan has ended.
  pub lookup-Known :
      (es : List A) (mac : Mac) (i : ℕ) (e v : A) (m : Mac)
      → Known es mac i e
      → s.key v ≡ mac
      → s.in_use v ≡ true
      → lookup s (set es i v) m ≡ (if same_mac mac m then some v else lookup s es m)
  lookup-Known es mac i e v m k key on = rw (← key) (lookup-set_known es i v m (rw key k.found) on)

  pub lookup-Fresh :
      (es : List A) (mac : Mac) (i : ℕ) (e v : A) (m : Mac)
      → Fresh es mac i e
      → s.key v ≡ mac
      → s.in_use v ≡ true
      → lookup s (set es i v) m ≡ (if same_mac mac m then some v else lookup s es m)
  lookup-Fresh es mac i e v m f key on =
      rw (← key) (lookup-set_fresh es i v m f.first on (rw key f.absent))
