-- ===== src/Slots/Distinct.antt =====
-- No address is held by two live slots of a table, and how a write to one slot keeps that.
use wei.Base.{
  ℕ, zero, suc, ◌≤◌, ◌<◌, ◌≡◌, ◌≢◌, refl, sym, ap, ◌∙◌, true, none, some, List, [], ◌∷◌, arith,
  if◌then◌else◌, length, get_elem?, set,
}
use mathlib.Core.Option.{some-injective}
use wei.Base.Mac.{Mac, same_mac, same_mac_iff}
use wei.Slots.{Slotted, find, free, occupied}

module _ {A : Type 0} (s : Slotted A) where
  -- No live slot holds the address.
  abbrev pub Absent : Mac → List A → Type 0
  Absent mac [] = Unit {0}
  Absent mac (e ∷ es) = (s.in_use e ≡ true → s.key e ≢ mac) × Absent mac es

  abbrev pub Distinct : List A → Type 0
  Distinct [] = Unit {0}
  Distinct (e ∷ es) = (s.in_use e ≡ true → Absent (s.key e) es) × Distinct es

  pub find-none-Absent : (es : List A) (mac : Mac) → find s es mac ≡ none → Absent mac es
  unfolding find
  find-none-Absent [] mac h = tt
  find-none-Absent (e ∷ es) mac h = (
    λ live same. ground (arith, same_mac_iff (s.key e) mac),
    find-none-Absent es mac (ground arith),
  )

  pub Absent-find : (es : List A) (mac : Mac) → Absent mac es → find s es mac ≡ none
  unfolding find
  Absent-find [] mac a = refl
  Absent-find (e ∷ es) mac a = ground (arith, same_mac_iff (s.key e) mac, Absent-find es mac a.1)

  pub set-Absent :
      (es : List A) (mac : Mac) (i : ℕ) (v : A)
      → (s.in_use v ≡ true → s.key v ≢ mac)
      → Absent mac es
      → Absent mac (set es i v)
  set-Absent [] mac i v h a = tt
  set-Absent (e ∷ es) mac zero v h a = (h, a.1)
  set-Absent (e ∷ es) mac (suc i) v h a = (a.0, set-Absent es mac i v h a.1)

  -- A live slot at some index has an address that is absent before and after it.
  Absent-get :
      (es : List A) (mac : Mac) (i : ℕ) (e : A)
      → get_elem? es i ≡ some e
      → Absent mac es
      → s.in_use e ≡ true
      → s.key e ≢ mac
  Absent-get [] mac i e h a = absurd (ground arith)
  Absent-get (x ∷ es) mac zero e h a = ground arith
  Absent-get (x ∷ es) mac (suc i) e h a = Absent-get es mac i e h a.1

  -- Live slots with one address are one slot.
  pub Distinct-index :
      (es : List A) (i k : ℕ) (x y : A)
      → Distinct es
      → get_elem? es i ≡ some x
      → get_elem? es k ≡ some y
      → s.in_use x ≡ true
      → s.in_use y ≡ true
      → s.key x ≡ s.key y
      → i ≡ k
  Distinct-index [] i k x y d a b u v e = absurd (ground arith)
  Distinct-index (z ∷ es) zero zero x y d a b u v e = refl
  Distinct-index (z ∷ es) zero (suc k) x y d a b u v e =
      let first = some-injective _ _ a in
      absurd
        (Absent-get es (s.key z) k y b (d.0 (ap s.in_use first ∙ u)) v (sym (ap s.key first ∙ e)))
  Distinct-index (z ∷ es) (suc i) zero x y d a b u v e =
      let first = some-injective _ _ b in
      absurd
        (Absent-get es (s.key z) i x a (d.0 (ap s.in_use first ∙ v)) u (e ∙ sym (ap s.key first)))
  Distinct-index (z ∷ es) (suc i) (suc k) x y d a b u v e =
      ap suc (Distinct-index es i k x y d.1 a b u v e)

  -- A write that keeps the slot's address, or frees the slot.
  pub set_same-Distinct :
      (es : List A) (i : ℕ) (e v : A)
      → get_elem? es i ≡ some e
      → (s.in_use v ≡ true → (s.in_use e ≡ true) × (s.key v ≡ s.key e))
      → Distinct es
      → Distinct (set es i v)
  set_same-Distinct [] i e v h same d = tt
  set_same-Distinct (x ∷ es) zero e v h same d =
      (λ live. rw (same live).1 (rw (some-injective _ _ h) at d.0 (same live).0), d.1)
  set_same-Distinct (x ∷ es) (suc i) e v h same d = (
    λ live.
        set-Absent es (s.key x) i v
          (λ on. rw (same on).1 (Absent-get es (s.key x) i e h (d.0 live) (same on).0)) (d.0 live),
    set_same-Distinct es i e v h same d.1,
  )

  -- A write of an address that no live slot holds.
  pub set_fresh-Distinct :
      (es : List A) (i : ℕ) (v : A) → Absent (s.key v) es → Distinct es → Distinct (set es i v)
  set_fresh-Distinct [] i v a d = tt
  set_fresh-Distinct (x ∷ es) zero v a d = (λ live. a.1, d.1)
  set_fresh-Distinct (x ∷ es) (suc i) v a d = (
    λ live. set-Absent es (s.key x) i v (λ on same. a.0 live (sym same)) (d.0 live),
    set_fresh-Distinct es i v a.1 d.1,
  )

  -- The new slot is the one that is found, and the search for any other address goes on as before.
  pub find-set_fresh :
      (es : List A) (i : ℕ) (v : A) (mac : Mac)
      → free s es ≡ some i
      → s.in_use v ≡ true
      → Absent (s.key v) es
      → find s (set es i v) mac ≡ (if same_mac (s.key v) mac then some i else find s es mac)
  unfolding find free
  find-set_fresh [] i v mac f live a = absurd (ground arith)
  find-set_fresh (x ∷ es) zero v mac f live a = ground (arith, Absent-find es mac)
  find-set_fresh (x ∷ es) (suc i) v mac f live a =
      ground
        (arith, find-set_fresh es i v mac, same_mac_iff (s.key v) mac, same_mac_iff (s.key x) mac)

  -- A write that keeps address and use changes no search.
  pub find-set_same :
      (es : List A) (i : ℕ) (e v : A) (mac : Mac)
      → get_elem? es i ≡ some e
      → s.in_use v ≡ s.in_use e
      → s.key v ≡ s.key e
      → find s (set es i v) mac ≡ find s es mac
  unfolding find
  find-set_same [] i e v mac h u k = refl
  find-set_same (x ∷ es) zero e v mac h u k = rw (u, k, some-injective _ _ h)
  find-set_same (x ∷ es) (suc i) e v mac h u k = rw (find-set_same es i e v mac h u k)

  pub occupied-le-length : (es : List A) → occupied s es ≤ length es
  unfolding occupied
  occupied-le-length [] = omega arith
  occupied-le-length (x ∷ es) = ground (arith, occupied-le-length es)

  pub occupied-set_fresh :
      (es : List A) (i : ℕ) (v : A)
      → free s es ≡ some i
      → s.in_use v ≡ true
      → occupied s (set es i v) ≡ suc (occupied s es)
  unfolding free occupied
  occupied-set_fresh [] i v f live = absurd (ground arith)
  occupied-set_fresh (x ∷ es) zero v f live = ground arith
  occupied-set_fresh (x ∷ es) (suc i) v f live = ground (arith, occupied-set_fresh es i v)

  pub occupied-set_same :
      (es : List A) (i : ℕ) (e v : A)
      → get_elem? es i ≡ some e
      → s.in_use v ≡ s.in_use e
      → occupied s (set es i v) ≡ occupied s es
  unfolding occupied
  occupied-set_same [] i e v h u = refl
  occupied-set_same (x ∷ es) zero e v h u = rw (u, some-injective _ _ h)
  occupied-set_same (x ∷ es) (suc i) e v h u = rw (occupied-set_same es i e v h u)

  -- A free slot leaves room below the capacity.
  pub free-some-occupied : (es : List A) (i : ℕ) → free s es ≡ some i → occupied s es < length es
  unfolding free occupied
  free-some-occupied [] i h = absurd (ground arith)
  free-some-occupied (x ∷ es) zero h = ground (arith, occupied-le-length es)
  free-some-occupied (x ∷ es) (suc i) h = ground (arith, free-some-occupied es i)

  pub free-none-occupied : (es : List A) → free s es ≡ none → occupied s es ≡ length es
  unfolding free occupied
  free-none-occupied [] h = refl
  free-none-occupied (x ∷ es) h = ground (arith, free-none-occupied es)
