-- ===== src/Sockdump/Bounds.antt =====
-- The memory that tools/wei_sockdump.c reads.
use wei.Base.{
  ℕ, zero, suc, ◌+◌, ◌*◌, ◌/◌, ◌≤◌, ◌<◌, ◌≡◌, refl, ap, ◌∙◌, true, ◌∷◌, arith, if◌then◌else◌, ltb,
  ◌==◌,
}
use native.Mathlib.Nat.{mul-le-mul_right, div-mul-le_self}
use wei.Sockdump.{
  tlv_hdr_len, hex_max, mac_len, entry, bytes_at, shown, preview_len, entries, load16, describe,
}

-- The two memories have the same first bytes.
abbrev pub Agree : ℕ → (ℕ → ℕ) → (ℕ → ℕ) → Type 0
Agree r mem mem' = (i : ℕ) → i < r → mem i ≡ mem' i

bytes_at-Agree :
    (r : ℕ) (mem mem' : ℕ → ℕ) (off n : ℕ)
    → Agree r mem mem'
    → off + n ≤ r
    → bytes_at mem off n ≡ bytes_at mem' off n
unfolding bytes_at
bytes_at-Agree r mem mem' off zero same h = refl
bytes_at-Agree r mem mem' off (suc n) same h =
    rw (same off (omega arith), bytes_at-Agree r mem mem' (off + 1) n same (omega arith)) refl

-- Every entry from an index on ends within the datagram.
abbrev pub Within : ℕ → ℕ → ℕ → Type 0
Within r elem_size n = (j : ℕ) → j < n → tlv_hdr_len + j * elem_size + elem_size ≤ r

entries-Agree :
    (r : ℕ) (mem mem' : ℕ → ℕ) (elem_size n i : ℕ)
    → Agree r mem mem'
    → mac_len ≤ elem_size
    → Within r elem_size (i + n)
    → entries mem elem_size n i ≡ entries mem' elem_size n i
unfolding entries
entries-Agree r mem mem' elem_size zero i same big within = refl
entries-Agree r mem mem' elem_size (suc n) i same big within =
    let at = tlv_hdr_len + i * elem_size in
    let ends = within i (omega arith) in
    let mac = bytes_at-Agree r mem mem' at mac_len same (omega arith) in
    let hex = bytes_at-Agree r mem mem' at (preview_len elem_size) same (ground arith) in
    let rest =
      entries-Agree r mem mem' elem_size n (i + 1) same big (λ j h. within j (omega arith)) in
    let n' = preview_len elem_size in
    let dots = n' == hex_max in
    let others = entries mem elem_size n (i + 1) in
    let mac' = shown (bytes_at mem' at mac_len) in
    ap (λ m. entry i (shown m) (bytes_at mem at n') dots ∷ others) mac
    ∙ ap (λ h. entry i mac' h dots ∷ others) hex
    ∙ ap (λ es. entry i mac' (bytes_at mem' at n') dots ∷ es) rest

count-Within :
    (r elem_size len : ℕ)
    → 0 < elem_size
    → tlv_hdr_len + len ≤ r
    → Within r elem_size (len / elem_size)
count-Within r elem_size len some_size fits j h =
    let whole = div-mul-le_self len elem_size in
    let step : (1 + j) * elem_size ≤ len / elem_size * elem_size =
      mul-le-mul_right elem_size (omega arith) in
    omega arith

counted-Agree :
    (r : ℕ) (mem mem' : ℕ → ℕ) (elem_size len : ℕ)
    → Agree r mem mem'
    → mac_len ≤ elem_size
    → tlv_hdr_len + len ≤ r
    → let count = if ltb 0 elem_size then len / elem_size else 0 in
      entries mem elem_size count 0 ≡ entries mem' elem_size count 0
counted-Agree r mem mem' elem_size len same big fits =
    let some_size : ltb 0 elem_size ≡ true = ground arith in
    rw some_size (
      entries-Agree r mem mem' elem_size (len / elem_size) 0 same big
        (λ j h. count-Within r elem_size len (omega arith) fits j (omega arith)))

-- For a datagram that is at least as long as its header declares, with entries of 18 bytes or more:
-- what is printed depends on the bytes of the datagram alone, not on the memory behind them.
pub describe-Agree :
    (mem mem' : ℕ → ℕ) (r : ℕ)
    → Agree r mem mem'
    → tlv_hdr_len + load16 (mem 4) (mem 5) ≤ r
    → mac_len ≤ load16 (mem 2) (mem 3)
    → describe mem r ≡ describe mem' r
unfolding describe
describe-Agree mem mem' r same fits big =
    let at : (i : ℕ) → i < 6 → mem i ≡ mem' i = λ i h. same i (omega arith) in
    let e0 = at 0 (omega arith) in
    let e1 = at 1 (omega arith) in
    let e2 = at 2 (omega arith) in
    let e3 = at 3 (omega arith) in
    let e4 = at 4 (omega arith) in
    let e5 = at 5 (omega arith) in
    let lines =
      counted-Agree r mem mem' (load16 (mem 2) (mem 3)) (load16 (mem 4) (mem 5)) same big fits in
    rw (lines, e0, e1, e2, e3, e4, e5) refl
