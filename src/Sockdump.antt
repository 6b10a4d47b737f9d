-- ===== src/Sockdump.antt =====
-- tools/wei_sockdump.c: the tool that prints the datagrams of the sender. What is printed is a list of
-- lines; the buffer and what lies behind it in memory are a function of the index.
pub mod Bounds
pub mod Setup
mod Examples
use wei.Base.{
  ℕ, zero, suc, ◌+◌, ◌-◌, ◌*◌, ◌/◌, Bool, true, false, not, ◌||◌, List, [], ◌∷◌, ◌++◌,
  if◌then◌else◌, ltb, ◌==◌,
}

abbrev pub tlv_hdr_len : ℕ
tlv_hdr_len = 6

abbrev pub hex_max : ℕ
hex_max = 32

-- `mac[19]` less its NUL.
abbrev pub mac_len : ℕ
mac_len = 18

pub data MsgName : Type 0 where
  periodic_stats disconnect rapid_disconnect register_sta unregister_sta other_type : MsgName

unfoldable pub msg_type : ℕ → MsgName
msg_type t =
    if t == 1
    then periodic_stats
    else if t == 2
    then disconnect
    else if t == 3
    then rapid_disconnect
    else if t == 7
    then register_sta
    else if t == 8
    then unregister_sta
    else other_type

pub data Line : Type 0 where
  runt : ℕ → Line
  -- The length, the type and its name, the version, the two sizes, the count, and whether the
  -- declared length is not the received one.
  frame : ℕ → ℕ → MsgName → ℕ → ℕ → ℕ → ℕ → Bool → Line
  -- The index, the address, the bytes and whether dots follow.
  entry : ℕ → List ℕ → List ℕ → Bool → Line

-- The bytes from an index on.
unfoldable pub bytes_at : (ℕ → ℕ) → ℕ → ℕ → List ℕ
bytes_at mem off zero = []
bytes_at mem off (suc n) = mem off ∷ bytes_at mem (off + 1) n

-- The string that is printed: up to the first NUL, with a dot for what is not printable.
unfoldable pub shown : List ℕ → List ℕ
shown [] = []
shown (c ∷ cs) =
    let rest = shown cs in if c == 0 then [] else (if ltb c 32 || ltb 126 c then 46 else c) ∷ rest

abbrev pub preview_len : ℕ → ℕ
preview_len n = if ltb hex_max n then hex_max else n

-- The loop over the entries, the first argument counting those that are left.
unfoldable pub entries : (ℕ → ℕ) → ℕ → ℕ → ℕ → List Line
unfolding bytes_at shown
entries mem elem_size zero i = []
entries mem elem_size (suc n) i =
    let at = tlv_hdr_len + i * elem_size in
    let shown_len = preview_len elem_size in
    entry i (shown (bytes_at mem at mac_len)) (bytes_at mem at shown_len) (shown_len == hex_max)
    ∷ entries mem elem_size n (i + 1)

abbrev pub load16 : ℕ → ℕ → ℕ
load16 lo hi = lo + 256 * hi

-- The lines of a datagram of a length.
unfoldable pub describe : (ℕ → ℕ) → ℕ → List Line
unfolding entries msg_type
describe mem r =
    let elem_size = load16 (mem 2) (mem 3) in
    let len = load16 (mem 4) (mem 5) in
    let count = if ltb 0 elem_size then len / elem_size else 0 in
    if ltb r tlv_hdr_len
    then runt r ∷ []
    else frame r (mem 0) (msg_type (mem 0)) (mem 1) elem_size len count
        (not (len == r - tlv_hdr_len))
      ∷ entries mem elem_size count 0

-- What recv gives: EINTR, another error, or a length with the memory then.
pub data Received : Type 0 where
  interrupted failed : Received
  datagram : (ℕ → ℕ) → ℕ → Received

-- The loop, each turn with whether it is to stop.
unfoldable pub dump : List (Bool × Received) → List Line
dump [] = []
dump ((true, got) ∷ turns) = []
dump ((false, interrupted) ∷ turns) = dump turns
dump ((false, failed) ∷ turns) = []
dump ((false, datagram mem r) ∷ turns) = describe mem r ++ dump turns
