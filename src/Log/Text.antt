-- ===== src/Log/Text.antt =====
-- The text of a line of source/wei_util.c: a stamp, the level and the zone, then the message, in a buffer
-- of 1024 bytes. What `strftime` and the caller's format give is text, a list of bytes.
use wei.Base.{
  ℕ, zero, suc, ◌+◌, ◌-◌, ◌/◌, ◌%◌, ◌<◌, ◌≡◌, sym, ap, ◌∙◌, Bool, Option, none, some, List, [], ◌∷◌,
  ◌++◌, arith, if◌then◌else◌, ltb, length, length-append, take,
}
use wei.Base.Int.{pos}
use wei.Log.{Log, line_size, prefix_len, message_len, line_len, file_write}

pub data Level : Type 0 where
  debug info error max : Level

pub data Zone : Type 0 where
  connected aff apps : Zone

abbrev pub level_rank : Level → ℕ
level_rank debug = 0
level_rank info = 1
level_rank error = 2
level_rank max = 3

-- `WEI_LOG_MIN_LEVEL`, where the build does not raise it.
abbrev pub min_level : Level
min_level = debug

abbrev pub lvl_str : Level → List ℕ
lvl_str debug = b'D' ∷ b'B' ∷ b'G' ∷ []
lvl_str info = b'I' ∷ b'N' ∷ b'F' ∷ []
lvl_str error = b'E' ∷ b'R' ∷ b'R' ∷ []
lvl_str max = b'L' ∷ b'O' ∷ b'G' ∷ []

abbrev pub zone_str : Zone → List ℕ
zone_str connected = b'C' ∷ b'O' ∷ b'N' ∷ b'N' ∷ b'E' ∷ b'C' ∷ b'T' ∷ b'E' ∷ b'D' ∷ []
zone_str aff = b'A' ∷ b'F' ∷ b'F' ∷ b'I' ∷ b'N' ∷ b'I' ∷ b'T' ∷ b'Y' ∷ []
zone_str apps = b'A' ∷ b'P' ∷ b'P' ∷ b'S' ∷ []

-- `%03ld` of a number below 1000.
abbrev pub digits : ℕ → List ℕ
digits n = (48 + n / 100) ∷ (48 + n / 10 % 10) ∷ (48 + n % 10) ∷ []

abbrev pub tags : Level → Zone → List ℕ
tags level zone =
    (b'[' ∷ b'w' ∷ b'e' ∷ b'i' ∷ b']' ∷ b'[' ∷ [])
    ++ lvl_str level
    ++ (b']' ∷ b'[' ∷ [])
    ++ zone_str zone
    ++ (b']' ∷ 32 ∷ [])

-- The prefix, with the stamp if `localtime_r` and `strftime` give one, and the milliseconds.
unfoldable pub prefix_text : Option (List ℕ) → ℕ → Level → Zone → List ℕ
prefix_text none ms level zone = tags level zone
prefix_text (some stamp) ms level zone =
    stamp ++ (b'.' ∷ []) ++ digits ms ++ (32 ∷ []) ++ tags level zone

-- What `snprintf` leaves of a text in a buffer of a size, less its NUL.
abbrev pub printed : ℕ → List ℕ → List ℕ
printed size text = take (size - 1) text

-- The line after the two calls: the message goes behind the prefix, into what is left.
unfoldable pub line_text : List ℕ → List ℕ → List ℕ
line_text prefix message =
    let off = prefix_len (pos (length prefix)) in
    printed line_size prefix ++ printed (line_size - off) message

-- `wei_util_print` with a format that is there, and what `fwrite` writes: the log afterwards, and the
-- line that goes to stdout and to the file.
unfoldable pub print_line :
    Bool → (ℕ → ℕ) → Level → Zone → Option (List ℕ) → ℕ → List ℕ → Log → Log × Option (List ℕ)
unfolding line_text prefix_text file_write
print_line open_ok written level zone stamp ms message log =
    let line = line_text (prefix_text stamp ms level zone) message in
    if ltb (level_rank level) (level_rank min_level)
    then (log, none)
    else (file_write open_ok written log (length line), some line)

take-append : (n : ℕ) (xs ys : List ℕ) → take n (xs ++ ys) ≡ take n xs ++ take (n - length xs) ys
take-append zero xs ys = let e : 0 ≡ 0 - length xs = omega arith in ap (λ k. take k ys) e
take-append (suc n) [] ys = let e : suc n ≡ suc n - 0 = omega arith in ap (λ k. take k ys) e
take-append (suc n) (x ∷ xs) ys =
    let e : n - length xs ≡ suc n - suc (length xs) = omega arith in
    ap (◌∷◌ x) (take-append n xs ys ∙ ap (λ k. take n xs ++ take k ys) e)

length-take :
    (n : ℕ) (xs : List ℕ) → length (take n xs) ≡ (if ltb n (length xs) then n else length xs)
length-take zero xs = ground arith
length-take (suc n) [] = ground arith
length-take (suc n) (x ∷ xs) = ground (arith, length-take n xs)

length-printed :
    (avail : ℕ) (text : List ℕ)
    → 0 < avail
    → length (printed avail text) ≡ message_len (pos (length text)) avail
length-printed avail text some_left = ground (arith, length-take (avail - 1) text)

prefix_len-lt : (n : ℕ) → prefix_len (pos n) < line_size
prefix_len-lt n = ground arith

-- A line is what fits 1023 bytes of the prefix followed by the message, and its length is the one that
-- the code computes from what the two calls return.
pub line_text-take :
    (prefix message : List ℕ)
    → (line_text prefix message ≡ take (line_size - 1) (prefix ++ message))
      × (length (line_text prefix message) ≡ line_len (pos (length prefix)) (pos (length message)))
unfolding line_text line_len
line_text-take prefix message =
    let off = prefix_len (pos (length prefix)) in
    let left : line_size - off - 1 ≡ line_size - 1 - length prefix = ground arith in
    let short = prefix_len-lt (length prefix) in
    let e = length-printed (line_size - off) message (omega (arith, short)) in
    (
      ap (λ k. take (line_size - 1) prefix ++ take k message) left
          ∙ sym (take-append (line_size - 1) prefix message),
      length-append (printed line_size prefix) _
          ∙ ap (λ k. k + length (printed (line_size - off) message))
              (length-take (line_size - 1) prefix)
          ∙ ap (λ k. off + k) e,
    )
