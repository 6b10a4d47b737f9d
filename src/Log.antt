-- ===== src/Log.antt =====
-- source/wei_util.c: the debug log, a file in memory that is started again once it has reached its cap.
pub mod Cap
pub mod Text
mod Examples
use wei.Base.{
  ℕ, ◌+◌, ◌-◌, ◌*◌, Bool, true, false, not, Option, none, some, List, [], ◌∷◌, if◌then◌else◌, ltb,
  leb,
}
use wei.Base.Int.{ℤ, pos, negsuc}

-- Whether the file is open, and `wei_log_bytes`; beside them the bytes that are in the file.
pub record Log : Type 0 where
  pub is_open : Bool
  pub bytes : ℕ
  pub file : ℕ

abbrev pub no_log : Log
no_log = record { is_open = false; bytes = 0; file = 0 }

abbrev pub file_max_bytes : ℕ
file_max_bytes = 8 * 1024 * 1024

abbrev pub line_size : ℕ
line_size = 1024

-- A `fopen` or `freopen` for writing that succeeds leaves an empty file.
abbrev pub reopened : Bool → Log → Log
reopened true log = record { is_open = true; bytes = 0; file = 0 }
reopened false log = record log { is_open = false; bytes = 0 }

-- `open_ok` is whether the file can be opened, `written` how much of a length `fwrite` writes.
unfoldable pub file_write : Bool → (ℕ → ℕ) → Log → ℕ → Log
file_write open_ok written log len =
    let ready =
      if not log.is_open
      then reopened open_ok log
      else if leb file_max_bytes log.bytes
      then reopened open_ok log
      else log in
    if not ready.is_open
    then ready
    else if ltb 0 len
    then record ready { bytes = ready.bytes + written len; file = ready.file + written len }
    else ready

-- The clamp of what `snprintf` returns for the prefix.
abbrev pub prefix_len : ℤ → ℕ
prefix_len (negsuc n) = 0
prefix_len (pos n) = if ltb (line_size - 1) n then line_size - 1 else n

abbrev pub message_len : ℤ → ℕ → ℕ
message_len (negsuc n) avail = 0
message_len (pos n) avail = if ltb n avail then n else avail - 1

-- The length of a line, from what the calls for the prefix and for the message return.
unfoldable pub line_len : ℤ → ℤ → ℕ
line_len prefix message = let off = prefix_len prefix in off + message_len message (line_size - off)

-- A call of `wei_util_print`: whether the format is there and the level not below the least one, and
-- its environment.
pub record Print : Type 0 where
  pub admitted : Bool
  pub open_ok : Bool
  pub written : ℕ → ℕ
  pub prefix : ℤ
  pub message : ℤ

unfoldable pub print : Print → Log → Log
unfolding file_write line_len
print p log =
    if not p.admitted then log else file_write p.open_ok p.written log (line_len p.prefix p.message)
