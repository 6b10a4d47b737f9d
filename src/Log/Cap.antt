-- ===== src/Log/Cap.antt =====
-- The lengths of a line and of the file of source/wei_util.c.
use wei.Base.{ℕ, ◌+◌, ◌≤◌, ◌<◌, ◌≡◌, refl, true, List, [], ◌∷◌, arith}
use wei.Base.Int.{ℤ}
use wei.Log.{Log, no_log, file_max_bytes, line_size, file_write, line_len, Print, print}

line_len-lt : (prefix message : ℤ) → line_len prefix message < line_size
unfolding line_len
line_len-lt prefix message = ground arith

-- While the file is open the counter is its size, and the size is at most a line over the cap.
pub record IsCapped (log : Log) : Type 0 where
  pub counted : log.is_open ≡ true → log.bytes ≡ log.file
  pub capped : log.file < file_max_bytes + line_size

print-IsCapped :
    (p : Print) (log : Log) → ((n : ℕ) → p.written n ≤ n) → IsCapped log → IsCapped (print p log)
unfolding print file_write
print-IsCapped p log most w =
    let len = line_len p.prefix p.message in
    let short = line_len-lt p.prefix p.message in
    let wrote = most len in record { counted = ground arith; capped = ground arith }

-- The prints in order.
unfoldable pub prints : List Print → Log → Log
prints [] log = log
prints (p ∷ ps) log = prints ps (print p log)

abbrev pub WritesAtMost : List Print → Type 0
WritesAtMost [] = Unit
WritesAtMost (p ∷ ps) = ((n : ℕ) → p.written n ≤ n) × WritesAtMost ps

prints-IsCapped :
    (ps : List Print) (log : Log) → WritesAtMost ps → IsCapped log → IsCapped (prints ps log)
unfolding prints
prints-IsCapped [] log most w = w
prints-IsCapped (p ∷ ps) log (first, rest) w =
    prints-IsCapped ps (print p log) rest (print-IsCapped p log first w)

-- If no write writes more than it is given: after any prints the log file has less than 8 MiB and
-- 1024 bytes.
pub prints_capped :
    (ps : List Print) → WritesAtMost ps → (prints ps no_log).file < file_max_bytes + line_size
prints_capped ps most =
    (prints-IsCapped ps no_log most (record { counted = λ on. refl; capped = omega arith })).capped
