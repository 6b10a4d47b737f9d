-- ===== src/Log/Examples.antt =====
-- A log of three lines.
use wei.Base.{◌+◌, ◌<◌, arith, true, [], ◌∷◌}
use wei.Base.Int.{pos}
use wei.Log.{Print, file_max_bytes, line_size, no_log}
use wei.Log.Cap.{prints, prints_capped}

abbrev line : Print
line = record {
  admitted = true;
  open_ok = true;
  written = λ n. n;
  prefix = pos 40;
  message = pos 2000;
}

prints_capped_example : (prints (line ∷ line ∷ line ∷ []) no_log).file < file_max_bytes + line_size
prints_capped_example =
    prints_capped (line ∷ line ∷ line ∷ [])
      ((λ n. omega arith, (λ n. omega arith, (λ n. omega arith, tt))))
