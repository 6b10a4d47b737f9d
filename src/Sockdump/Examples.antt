-- ===== src/Sockdump/Examples.antt =====
-- A frame of one entry of 18 bytes, and what lies behind it.
use wei.Base.{ℕ, ◌+◌, ◌<◌, ◌≡◌, refl, arith, List, [], ◌∷◌, get_or}
use wei.Sockdump.{describe}
use wei.Sockdump.Bounds.{Agree, describe-Agree}

abbrev station : List ℕ
station = 1 ∷ 1 ∷ 18 ∷ 0 ∷ 18 ∷ 0 ∷ 48 ∷ 50 ∷ 58 ∷ []

abbrev zeroed : ℕ → ℕ
zeroed i = get_or station i 0

abbrev dirty : ℕ → ℕ
dirty i = wei.Base.if◌then◌else◌ (wei.Base.ltb i 24) (zeroed i) 255

same : Agree 24 zeroed dirty
same i h = ground arith

describe-Agree_example : describe zeroed 24 ≡ describe dirty 24
describe-Agree_example = describe-Agree zeroed dirty 24 same (omega arith) (omega arith)
