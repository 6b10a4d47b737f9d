-- ===== src/Base/Mac.antt =====
-- A hardware address: the six bytes of a `uint8_t mac[6]`, compared by `memcmp`.
use Prim.Native.Nat.{ℕ}
use mathlib.Core.Path.{◌≡◌, refl}
use mathlib.Core.Logic.{◌↔◌}
use mathlib.Core.Bool.{Bool, true, false, ◌&&◌}
use mathlib.Core.List.{List, [], ◌∷◌}
use native.Mathlib.Omega.{arith}
use wei.Base.Tests.{◌==◌}

abbrev pub Mac : Type 0
Mac = List ℕ

abbrev pub zero_mac : Mac
zero_mac = 0 ∷ 0 ∷ 0 ∷ 0 ∷ 0 ∷ 0 ∷ []

-- `memcmp(a, b, 6) == 0`.
unfoldable pub same_mac : Mac → Mac → Bool
same_mac [] [] = true
same_mac [] (y ∷ ys) = false
same_mac (x ∷ xs) [] = false
same_mac (x ∷ xs) (y ∷ ys) = x == y && same_mac xs ys

pub same_mac_eq : (a b : Mac) → same_mac a b ≡ true → a ≡ b
unfolding same_mac
same_mac_eq [] [] h = refl
same_mac_eq [] (y ∷ ys) h = ground arith
same_mac_eq (x ∷ xs) [] h = ground arith
same_mac_eq (x ∷ xs) (y ∷ ys) h = ground (arith, same_mac_eq xs ys)

pub same_mac_refl : (a : Mac) → same_mac a a ≡ true
unfolding same_mac
same_mac_refl [] = refl
same_mac_refl (x ∷ xs) = ground (arith, same_mac_refl xs)

pub same_mac_iff : (a b : Mac) → (same_mac a b ≡ true) ↔ (a ≡ b)
same_mac_iff a b = (same_mac_eq a b, λ e. ground (arith, same_mac_refl a))
