-- ===== src/Double/Fixed.antt =====
-- A model of the facts: fixed-point numbers of thousandths, with a monotone stand-in for `exp`. It
-- runs, so that the scorer can be evaluated on concrete records.
use native.Mathlib.Nat.{le_refl, le_trans, le-div_iff_mul-le, div-mul-le_self}
use wei.Base.{ℕ, zero, suc, ◌+◌, ◌*◌, ◌/◌, ◌%◌, ◌^◌, ◌≤◌, ◌<◌, ◌≡◌, true, arith, leb, if◌then◌else◌}
use wei.Base.Int.{ℤ, pos, negsuc, ◌+ℤ◌, ◌-ℤ◌, neg, sub_ℕ, ltb_ℤ, leb_ℤ}
use wei.Double.{Double, IsIeee, IsUnit, IsSmall}

abbrev scaled : ℤ → ℤ
scaled (pos n) = pos (n * 1000)
scaled (negsuc n) = negsuc (n * 1000 + 999)

abbrev minus : ℕ → ℤ
minus n = sub_ℕ 0 n

unfoldable pub mul_fixed : ℤ → ℤ → ℤ
mul_fixed (pos a) (pos b) = pos (a * b / 1000)
mul_fixed (pos a) (negsuc b) = minus (a * suc b / 1000)
mul_fixed (negsuc a) (pos b) = minus (suc a * b / 1000)
mul_fixed (negsuc a) (negsuc b) = pos (suc a * suc b / 1000)

unfoldable pub div_fixed : ℤ → ℤ → ℤ
div_fixed (pos a) (pos b) = pos (a * 1000 / b)
div_fixed (pos a) (negsuc b) = minus (a * 1000 / suc b)
div_fixed (negsuc a) (pos b) = minus (suc a * 1000 / b)
div_fixed (negsuc a) (negsuc b) = pos (suc a * 1000 / suc b)

-- The largest number up to `r` whose square is at most `n`.
unfoldable pub root : ℕ → ℕ → ℕ
root zero n = 0
root (suc r) n = let rest = root r n in if leb (suc r * suc r) n then suc r else rest

unfoldable pub sqrt_fixed : ℤ → ℤ
unfolding root
sqrt_fixed (pos n) = pos (root (n + 1000) (n * 1000))
sqrt_fixed (negsuc n) = pos 0

unfoldable pub exp_fixed : ℤ → ℤ
exp_fixed (pos n) = pos (n + 1000)
exp_fixed (negsuc n) = pos (1000000 / (n + 1001))

unfoldable pub lround_fixed : ℤ → ℤ
lround_fixed (pos n) = pos ((n + 500) / 1000)
lround_fixed (negsuc n) = minus ((n + 501) / 1000)

abbrev u8_fixed : ℤ → ℕ
u8_fixed (pos n) = n / 1000 % 256
u8_fixed (negsuc n) = 0

abbrev i32_fixed : ℤ → ℤ
i32_fixed (pos n) = pos (n / 1000)
i32_fixed (negsuc n) = minus (suc n / 1000)

abbrev pub fixed : Double ℤ
fixed = record {
  of_ℤ = scaled;
  half = pos 500;
  neg = neg;
  add = ◌+ℤ◌;
  sub = ◌-ℤ◌;
  mul = mul_fixed;
  div = div_fixed;
  lt = ltb_ℤ;
  le = leb_ℤ;
  sqrt = sqrt_fixed;
  exp = exp_fixed;
  lround = lround_fixed;
  to_u8 = u8_fixed;
  to_i32 = i32_fixed;
}

root_sq : (r n : ℕ) → root r n * root r n ≤ n
unfolding root
root_sq zero n = omega arith
root_sq (suc r) n = ground (arith, root_sq r n)

-- The rounded product of two numbers, from a bound on each.
product_le : (a b m n : ℕ) → a ≤ m → b ≤ n → a * b ≤ m * n
product_le a b m n p q = grind arith

scale_le : (a b : ℕ) → b ≤ 1000 → a * b / 1000 ≤ a
scale_le a b h = omega (arith, product_le a b a 1000 (omega arith) h)

times_le : (a m n : ℕ) → a ≤ m * 1000 → a * (n * 1000) / 1000 ≤ m * n * 1000
times_le a m n h = omega (arith, product_le a n (m * 1000) n h (omega arith))

quotient_le : (a b : ℕ) → a ≤ b → 0 < b → a * 1000 / b ≤ 1000
quotient_le a b h p = grind arith

share_le : (a n : ℕ) → a * 1000 / (suc n * 1000) ≤ a
share_le a n = grind arith

reciprocal_mono : (a b : ℕ) → b ≤ a → 1000000 / (a + 1001) ≤ 1000000 / (b + 1001)
reciprocal_mono a b h =
    let q = 1000000 / (a + 1001) in
    (le-div_iff_mul-le (omega arith)).1 (
      le_trans (product_le q (b + 1001) q (a + 1001) (le_refl q) (omega arith))
        (div-mul-le_self 1000000 (a + 1001)))

square_le : (r : ℕ) → r * r ≤ 1000000 → r ≤ 1000
square_le r h = grind arith

root_le : (a : ℕ) → a ≤ 1000 → root (a + 1000) (a * 1000) ≤ 1000
root_le a h = square_le _ (le_trans (root_sq (a + 1000) (a * 1000)) (omega arith))

IsUnit-of_le : (r : ℕ) → r ≤ 1000 → IsUnit fixed (pos r)
IsUnit-of_le r h = ground arith

le_of_unit : (r : ℕ) → IsUnit fixed (pos r) → r ≤ 1000
le_of_unit r u = ground arith

mul_scale_lem :
    (a b : ℤ)
    → leb_ℤ (pos 0) a ≡ true
    → leb_ℤ a (pos (2 ^ 64 * 1000)) ≡ true
    → IsUnit fixed b
    → (leb_ℤ (pos 0) (mul_fixed a b) ≡ true) × (leb_ℤ (mul_fixed a b) a ≡ true)
unfolding mul_fixed
mul_scale_lem (pos a) (pos b) p q u = ground (arith, scale_le a b)
mul_scale_lem (pos a) (negsuc b) p q u = absurd (ground arith)
mul_scale_lem (negsuc a) b p q u = absurd (ground arith)

mul_le_lem :
    (a : ℤ) (m n : ℕ)
    → m < 2 ^ 53
    → n < 2 ^ 53
    → leb_ℤ (pos 0) a ≡ true
    → leb_ℤ a (pos (m * 1000)) ≡ true
    → (leb_ℤ (pos 0) (mul_fixed a (pos (n * 1000))) ≡ true)
      × (leb_ℤ (mul_fixed a (pos (n * 1000))) (pos (m * n * 1000)) ≡ true)
unfolding mul_fixed
mul_le_lem (pos a) m n mt lt p q = ground (arith, times_le a m n)
mul_le_lem (negsuc a) m n mt lt p q = absurd (ground arith)

mul_neg_lem :
    (k : ℕ) (p : ℤ)
    → k < 2 ^ 53
    → IsUnit fixed p
    → (leb_ℤ (scaled (negsuc k)) (mul_fixed (scaled (negsuc k)) p) ≡ true)
      × (leb_ℤ (mul_fixed (scaled (negsuc k)) p) (pos 0) ≡ true)
unfolding mul_fixed
mul_neg_lem k (pos p) lt u = ground (arith, scale_le (suc (k * 1000 + 999)) p)
mul_neg_lem k (negsuc p) lt u = absurd (ground arith)

div_unit_lem :
    (a b : ℤ)
    → IsSmall fixed a
    → leb_ℤ (pos 0) a ≡ true
    → leb_ℤ a b ≡ true
    → ltb_ℤ (pos 0) b ≡ true
    → IsUnit fixed (div_fixed a b)
unfolding div_fixed
div_unit_lem (pos a) (pos b) s p q r = ground (arith, quotient_le a b)
div_unit_lem (pos a) (negsuc b) s p q r = absurd (ground arith)
div_unit_lem (negsuc a) b s p q r = absurd (ground arith)

div_le_lem :
    (a : ℤ) (m n : ℕ)
    → m ≤ 2 ^ 64
    → n < 2 ^ 53
    → leb_ℤ (pos 0) a ≡ true
    → leb_ℤ a (pos (m * 1000)) ≡ true
    → (leb_ℤ (pos 0) (div_fixed a (pos (suc n * 1000))) ≡ true)
      × (leb_ℤ (div_fixed a (pos (suc n * 1000))) (pos (m * 1000)) ≡ true)
unfolding div_fixed
div_le_lem (pos a) m n mt nt p q = ground (arith, share_le a n)
div_le_lem (negsuc a) m n mt nt p q = absurd (ground arith)

sqrt_unit_lem : (a : ℤ) → IsUnit fixed a → IsUnit fixed (sqrt_fixed a)
unfolding sqrt_fixed
sqrt_unit_lem (pos a) u = IsUnit-of_le (root (a + 1000) (a * 1000)) (root_le a (le_of_unit a u))
sqrt_unit_lem (negsuc a) u = absurd (ground arith)

exp_mono_lem : (a b : ℤ) → leb_ℤ a b ≡ true → leb_ℤ (exp_fixed a) (exp_fixed b) ≡ true
unfolding exp_fixed
exp_mono_lem (pos a) (pos b) h = ground arith
exp_mono_lem (pos a) (negsuc b) h = absurd (ground arith)
exp_mono_lem (negsuc a) (pos b) h = ground (arith, reciprocal_mono a 0)
exp_mono_lem (negsuc a) (negsuc b) h = ground (arith, reciprocal_mono a b)

exp_nonpos_lem : (a : ℤ) → leb_ℤ a (pos 0) ≡ true → leb_ℤ (exp_fixed a) (pos 1000) ≡ true
unfolding exp_fixed
exp_nonpos_lem (pos a) h = ground arith
exp_nonpos_lem (negsuc a) h = ground (arith, reciprocal_mono a 0)

exp_neg_lem : (k : ℕ) → ltb_ℤ (exp_fixed (scaled (negsuc k))) (pos 1000) ≡ true
unfolding exp_fixed
exp_neg_lem k = ground (arith, reciprocal_mono (k * 1000 + 999) 999)

pub fixed-IsIeee : IsIeee fixed
unfolding ◌+ℤ◌ ◌-ℤ◌ neg mul_fixed div_fixed exp_fixed lround_fixed
fixed-IsIeee = record {
  le_trans = λ x y z p q. ground arith;
  num_of_le = λ x y p. ground arith;
  le_total = λ x y p q r. ground arith;
  lt-not-le = λ x y p q. ground arith;
  of_ℤ_mono = λ a b p. ground arith;
  of_ℕ_pos = λ n. ground arith;
  add_le = λ a b m lt p q u. ground arith;
  add_num = λ a b p q. ground arith;
  sub_num = λ a b p q. ground arith;
  one_add = λ a p. ground arith;
  sub_exact = λ a b p q. ground arith;
  one_sub = λ a b p q r. ground arith;
  one_sub_pos = λ b p q. ground arith;
  neg_num = λ a p. ground arith;
  mul_scale = mul_scale_lem;
  mul_le = mul_le_lem;
  mul_num = λ a b p q. ground arith;
  mul_neg = mul_neg_lem;
  quotient_num = λ v lo hi p q r s. ground arith;
  div_unit = div_unit_lem;
  div_le = div_le_lem;
  sqrt_unit = sqrt_unit_lem;
  exp_nonneg = λ a p. ground arith;
  exp_mono = exp_mono_lem;
  exp_nonpos = exp_nonpos_lem;
  exp_neg = exp_neg_lem;
  lround_le = λ a n lt p q. ground arith;
  to_u8_le = λ a n lt p q. ground arith;
}
