-- ===== src/Double/Special.antt =====
-- A model of the facts in which NaN and the infinities are values: numbers of thousandths that overflow
-- beyond 2^128, with the products and quotients of IEEE 754 on what is not finite.
pub mod Laws
use wei.Base.{
  refl, ℕ, zero, suc, ◌+◌, ◌-◌, ◌*◌, ◌/◌, ◌%◌, ◌^◌, ◌≤◌, ◌<◌, ◌≡◌, Bool, true, false, arith,
  if◌then◌else◌,
}
use wei.Base.Int.{ℤ, pos, negsuc, ◌≤ℤ◌, ◌+ℤ◌, ◌-ℤ◌, neg, ltb_ℤ, leb_ℤ}
use wei.Double.{Double}
use wei.Double.Fixed.{fixed, mul_fixed, div_fixed, sqrt_fixed, exp_fixed, lround_fixed}

pub data Value : Type 0 where
  nan low high : Value
  fin : ℤ → Value

abbrev pub limit : ℕ
limit = 2 ^ 128 * 1000

-- A number, or the infinity that it overflows to.
unfoldable pub held : ℤ → Value
held n = if ltb_ℤ (pos limit) n then high else if ltb_ℤ n (negsuc (limit - 1)) then low else fin n

-- An infinity of a sign.
abbrev pub infinity : Bool → Value
infinity true = high
infinity false = low

abbrev pub opposite : Value → Value
opposite nan = nan
opposite low = high
opposite high = low
opposite (fin a) = fin (neg a)

unfoldable pub sum : Value → Value → Value
unfolding held
sum nan y = nan
sum low nan = nan
sum low low = low
sum low high = nan
sum low (fin b) = low
sum high nan = nan
sum high low = nan
sum high high = high
sum high (fin b) = high
sum (fin a) nan = nan
sum (fin a) low = low
sum (fin a) high = high
sum (fin a) (fin b) = held (a +ℤ b)

unfoldable pub difference : Value → Value → Value
unfolding held
difference nan y = nan
difference low nan = nan
difference low low = nan
difference low high = low
difference low (fin b) = low
difference high nan = nan
difference high low = high
difference high high = nan
difference high (fin b) = high
difference (fin a) nan = nan
difference (fin a) low = high
difference (fin a) high = low
difference (fin a) (fin b) = held (a -ℤ b)

-- An infinity times a finite number, by the sign that a positive number gives.
abbrev pub scaled_infinity : Bool → ℤ → Value
scaled_infinity b (pos zero) = nan
scaled_infinity b (pos (suc n)) = infinity b
scaled_infinity true (negsuc n) = low
scaled_infinity false (negsuc n) = high

unfoldable pub product : Value → Value → Value
unfolding held
product nan y = nan
product low nan = nan
product low low = high
product low high = low
product low (fin b) = scaled_infinity false b
product high nan = nan
product high low = low
product high high = high
product high (fin b) = scaled_infinity true b
product (fin a) nan = nan
product (fin a) low = scaled_infinity false a
product (fin a) high = scaled_infinity true a
product (fin a) (fin b) = held (mul_fixed a b)

-- A finite number over another: over zero, an infinity or NaN.
abbrev pub shared : ℤ → ℤ → Value
shared a (pos zero) = scaled_infinity true a
shared a (pos (suc n)) = held (div_fixed a (pos (suc n)))
shared a (negsuc n) = held (div_fixed a (negsuc n))

unfoldable pub quotient : Value → Value → Value
unfolding held
quotient nan y = nan
quotient low nan = nan
quotient low low = nan
quotient low high = nan
quotient low (fin (pos n)) = low
quotient low (fin (negsuc n)) = high
quotient high nan = nan
quotient high low = nan
quotient high high = nan
quotient high (fin (pos n)) = high
quotient high (fin (negsuc n)) = low
quotient (fin a) nan = nan
quotient (fin a) low = fin (pos 0)
quotient (fin a) high = fin (pos 0)
quotient (fin a) (fin b) = shared a b

-- Every comparison with NaN is false.
unfoldable pub less : Value → Value → Bool
less nan y = false
less low nan = false
less low low = false
less low high = true
less low (fin b) = true
less high y = false
less (fin a) nan = false
less (fin a) low = false
less (fin a) high = true
less (fin a) (fin b) = ltb_ℤ a b

unfoldable pub at_most : Value → Value → Bool
at_most nan y = false
at_most low nan = false
at_most low low = true
at_most low high = true
at_most low (fin b) = true
at_most high nan = false
at_most high low = false
at_most high high = true
at_most high (fin b) = false
at_most (fin a) nan = false
at_most (fin a) low = false
at_most (fin a) high = true
at_most (fin a) (fin b) = leb_ℤ a b

abbrev pub square_root : Value → Value
square_root nan = nan
square_root low = nan
square_root high = high
square_root (fin (pos n)) = fin (sqrt_fixed (pos n))
square_root (fin (negsuc n)) = nan

abbrev pub exponential : Value → Value
exponential nan = nan
exponential low = fin (pos 0)
exponential high = high
exponential (fin a) = held (exp_fixed a)

abbrev pub rounded : Value → ℤ
rounded nan = pos 0
rounded low = pos 0
rounded high = pos 0
rounded (fin a) = lround_fixed a

abbrev pub special : Double Value
special = record {
  of_ℤ = λ a. held (fixed.of_ℤ a);
  half = fin (pos 500);
  neg = opposite;
  add = sum;
  sub = difference;
  mul = product;
  div = quotient;
  lt = less;
  le = at_most;
  sqrt = square_root;
  exp = exponential;
  lround = rounded;
  to_u8 = λ x. elim x [ nan ↦ 0 | low ↦ 0 | high ↦ 0 | fin a ↦ fixed.to_u8 a ];
  to_i32 = λ x. elim x [ nan ↦ pos 0 | low ↦ pos 0 | high ↦ pos 0 | fin a ↦ fixed.to_i32 a ];
}

-- What IEEE 754 makes of these.
inf_times_zero : (product high (fin (pos 0)) ≡ nan) × (quotient high high ≡ nan)
unfolding product quotient
inf_times_zero = (refl, refl)
