-- ===== src/Double.antt =====
-- The C type `double` and the functions of <math.h> that the scorer calls: a type with operations,
-- and the facts of IEEE 754 arithmetic and of libm that the bounds rest on.
pub mod Fixed
pub mod Special
use wei.Base.{ℕ, suc, ◌+◌, ◌-◌, ◌*◌, ◌^◌, ◌≤◌, ◌<◌, ◌≡◌, Bool, true, false, not}
use wei.Base.Int.{ℤ, pos, negsuc, ◌≤ℤ◌, ◌<ℤ◌, ◌-ℤ◌}

pub record Double (D : Type 0) : Type 0 where
  -- A conversion from an integer, or a literal with no fraction.
  pub of_ℤ : ℤ → D
  -- The literal 0.5.
  pub half : D
  pub neg : D → D
  pub add : D → D → D
  pub sub : D → D → D
  pub mul : D → D → D
  pub div : D → D → D
  -- The tests `<` and `<=`.
  pub lt : D → D → Bool
  pub le : D → D → Bool
  pub sqrt : D → D
  pub exp : D → D
  pub lround : D → ℤ
  -- The casts to `uint8_t` and `int32_t`, toward zero.
  pub to_u8 : D → ℕ
  pub to_i32 : D → ℤ

module _ {D : Type 0} (d : Double D) where
  abbrev pub of_ℕ : ℕ → D
  of_ℕ n = d.of_ℤ (pos n)

  infix 4 ◌≼◌
  abbrev pub ◌≼◌ : D → D → Type 0
  x ≼ y = d.le x y ≡ true

  -- NaN is the value that is not `<=` itself.
  abbrev pub IsNum : D → Type 0
  IsNum x = x ≼ x

  -- At most 2^64 in magnitude.
  abbrev pub IsSmall : D → Type 0
  IsSmall x = (d.of_ℤ (negsuc (2 ^ 64 - 1)) ≼ x) × (x ≼ of_ℕ (2 ^ 64))

  -- In [0, 1].
  abbrev pub IsUnit : D → Type 0
  IsUnit x = (of_ℕ 0 ≼ x) × (x ≼ of_ℕ 1)

-- What IEEE 754 (round to nearest) and libm promise of the operations: the order is that of the
-- numbers, rounding is monotone, integers below 2^53 are exact, `exp` is monotone and positive. NaN
-- and the infinities are among the values: a product of infinity and 0 and a quotient of infinities
-- are NaN, so the laws on them bound their operands.
pub record IsIeee {D : Type 0} (d : Double D) : Type 0 where
  pub le_trans : (x y z : D) → d.le x y ≡ true → d.le y z ≡ true → d.le x z ≡ true
  pub num_of_le : (x y : D) → d.le x y ≡ true → IsNum d x × IsNum d y
  pub le_total : (x y : D) → IsNum d x → IsNum d y → d.le x y ≡ false → d.le y x ≡ true
  pub lt-not-le : (x y : D) → IsNum d x → IsNum d y → d.lt x y ≡ not (d.le y x)
  pub of_ℤ_mono : (a b : ℤ) → a ≤ℤ b → d.le (d.of_ℤ a) (d.of_ℤ b) ≡ true
  pub of_ℕ_pos : (n : ℕ) → d.lt (of_ℕ d 0) (of_ℕ d (suc n)) ≡ true
  -- Sums and differences.
  pub add_le :
      (a b : D) (m : ℕ)
      → m < 2 ^ 53
      → d.le (of_ℕ d 0) a ≡ true
      → d.le a (of_ℕ d m) ≡ true
      → IsUnit d b
      → (d.le (of_ℕ d 0) (d.add a b) ≡ true) × (d.le (d.add a b) (of_ℕ d (m + 1)) ≡ true)
  pub add_num : (a b : D) → IsSmall d a → IsNum d b → IsNum d (d.add a b)
  pub sub_num : (a b : D) → IsSmall d a → IsSmall d b → IsNum d (d.sub a b)
  pub one_add : (a : D) → d.le (of_ℕ d 0) a ≡ true → d.le (of_ℕ d 1) (d.add (of_ℕ d 1) a) ≡ true
  pub sub_exact : (a b : ℕ) → b ≤ a → a < 2 ^ 53 → d.sub (of_ℕ d a) (of_ℕ d b) ≡ of_ℕ d (a - b)
  pub one_sub :
      (a b : D)
      → IsUnit d a
      → IsUnit d b
      → d.le a b ≡ true
      → (d.le (of_ℕ d 0) (d.sub (of_ℕ d 1) b) ≡ true)
        × (d.le (d.sub (of_ℕ d 1) b) (d.sub (of_ℕ d 1) a) ≡ true)
        × (d.le (d.sub (of_ℕ d 1) a) (of_ℕ d 1) ≡ true)
  pub one_sub_pos :
      (b : D)
      → d.le (of_ℕ d 0) b ≡ true
      → d.lt b (of_ℕ d 1) ≡ true
      → d.lt (of_ℕ d 0) (d.sub (of_ℕ d 1) b) ≡ true
  pub neg_num : (a : D) → IsNum d a → IsNum d (d.neg a)
  -- Products.
  pub mul_scale :
      (a b : D)
      → d.le (of_ℕ d 0) a ≡ true
      → d.le a (of_ℕ d (2 ^ 64)) ≡ true
      → IsUnit d b
      → (d.le (of_ℕ d 0) (d.mul a b) ≡ true) × (d.le (d.mul a b) a ≡ true)
  pub mul_le :
      (a : D) (m n : ℕ)
      → m < 2 ^ 53
      → n < 2 ^ 53
      → d.le (of_ℕ d 0) a ≡ true
      → d.le a (of_ℕ d m) ≡ true
      → (d.le (of_ℕ d 0) (d.mul a (of_ℕ d n)) ≡ true)
        × (d.le (d.mul a (of_ℕ d n)) (of_ℕ d (m * n)) ≡ true)
  pub mul_num : (a b : D) → IsSmall d a → IsSmall d b → IsNum d (d.mul a b)
  pub mul_neg :
      (k : ℕ) (p : D)
      → k < 2 ^ 53
      → IsUnit d p
      → (d.le (d.of_ℤ (negsuc k)) (d.mul (d.of_ℤ (negsuc k)) p) ≡ true)
        × (d.le (d.mul (d.of_ℤ (negsuc k)) p) (of_ℕ d 0) ≡ true)
  -- Quotients.
  pub quotient_num :
      (v lo hi : D)
      → IsSmall d v
      → IsSmall d lo
      → IsSmall d hi
      → d.lt (of_ℕ d 0) (d.sub hi lo) ≡ true
      → IsNum d (d.div (d.sub v lo) (d.sub hi lo))
  pub div_unit :
      (a b : D)
      → IsSmall d a
      → d.le (of_ℕ d 0) a ≡ true
      → d.le a b ≡ true
      → d.lt (of_ℕ d 0) b ≡ true
      → IsUnit d (d.div a b)
  pub div_le :
      (a : D) (m n : ℕ)
      → m ≤ 2 ^ 64
      → n < 2 ^ 53
      → d.le (of_ℕ d 0) a ≡ true
      → d.le a (of_ℕ d m) ≡ true
      → (d.le (of_ℕ d 0) (d.div a (of_ℕ d (suc n))) ≡ true)
        × (d.le (d.div a (of_ℕ d (suc n))) (of_ℕ d m) ≡ true)
  -- libm, and the casts.
  pub sqrt_unit : (a : D) → IsUnit d a → IsUnit d (d.sqrt a)
  pub exp_nonneg : (a : D) → IsNum d a → d.le (of_ℕ d 0) (d.exp a) ≡ true
  pub exp_mono : (a b : D) → d.le a b ≡ true → d.le (d.exp a) (d.exp b) ≡ true
  pub exp_nonpos : (a : D) → d.le a (of_ℕ d 0) ≡ true → d.le (d.exp a) (of_ℕ d 1) ≡ true
  pub exp_neg : (k : ℕ) → d.lt (d.exp (d.of_ℤ (negsuc k))) (of_ℕ d 1) ≡ true
  pub lround_le :
      (a : D) (n : ℕ)
      → n < 2 ^ 31
      → d.le (of_ℕ d 0) a ≡ true
      → d.le a (of_ℕ d n) ≡ true
      → (pos 0 ≤ℤ d.lround a) × (d.lround a ≤ℤ pos n)
  pub to_u8_le :
      (a : D) (n : ℕ)
      → n < 255
      → d.le (of_ℕ d 0) a ≡ true
      → d.le a (of_ℕ d n) ≡ true
      → d.to_u8 (d.add a d.half) ≤ n
