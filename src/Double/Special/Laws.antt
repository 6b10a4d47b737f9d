-- ===== src/Double/Special/Laws.antt =====
-- The facts hold where NaN and the infinities are values.
use wei.Base.{refl, ℕ, zero, suc, ◌+◌, ◌*◌, ◌^◌, ◌≤◌, ◌<◌, ◌≡◌, true, arith}
use wei.Base.Int.{ℤ, pos, negsuc, ◌+ℤ◌, ◌-ℤ◌, neg, leb_ℤ}
use wei.Double.{IsIeee, IsUnit, IsSmall, IsNum}
use wei.Double.Fixed.{fixed, fixed-IsIeee, mul_fixed, div_fixed, exp_fixed, lround_fixed}
use wei.Double.Special.{
  Value, nan, low, high, fin, limit, held, sum, difference, product, quotient, less, at_most,
  square_root, exponential, special,
}

-- The laws on finite numbers that stay so.
held_mono : (a b : ℤ) → leb_ℤ a b ≡ true → at_most (held a) (held b) ≡ true
unfolding held at_most
held_mono a b h = ground arith

held_fin :
    (a : ℤ) (n : ℕ)
    → n * 1000 ≤ limit
    → leb_ℤ (pos 0) a ≡ true
    → leb_ℤ a (pos (n * 1000)) ≡ true
    → held a ≡ fin a
unfolding held
held_fin a n h p q = ground arith

mul_scale_lem :
    (a b : Value)
    → at_most (fin (pos 0)) a ≡ true
    → at_most a (fin (pos (2 ^ 64 * 1000))) ≡ true
    → IsUnit special b
    → (at_most (fin (pos 0)) (product a b) ≡ true) × (at_most (product a b) a ≡ true)
unfolding held at_most product
mul_scale_lem (fin a) (fin b) p q u =
    let u' : IsUnit fixed b = ground (arith, u) in
    let r = fixed-IsIeee.mul_scale a b (ground (arith, p)) (ground (arith, q)) u' in
    ground (arith, r, q)
mul_scale_lem nan b p q u = absurd (ground arith)
mul_scale_lem low b p q u = absurd (ground arith)
mul_scale_lem high b p q u = absurd (ground arith)
mul_scale_lem (fin a) nan p q u = absurd (ground (arith, u))
mul_scale_lem (fin a) low p q u = absurd (ground (arith, u))
mul_scale_lem (fin a) high p q u = absurd (ground (arith, u))

mul_le_lem :
    (a : Value) (m n : ℕ)
    → m < 2 ^ 53
    → n < 2 ^ 53
    → at_most (fin (pos 0)) a ≡ true
    → at_most a (held (pos (m * 1000))) ≡ true
    → (at_most (fin (pos 0)) (product a (held (pos (n * 1000)))) ≡ true)
      × (at_most (product a (held (pos (n * 1000)))) (held (pos (m * n * 1000))) ≡ true)
unfolding held at_most product
mul_le_lem (fin a) m n mt nt p q =
    let hm : held (pos (m * 1000)) ≡ fin (pos (m * 1000)) = ground arith in
    let hn : held (pos (n * 1000)) ≡ fin (pos (n * 1000)) = ground arith in
    let r = fixed-IsIeee.mul_le a m n mt nt (ground (arith, p)) (ground (arith, q)) in
    rw hn (
      ground (
        arith,
        held_mono (pos 0) (mul_fixed a (pos (n * 1000))),
        held_mono (mul_fixed a (pos (n * 1000))) (pos (m * n * 1000)),
        r,
      ))
mul_le_lem nan m n mt nt p q = absurd (ground arith)
mul_le_lem low m n mt nt p q = absurd (ground arith)
mul_le_lem high m n mt nt p q = absurd (ground arith)

held-IsNum : (a : ℤ) → at_most (held a) (held a) ≡ true
unfolding held at_most
held-IsNum a = ground arith

mul_num_lem : (a b : Value) → IsSmall special a → IsSmall special b → IsNum special (product a b)
unfolding at_most product
mul_num_lem (fin a) (fin b) p q = held-IsNum (mul_fixed a b)
mul_num_lem nan b p q = absurd (ground (arith, p))
mul_num_lem low b p q = absurd (ground (arith, p))
mul_num_lem high b p q = absurd (ground (arith, p))
mul_num_lem (fin a) nan p q = absurd (ground (arith, q))
mul_num_lem (fin a) low p q = absurd (ground (arith, q))
mul_num_lem (fin a) high p q = absurd (ground (arith, q))

mul_neg_lem :
    (k : ℕ) (p : Value)
    → k < 2 ^ 53
    → IsUnit special p
    → (at_most (held (negsuc (k * 1000 + 999))) (product (held (negsuc (k * 1000 + 999))) p) ≡ true)
      × (at_most (product (held (negsuc (k * 1000 + 999))) p) (fin (pos 0)) ≡ true)
unfolding held at_most product
mul_neg_lem k (fin p) lt u =
    let hk : held (negsuc (k * 1000 + 999)) ≡ fin (negsuc (k * 1000 + 999)) = ground arith in
    let u' : IsUnit fixed p = ground (arith, u) in
    let r = fixed-IsIeee.mul_neg k p lt u' in rw hk (ground (arith, r))
mul_neg_lem k nan lt u = absurd (ground (arith, u))
mul_neg_lem k low lt u = absurd (ground (arith, u))
mul_neg_lem k high lt u = absurd (ground (arith, u))

div_unit_lem :
    (a b : Value)
    → IsSmall special a
    → at_most (fin (pos 0)) a ≡ true
    → at_most a b ≡ true
    → less (fin (pos 0)) b ≡ true
    → IsUnit special (quotient a b)
unfolding held at_most less quotient
div_unit_lem (fin a) (fin (pos (suc n))) s p q r =
    let s' : IsSmall fixed a = ground (arith, s) in
    let u = fixed-IsIeee.div_unit a (pos (suc n)) s' (ground arith) (ground arith) (ground arith) in
    ground (arith, u)
div_unit_lem (fin a) high s p q r = ground arith
div_unit_lem (fin a) nan s p q r = absurd (ground arith)
div_unit_lem (fin a) low s p q r = absurd (ground arith)
div_unit_lem (fin a) (fin (pos zero)) s p q r = absurd (ground arith)
div_unit_lem (fin a) (fin (negsuc n)) s p q r = absurd (ground arith)
div_unit_lem nan b s p q r = absurd (ground arith)
div_unit_lem low b s p q r = absurd (ground arith)
div_unit_lem high b s p q r = absurd (ground (arith, s))

div_le_lem :
    (a : Value) (m n : ℕ)
    → m ≤ 2 ^ 64
    → n < 2 ^ 53
    → at_most (fin (pos 0)) a ≡ true
    → at_most a (held (pos (m * 1000))) ≡ true
    → (at_most (fin (pos 0)) (quotient a (held (pos (suc n * 1000)))) ≡ true)
      × (at_most (quotient a (held (pos (suc n * 1000)))) (held (pos (m * 1000))) ≡ true)
unfolding held at_most quotient
div_le_lem (fin a) m n mt nt p q =
    let hn : held (pos (suc n * 1000)) ≡ fin (pos (suc (n * 1000 + 999))) = ground arith in
    let r = fixed-IsIeee.div_le a m n mt nt (ground arith) (ground arith) in
    rw hn (ground (arith, r))
div_le_lem nan m n mt nt p q = absurd (ground arith)
div_le_lem low m n mt nt p q = absurd (ground arith)
div_le_lem high m n mt nt p q = absurd (ground arith)

sqrt_unit_lem : (a : Value) → IsUnit special a → IsUnit special (square_root a)
unfolding held at_most
sqrt_unit_lem (fin (pos n)) u =
    let u' : IsUnit fixed (pos n) = ground (arith, u) in
    let r = fixed-IsIeee.sqrt_unit (pos n) u' in ground (arith, r)
sqrt_unit_lem (fin (negsuc n)) u = absurd (ground (arith, u))
sqrt_unit_lem nan u = absurd (ground (arith, u))
sqrt_unit_lem low u = absurd (ground (arith, u))
sqrt_unit_lem high u = absurd (ground (arith, u))

exp_nonneg_lem : (a : ℤ) → at_most (fin (pos 0)) (held (exp_fixed a)) ≡ true
unfolding held at_most exp_fixed
exp_nonneg_lem a = ground arith

exp_mono_lem : (a b : Value) → at_most a b ≡ true → at_most (exponential a) (exponential b) ≡ true
unfolding at_most
exp_mono_lem (fin a) (fin b) h =
    held_mono (exp_fixed a) (exp_fixed b) (fixed-IsIeee.exp_mono a b (ground arith))
exp_mono_lem nan b h = absurd (ground arith)
exp_mono_lem low nan h = absurd (ground arith)
exp_mono_lem low low h = refl
exp_mono_lem low high h = refl
exp_mono_lem low (fin b) h = exp_nonneg_lem b
exp_mono_lem high nan h = absurd (ground arith)
exp_mono_lem high low h = absurd (ground arith)
exp_mono_lem high high h = refl
exp_mono_lem high (fin b) h = absurd (ground arith)
exp_mono_lem (fin a) nan h = absurd (ground arith)
exp_mono_lem (fin a) low h = absurd (ground arith)
exp_mono_lem (fin a) high h = ground (arith, held-IsNum (exp_fixed a))

exp_nonpos_lem :
    (a : Value) → at_most a (fin (pos 0)) ≡ true → at_most (exponential a) (fin (pos 1000)) ≡ true
unfolding held at_most
exp_nonpos_lem (fin a) h = let r = fixed-IsIeee.exp_nonpos a (ground arith) in ground (arith, r)
exp_nonpos_lem nan h = absurd (ground arith)
exp_nonpos_lem low h = refl
exp_nonpos_lem high h = absurd (ground arith)

exp_neg_lem : (k : ℕ) → less (exponential (held (negsuc (k * 1000 + 999)))) (fin (pos 1000)) ≡ true
unfolding held less
exp_neg_lem k = let r = fixed-IsIeee.exp_neg k in ground (arith, r)

pub special-IsIeee : IsIeee special
unfolding held sum difference product quotient less at_most ◌+ℤ◌ ◌-ℤ◌ neg mul_fixed div_fixed
    exp_fixed lround_fixed
special-IsIeee = record {
  le_trans = λ x y z p q. ground arith;
  num_of_le = λ x y p. ground arith;
  le_total = λ x y p q r. ground arith;
  lt-not-le = λ x y p q. ground arith;
  of_ℤ_mono = λ a b p. ground arith;
  of_ℕ_pos = λ n. ground arith;
  add_le = λ a b m lt p q u. ground arith;
  add_num = λ a b p q. ground arith;
  sub_num = λ a b p q. ground arith;
  one_add = λ a p. ground arith;
  sub_exact = λ a b p q. ground arith;
  one_sub = λ a b p q r. ground arith;
  one_sub_pos = λ b p q. ground arith;
  neg_num = λ a p. ground arith;
  mul_scale = mul_scale_lem;
  mul_le = mul_le_lem;
  mul_num = mul_num_lem;
  mul_neg = mul_neg_lem;
  quotient_num = λ v lo hi p q r s. ground arith;
  div_unit = div_unit_lem;
  div_le = div_le_lem;
  sqrt_unit = sqrt_unit_lem;
  exp_nonneg = λ a p. ground arith;
  exp_mono = exp_mono_lem;
  exp_nonpos = exp_nonpos_lem;
  exp_neg = exp_neg_lem;
  lround_le = λ a n lt p q. ground arith;
  to_u8_le = λ a n lt p q. ground arith;
}
