-- ===== src/Scorer.antt =====
-- source/wei_conn_scorer.c: the stateless scoring kernel. The type `double` and the two sigmoid
-- coefficients of run_qmgr.h, LINK_QTY_B0 and LINK_QTY_B1, are parameters.
pub mod Bounds
pub mod Examples
use wei.Base.{
  ℕ, suc, ◌+◌, ◌*◌, ◌%◌, ◌^◌, Bool, true, false, ◌&&◌, ◌==◌, Option, none, some, List, [], ◌∷◌,
  if◌then◌else◌, length,
}
use wei.Base.Int.{ℤ, pos, negsuc, pos_part, neg_part}
use wei.Metric.{Metric, is_active, is_ok}
use wei.Double.{Double, of_ℕ}

-- `LINK_QTY_B0` and `LINK_QTY_B1`.
pub record Sigmoid (D : Type 0) : Type 0 where
  pub b0 : D
  pub b1 : D

-- `(uint8_t)` of a `long`: its value modulo 2^8.
abbrev pub u8_of_ℤ : ℤ → ℕ
u8_of_ℤ (pos n) = n % 2 ^ 8
u8_of_ℤ (negsuc n) = (255 * suc n) % 2 ^ 8

-- The sum of two counters is a `uint32_t`, which wraps.
abbrev pub frame_total : Metric → ℕ
frame_total m = (m.tx_frames + m.tx_err_frames) % 2 ^ 32

module _ {D : Type 0} (d : Double D) where
  open d use {neg, add, sub, mul, div, lt, le, sqrt, exp}

  -- The clamp of `unit` at both ends.
  abbrev pub clamp_unit : D → D
  clamp_unit unit =
      let low = if lt unit (of_ℕ d 0) then of_ℕ d 0 else unit in
      if lt (of_ℕ d 1) low then of_ℕ d 1 else low

  unfoldable pub normalize_metric : D → D → D → D
  normalize_metric value lo hi =
      let span = sub hi lo in
      if le span (of_ℕ d 0) then of_ℕ d 0 else clamp_unit (div (sub value lo) span)

  -- `for (i = 0; i < count; i++) accum += contributions[i]`.
  unfoldable pub sum_from : D → List D → D
  sum_from accum [] = accum
  sum_from accum (c ∷ cs) = sum_from (add accum c) cs

  -- The empty list stands for a NULL pointer too.
  unfoldable pub rms_reduce : List D → D
  unfolding sum_from
  rms_reduce [] = of_ℕ d 0
  rms_reduce (c ∷ cs) =
      let mean = div (sum_from (of_ℕ d 0) (c ∷ cs)) (of_ℕ d (length (c ∷ cs))) in
      if lt mean (of_ℕ d 0) then of_ℕ d 0 else sqrt mean

  -- The exponent, held within [-50, 50].
  abbrev pub clamp_exponent : D → D
  clamp_exponent e =
      let low = if lt e (d.of_ℤ (negsuc 49)) then d.of_ℤ (negsuc 49) else e in
      if lt (of_ℕ d 50) low then of_ℕ d 50 else low

  module _ (q : Sigmoid D) where
    unfoldable pub chanutil_weight : D → D → D
    chanutil_weight reduced chan_util =
        let exponent = neg (add q.b0 (mul q.b1 chan_util)) in
        let weight = div (of_ℕ d 1) (add (of_ℕ d 1) (exp (clamp_exponent exponent))) in
        mul reduced weight

  unfoldable pub standardize : D → D
  standardize weighted =
      let scaled = add (of_ℕ d 0) (mul weighted (sub (of_ℕ d 100) (of_ℕ d 0))) in
      let low = if lt scaled (of_ℕ d 0) then of_ℕ d 0 else scaled in
      if lt (of_ℕ d 100) low then of_ℕ d 100 else low

  unfoldable pub loss_percent : Metric → D
  loss_percent m =
      if frame_total m == 0
      then of_ℕ d 0
      else mul (div (of_ℕ d m.tx_err_frames) (of_ℕ d (frame_total m))) (of_ℕ d 100)

  -- Reward metrics contribute norm^2, the loss penalty 1 - norm^2.
  abbrev pub contributions : D → D → D → List D
  contributions snr phy per = mul snr snr ∷ mul phy phy ∷ sub (of_ℕ d 1) (mul per per) ∷ []

  module _ (q : Sigmoid D) where
    -- The pipeline below the gate of `wei_conn_scorer_score`.
    unfoldable pub score_of : Metric → ℕ
    unfolding normalize_metric rms_reduce chanutil_weight standardize loss_percent
    score_of m =
        let per_pct = loss_percent m in
        let snr = normalize_metric (d.of_ℤ m.link_snr_db) (of_ℕ d 0) (of_ℕ d 40) in
        let phy = normalize_metric (of_ℕ d m.phy_rate_kbps) (of_ℕ d 0) (of_ℕ d 866000) in
        let per = normalize_metric per_pct (of_ℕ d 0) (of_ℕ d 100) in
        let reduced = rms_reduce (contributions snr phy per) in
        let weighted = chanutil_weight q reduced (of_ℕ d m.chan_util_pct) in
        u8_of_ℤ (d.lround (standardize weighted))

    -- `none` is a NULL record. A record that is not active, or whose status is not OK, scores 0.
    unfoldable pub score : Option Metric → ℕ
    unfolding score_of
    score none = 0
    score (some m) = if is_active m.activity_state && is_ok m.status then score_of m else 0
