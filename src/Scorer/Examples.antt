-- ===== src/Scorer/Examples.antt =====
-- The kernel at concrete records, over thousandths.
use wei.Base.{◌≤◌, ◌≡◌, refl, some, none, arith}
use wei.Base.Int.{ℤ, pos, negsuc, ◌+ℤ◌, ◌-ℤ◌, neg}
use wei.Metric.{Metric, active, ok, IsTyped}
use wei.Double.Fixed.{fixed, mul_fixed, div_fixed, root, sqrt_fixed, exp_fixed, lround_fixed}
use wei.Double.{IsSmall}
use wei.Double.Special.{Value, fin, held, at_most, special}
use wei.Double.Special.Laws.{special-IsIeee}
use wei.Scorer.{Sigmoid, score}
use wei.Scorer.Bounds.{score-le}

abbrev pub sigmoid : Sigmoid ℤ
sigmoid = record { b0 = pos 2000; b1 = negsuc 39 }

abbrev pub good_link : Metric
good_link = record {
  version = 3;
  activity_state = active;
  status = ok;
  link_snr_db = pos 30;
  phy_rate_kbps = 433000;
  tx_frames = 990;
  tx_err_frames = 10;
  chan_util_pct = 20;
}

pub good_link-IsTyped : IsTyped good_link
good_link-IsTyped = omega arith

-- The score of this record, and of none.
scores : (score fixed sigmoid (some good_link) ≡ 53) × (score fixed sigmoid none ≡ 0)
unfolding score mul_fixed div_fixed root sqrt_fixed exp_fixed lround_fixed ◌+ℤ◌ ◌-ℤ◌ neg
scores = (refl, refl)

-- The same coefficients where NaN and the infinities are values.
abbrev pub special_sigmoid : Sigmoid Value
special_sigmoid = record { b0 = fin (pos 2000); b1 = fin (negsuc 39) }

pub special_sigmoid-IsSmall :
    IsSmall special special_sigmoid.b0 × IsSmall special special_sigmoid.b1
unfolding held at_most
special_sigmoid-IsSmall = ((refl, refl), (refl, refl))

score-le_example : score special special_sigmoid (some good_link) ≤ 100
score-le_example =
    score-le special special-IsIeee special_sigmoid good_link special_sigmoid-IsSmall.0
      special_sigmoid-IsSmall.1 good_link-IsTyped
