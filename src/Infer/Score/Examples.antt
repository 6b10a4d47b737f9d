-- ===== src/Infer/Score/Examples.antt =====
-- The first sample of a client, where NaN and the infinities are values.
use wei.Base.{◌<◌, ◌≡◌, ◌≢◌, refl, true, [], ◌∷◌}
use wei.Base.Int.{pos}
use wei.Double.{Double}
use wei.Double.Fixed.{fixed}
use wei.Double.Special.{Value, special}
use wei.Double.Special.Laws.{special-IsIeee}
use wei.Scorer.Examples.{special_sigmoid, good_link, good_link-IsTyped}
use wei.Infer.Types.{Client, Contributor, none_of, zero_client}
use wei.Infer.Windows.View.{loss_of}
use wei.Infer.Score.{sampled, attribute}
use wei.Infer.Score.Range.{zero_client-IsInRange, sampled-IsInRange}
use wei.Infer.Score.Worst.{rank, badness, attribute_lem}

abbrev first : Client Value
first = sampled special special_sigmoid (zero_client special) good_link

attribute_lem_example :
    let c = attribute special special_sigmoid first good_link in
    let bad = badness special special-IsIeee special_sigmoid first good_link in
    (c ≢ none_of)
    × ((k : Contributor) → k ≢ none_of → Double.le special (bad k) (bad c) ≡ true)
    × ((k : Contributor) → rank k < rank c → Double.lt special (bad k) (bad c) ≡ true)
attribute_lem_example =
    attribute_lem special special-IsIeee special_sigmoid first good_link good_link-IsTyped (
      sampled-IsInRange special special-IsIeee special_sigmoid (zero_client special) good_link
        good_link-IsTyped (zero_client-IsInRange special special-IsIeee))

-- The frames were reset between the samples, and the errors grew by 20: the loss is 100 %.
frames_reset : loss_of fixed (5 ∷ 900 ∷ []) (30 ∷ 10 ∷ []) ≡ pos 100000
unfolding wei.Infer.Windows.rate_of wei.Double.Fixed.mul_fixed wei.Double.Fixed.div_fixed
frames_reset = refl
