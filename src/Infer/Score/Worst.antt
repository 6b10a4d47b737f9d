-- ===== src/Infer/Score/Worst.antt =====
-- The choice of the dominant contributor in source/wei_infer.c.
use wei.Base.{
  ℕ, suc, ◌+◌, ◌<◌, ◌≡◌, ◌≢◌, refl, sym, ap, true, false, ◌⊎◌, inl, inr, List, [], ◌∷◌, arith,
  length, ltb, Bool-cases,
}
use mathlib.Core.Path.{subst}
use wei.Base.Int.{pos}
use wei.Metric.{Metric, IsTyped}
use wei.Double.{Double, IsIeee, IsNum, IsUnit, of_ℕ}
use wei.Scorer.{Sigmoid}
use wei.Scorer.Bounds.{IsSmall-ℕ, IsSmall-ℤ, normalize_metric-IsUnit}
use wei.Infer.Types.{Client, Contributor, none_of, snr, phy, pkt_err, chan_util}
use wei.Infer.Windows.{perr_rate}
use wei.Infer.Score.{in_band, worst_from, contributor, badness_snr, badness_rest, attribute}
use wei.Infer.Score.Range.{IsInRange, IsInRange-IsReadable}

-- The order in which the contributors are compared.
abbrev pub rank : Contributor → ℕ
rank none_of = 4
rank snr = 0
rank phy = 1
rank pkt_err = 2
rank chan_util = 3

module _ {D : Type 0} (d : Double D) (laws : IsIeee d) where
  -- Among the first n values, the greatest, and the first of them.
  record IsFirstMax (f : ℕ → D) (n i : ℕ) : Type 0 where
    among : i < n
    greatest : (j : ℕ) → j < n → d.le (f j) (f i) ≡ true
    first : (j : ℕ) → j < i → d.lt (f j) (f i) ≡ true

  abbrev Lists : (ℕ → D) → ℕ → List D → Type 0
  Lists f i [] = Unit {0}
  Lists f i (b ∷ bs) = (b ≡ f i) × Lists f (suc i) bs

  below_suc : (j n : ℕ) → j < suc n → (j < n) ⊎ (j ≡ n)
  below_suc j n h = elim (Bool-cases (ltb j n)) [
    | inl less ↦ inl (ground arith)
    | inr same ↦ inr (ground arith)
  ]

  lt-le : (x y : D) → IsNum d x → IsNum d y → d.lt x y ≡ true → d.le x y ≡ true
  lt-le x y nx ny h = laws.le_total y x ny nx (ground (arith, laws.lt-not-le x y nx ny))

  module _ (q : Sigmoid D) (f : ℕ → D) (nums : (j : ℕ) → IsNum d (f j)) where
    -- The next value is greater, or not.
    new-IsFirstMax : (n i : ℕ) → IsFirstMax f n i → d.lt (f i) (f n) ≡ true → IsFirstMax f (suc n) n
    new-IsFirstMax n i m more =
        let le : d.le (f i) (f n) ≡ true = lt-le (f i) (f n) (nums i) (nums n) more in
        record {
          among = omega arith;
          greatest = λ j below. elim (below_suc j n below) [
            | inl less ↦ laws.le_trans _ _ _ (m.greatest j less) le
            | inr same ↦ subst (λ (k : ℕ). d.le (f k) (f n) ≡ true) (sym same) (nums n)
          ];
          first = λ j less. ground (
            arith,
            more,
            laws.lt-not-le (f j) (f n) (nums j) (nums n),
            laws.lt-not-le (f i) (f n) (nums i) (nums n),
            laws.le_trans (f n) (f j) (f i),
            m.greatest j less,
          );
        }

    old-IsFirstMax :
        (n i : ℕ) → IsFirstMax f n i → d.lt (f i) (f n) ≡ false → IsFirstMax f (suc n) i
    old-IsFirstMax n i m less = record {
      among = omega (arith, m.among);
      greatest = λ j below. elim (below_suc j n below) [
        | inl old ↦ m.greatest j old
        | inr same ↦
            subst (λ (k : ℕ). d.le (f k) (f i) ≡ true) (sym same)
              (ground (arith, less, laws.lt-not-le (f i) (f n) (nums i) (nums n)))
      ];
      first = m.first;
    }

    worst_from-IsFirstMax :
        (bs : List D) (n i : ℕ) (most : D)
        → most ≡ f i
        → IsFirstMax f n i
        → Lists f n bs
        → IsFirstMax f (n + length bs) (worst_from d q i most n bs)
    unfolding worst_from
    worst_from-IsFirstMax [] n i most e m l = subst (λ (k : ℕ). IsFirstMax f k i) (omega arith) m
    worst_from-IsFirstMax (b ∷ bs) n i most e m l = elim (Bool-cases (d.lt most b)) [
      | inl more ↦
          let greater : d.lt (f i) (f n) ≡ true = rw (← e, ← l.0) more in
          rw more (
            subst (λ (k : ℕ). IsFirstMax f k (worst_from d q n b (suc n) bs)) (omega arith)
              (worst_from-IsFirstMax bs (suc n) n b l.0 (new-IsFirstMax n i m greater) l.1))
      | inr less ↦
          let no_greater : d.lt (f i) (f n) ≡ false = rw (← e, ← l.0) less in
          rw less (
            subst (λ (k : ℕ). IsFirstMax f k (worst_from d q i most (suc n) bs)) (omega arith)
              (worst_from-IsFirstMax bs (suc n) i most e (old-IsFirstMax n i m no_greater) l.1))
    ]

  module _ (q : Sigmoid D) (st : Client D) (rec : Metric) where
    -- How bad a contributor is for the client: what its metric lacks in its band, the loss in its
    -- band, and the share of the channel in use.
    abbrev pub badness : Contributor → D
    badness none_of = of_ℕ d 0
    badness snr = d.sub (of_ℕ d 1) (in_band d q st.snr_band (d.of_ℤ rec.link_snr_db))
    badness phy = d.sub (of_ℕ d 1) (in_band d q st.phy_band (of_ℕ d rec.phy_rate_kbps))
    badness pkt_err = in_band d q st.per_band (perr_rate d st)
    badness chan_util = d.div (of_ℕ d rec.chan_util_pct) (of_ℕ d 100)

    at_rank : ℕ → D
    at_rank i = badness (contributor d q i)

    one_minus-IsNum : (x : D) → IsUnit d x → IsNum d (d.sub (of_ℕ d 1) x)
    one_minus-IsNum x u = (laws.num_of_le _ _ (laws.one_sub x x u u (laws.num_of_le _ _ u.0).1).0).1

    badness-IsNum : IsTyped rec → IsInRange d laws st → (k : Contributor) → IsNum d (badness k)
    badness-IsNum ty w none_of = laws.of_ℤ_mono (pos 0) (pos 0) (omega arith)
    badness-IsNum ty w snr = one_minus-IsNum _ (
        normalize_metric-IsUnit d laws _ _ _
          (IsSmall-ℤ d laws rec.link_snr_db ty.snr_low ty.snr_high) w.snr_band.0 w.snr_band.1)
    badness-IsNum ty w phy = one_minus-IsNum _ (
        normalize_metric-IsUnit d laws _ _ _
          (IsSmall-ℕ d laws rec.phy_rate_kbps (omega (arith, ty.phy))) w.phy_band.0 w.phy_band.1)
    badness-IsNum ty w pkt_err =
        let unit =
          normalize_metric-IsUnit d laws _ _ _ (IsInRange-IsReadable d laws st w).rate w.per_band.0
            w.per_band.1 in
        (laws.num_of_le _ _ unit.0).1
    badness-IsNum ty w chan_util =
        let u = rec.chan_util_pct in
        let share =
          laws.div_le (of_ℕ d u) u 99 (omega (arith, ty.util)) (omega arith)
            (laws.of_ℤ_mono (pos 0) (pos u) (omega arith))
            (laws.of_ℤ_mono (pos u) (pos u) (omega arith)) in
        (laws.num_of_le _ _ share.0).1

    chosen : ℕ
    chosen = worst_from d q 0 (badness_snr d q st rec) 1 (badness_rest d q st rec)

    chosen-IsFirstMax : IsTyped rec → IsInRange d laws st → IsFirstMax at_rank 4 chosen
    unfolding at_rank chosen
    chosen-IsFirstMax ty w =
        let nums = λ (j : ℕ). badness-IsNum ty w (contributor d q j) in
        worst_from-IsFirstMax q at_rank nums (badness_rest d q st rec) 1 0 _ refl
          (record {
            among = omega arith;
            greatest = λ j below.
                let same : 0 ≡ j = omega arith in
                subst (λ (k : ℕ). d.le (at_rank k) (at_rank 0) ≡ true) same (nums 0);
            first = λ j none_before. absurd (omega arith);
          })
          (refl, (refl, (refl, tt)))

    contributor-rank : (k : Contributor) → k ≢ none_of → contributor d q (rank k) ≡ k
    contributor-rank none_of h = absurd (h refl)
    contributor-rank snr h = refl
    contributor-rank phy h = refl
    contributor-rank pkt_err h = refl
    contributor-rank chan_util h = refl

    rank-contributor : (i : ℕ) → i < 4 → rank (contributor d q i) ≡ i
    rank-contributor i h = ground arith

    named_of : (i : ℕ) → i < 4 → contributor d q i ≢ none_of
    named_of i h = ground arith

    rank-lt : (k : Contributor) → k ≢ none_of → rank k < 4
    rank-lt none_of h = absurd (h refl)
    rank-lt snr h = omega arith
    rank-lt phy h = omega arith
    rank-lt pkt_err h = omega arith
    rank-lt chan_util h = omega arith

    -- The dominant contributor of a client in range, for a record within its C types: one of
    -- the four is named, none of the four is worse than it, and those that come before it in
    -- the order SNR, PHY rate, loss, channel utilisation are less bad.
    pub attribute_lem :
        IsTyped rec
        → IsInRange d laws st
        → let c = attribute d q st rec in
          (c ≢ none_of)
          × ((k : Contributor) → k ≢ none_of → d.le (badness k) (badness c) ≡ true)
          × ((k : Contributor) → rank k < rank c → d.lt (badness k) (badness c) ≡ true)
    unfolding attribute at_rank chosen
    attribute_lem ty w =
        let m = chosen-IsFirstMax ty w in
        let at_k =
          λ (k : Contributor) (named : k ≢ none_of). ap badness (contributor-rank k named) in
        (
          named_of chosen m.among,
          λ k named.
              subst (λ (x : D). d.le x (at_rank chosen) ≡ true) (at_k k named)
                (m.greatest (rank k) (rank-lt k named)),
          λ k before.
              let less : rank k < chosen = omega (arith, before, rank-contributor chosen m.among) in
              let named : k ≢ none_of = λ e. absurd (omega (arith, less, m.among, ap rank e)) in
              subst (λ (x : D). d.lt x (at_rank chosen) ≡ true) (at_k k named)
                (m.first (rank k) less),
        )
