-- ===== src/Infer/Engine/Range.antt =====
-- What the rows of the engine hold over its life, and what the sweep gives to the publisher.
use wei.Base.{
  ℕ, zero, suc, ◌≤◌, ◌≡◌, refl, sym, true, false, some, List, [], ◌∷◌, arith, Bool, if◌then◌else◌,
  ltb, leb, ◌+◌, Bool-cases, inl, inr, get_elem?, set, replicate,
}
use mathlib.Core.Path.{subst}
use mathlib.Core.Option.{some-injective}
use wei.Base.Int.{ℤ}
use wei.Base.Mac.{Mac}
use wei.Metric.{Metric, IsTyped}
use wei.Double.{Double, IsIeee, IsSmall}
use wei.Scorer.{Sigmoid}
use wei.Track.{Table}
use wei.Infer.Types.{Client, Policy, Result, zero_metric}
use wei.Infer.Flags.{advance_run, flag_instability, flag_latency_risk, flag_video_degrade}
use wei.Infer.Score.{scored, score_client, attribute}
use wei.Infer.Score.Range.{IsInRange, IsSound, is_named, zero_client-IsInRange, scored-IsInRange}
use wei.Infer.Engine.{
  Row, Engine, is_absent, refreshed, admitted, zero_row, reap_rows, stage_record, judge, sweep_row,
  sweep,
}
use wei.Infer.Engine.Membership.{stage_cases}
use wei.Infer.Engine.Sweep.{row_cases}

-- A record as the receiver maps it.
pub record IsMapped (rec : Metric) : Type 0 where
  pub typed : IsTyped rec
  pub util : rec.chan_util_pct ≤ 100

zero_metric-IsMapped : IsMapped zero_metric
zero_metric-IsMapped = record {
  typed = record {
    snr_low = omega arith;
    snr_high = omega arith;
    phy = omega arith;
    frames = omega arith;
    errors = omega arith;
    util = omega arith;
  };
  util = omega arith;
}

module _ {D : Type 0} (d : Double D) (laws : IsIeee d) where
  pub record IsInRangeRow (r : Row D) : Type 0 where
    pub snapshot : IsMapped r.snapshot
    pub state : IsInRange d laws r.slot.state
    pub result : IsSound r.result

  abbrev pub AllInRange : List (Row D) → Type 0
  AllInRange [] = Unit {0}
  AllInRange (r ∷ rs) = IsInRangeRow r × AllInRange rs

  zero_row-IsInRangeRow : IsInRangeRow (zero_row d)
  zero_row-IsInRangeRow = record {
    snapshot = zero_metric-IsMapped;
    state = zero_client-IsInRange d laws;
    result = record { score = omega arith; loss = omega arith; named = refl };
  }

  pub zero_rows-AllInRange : (n : ℕ) → AllInRange (replicate n (zero_row d))
  zero_rows-AllInRange zero = tt
  zero_rows-AllInRange (suc n) = (zero_row-IsInRangeRow, zero_rows-AllInRange n)

  get-IsInRangeRow :
      (rows : List (Row D)) (i : ℕ) (r : Row D)
      → get_elem? rows i ≡ some r
      → AllInRange rows
      → IsInRangeRow r
  get-IsInRangeRow [] i r h w = absurd (ground arith)
  get-IsInRangeRow (x ∷ rows) zero r h w = subst IsInRangeRow (some-injective _ _ h) w.0
  get-IsInRangeRow (x ∷ rows) (suc i) r h w = get-IsInRangeRow rows i r h w.1

  set-AllInRange :
      (rows : List (Row D)) (i : ℕ) (r : Row D)
      → IsInRangeRow r
      → AllInRange rows
      → AllInRange (set rows i r)
  set-AllInRange [] i r h w = tt
  set-AllInRange (x ∷ rows) zero r h w = (h, w.1)
  set-AllInRange (x ∷ rows) (suc i) r h w = (w.0, set-AllInRange rows i r h w.1)

  pub stage_record-AllInRange :
      (eng : Engine D) (mac : Mac) (rec : Metric) (now : ℤ)
      → IsMapped rec
      → AllInRange eng.rows
      → AllInRange (stage_record d eng mac rec now).rows
  stage_record-AllInRange eng mac rec now m w =
      stage_cases d eng mac rec now (λ e. AllInRange e.rows)
        (λ i r k.
          let old = get-IsInRangeRow eng.rows i r k.at w in
          set-AllInRange eng.rows i (refreshed r rec now)
            (record { snapshot = m; state = old.state; result = old.result }) w)
        (λ i r f.
          let old = get-IsInRangeRow eng.rows i r f.at w in
          set-AllInRange eng.rows i (admitted r mac rec now)
            (record { snapshot = m; state = old.state; result = old.result }) w)
        (λ f. w)

  pub reap_rows-AllInRange :
      (now : ℤ) (rows : List (Row D)) (count : ℕ)
      → AllInRange rows
      → AllInRange (reap_rows d now rows count).0
  unfolding reap_rows
  reap_rows-AllInRange now [] count w = tt
  reap_rows-AllInRange now (r ∷ rows) count w = elim (Bool-cases (is_absent now r)) [
    | inl gone ↦ rw gone (
      record { snapshot = w.0.snapshot; state = zero_client-IsInRange d laws; result = w.0.result },
      reap_rows-AllInRange now rows _ w.1,
    )
    | inr here ↦ rw here (w.0, reap_rows-AllInRange now rows _ w.1)
  ]

  module _ (q : Sigmoid D) (s0 : IsSmall d q.b0) (s1 : IsSmall d q.b1) where
    advance_run-IsInRange :
        (policy : Policy) (st : Client D) (score : ℕ)
        → IsInRange d laws st
        → IsInRange d laws (advance_run policy st score)
    unfolding advance_run
    advance_run-IsInRange policy st score w = go (ltb score policy.latency_score_band)
      where
        cross : ℕ
        cross = if ltb st.threshold_cross 65535 then st.threshold_cross + 1 else st.threshold_cross

        counted : Client D
        counted = record st {
          threshold_cross = cross;
          alarm = if leb policy.latency_sustain_ticks cross then true else st.alarm;
        }

        cleared : Client D
        cleared = record st { threshold_cross = 0; alarm = false }

        go : (low : Bool) → IsInRange d laws (if low then counted else cleared)
        go true = record {
          snr_band = w.snr_band;
          phy_band = w.phy_band;
          per_band = w.per_band;
          frames = w.frames;
          errs = w.errs;
          rates = w.rates;
          phy_fill = w.phy_fill;
          ramp = w.ramp;
        }
        go false = record {
          snr_band = w.snr_band;
          phy_band = w.phy_band;
          per_band = w.per_band;
          frames = w.frames;
          errs = w.errs;
          rates = w.rates;
          phy_fill = w.phy_fill;
          ramp = w.ramp;
        }

    attribute-is_named : (st : Client D) (rec : Metric) → is_named (attribute d q st rec) ≡ true
    unfolding attribute
    attribute-is_named st rec = ground arith

    judge-IsInRangeRow :
        (policy : Policy) (t : Table) (r : Row D) (st : Client D) (out : Result) (now : ℤ)
        → IsMapped r.snapshot
        → IsInRange d laws st
        → IsSound out
        → IsInRangeRow (judge d q policy t r st out now).1
    unfolding judge flag_instability flag_latency_risk flag_video_degrade
    judge-IsInRangeRow policy t r st out now m w p = record {
      snapshot = m;
      state = advance_run-IsInRange policy st _ w;
      result = ground (arith, p, attribute-is_named (advance_run policy st out.score) r.snapshot);
    }

    score_client-scored :
        (st : Client D) (rec : Metric) (y : Client D × Result)
        → score_client d q st rec ≡ some y
        → y ≡ scored d q st rec
    unfolding score_client
    score_client-scored st rec y h = ground arith

    module _ {W : Type 0} (P : W → Type 0) (publish : Mac → Result → Metric → W → W)
        (keeps : (mac : Mac) (out : Result) (rec : Metric) (w : W)
          → IsSound out
          → IsMapped rec
          → P w
          → P (publish mac out rec w)) where
      sweep_row-AllInRange :
          (policy : Policy) (t : Table) (w : W) (r : Row D) (now : ℤ)
          → IsInRangeRow r
          → P w
          → let (r', t', w') = sweep_row d q publish policy t w r now in IsInRangeRow r' × P w'
      sweep_row-AllInRange policy t w r now i p =
          row_cases d q publish policy t w r now (λ x. IsInRangeRow x.0 × P x.2) (i, p)
            (λ st out on found.
              let e = score_client-scored r.slot.state r.snapshot (st, out) found in
              let ok =
                scored-IsInRange d laws q r.slot.state r.snapshot s0 s1 i.snapshot.typed i.state in
              let ok' =
                subst (λ (x : Client D × Result). IsInRange d laws x.0 × IsSound x.1) (sym e) ok in
              let j = judge-IsInRangeRow policy t r st out now i.snapshot ok'.0 ok'.1 in
              (j, keeps _ _ _ w j.result j.snapshot p))

      -- Over a sweep the rows stay in range, and so is all that is given to the publisher.
      pub sweep-AllInRange :
          (rs : List (Row D)) (policy : Policy) (t : Table) (w : W) (now : ℤ)
          → AllInRange rs
          → P w
          → let (rs', t', w') = sweep d q publish policy t w rs now in AllInRange rs' × P w'
      unfolding sweep
      sweep-AllInRange [] policy t w now i p = (tt, p)
      sweep-AllInRange (r ∷ rs) policy t w now i p =
          let one = sweep_row-AllInRange policy t w r now i.0 p in
          let rest = sweep-AllInRange rs policy _ _ now i.1 one.1 in ((one.0, rest.0), rest.1)
