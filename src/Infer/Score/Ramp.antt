-- ===== src/Infer/Score/Ramp.antt =====
-- The cold-start ramp and the windows over a run of ticks of one client.
use wei.Base.{
  ℕ, ◌-◌, ◌<◌, ◌≡◌, refl, Bool, true, false, ◌&&◌, Option, none, some, List, [], ◌∷◌, map, length,
  replicate, arith, if◌then◌else◌, ◌==◌,
}
use wei.Metric.{Metric, is_active, is_ok}
use wei.Double.{Double}
use wei.Scorer.{Sigmoid}
use wei.Infer.Types.{Client, Result, zero_client}
use wei.Infer.Windows.{perr_rate}
use wei.Infer.Windows.Ring.{Window}
use wei.Infer.Windows.View.{Samples, loss_of, perr_rate-loss_of, push-Samples}
use wei.Infer.Score.{sampled, raw_score, damped, ramp_of, percent_byte, scored, score_client}

-- `rec->activity_state == ACTIVE && rec->status == OK`.
abbrev pub is_live : Metric → Bool
is_live rec = is_active rec.activity_state && is_ok rec.status

-- The live ones of some records, the newest first, before those that came earlier.
abbrev pub lives : List Metric → List Metric → List Metric
lives h [] = h
lives h (rec ∷ recs) = lives (if is_live rec then rec ∷ h else h) recs

-- The bytes of the report of a tick, if there is one.
module _ {D : Type 0} where
  abbrev pub score_byte : Option (Client D × Result) → Option ℕ
  score_byte none = none
  score_byte (some (st, out)) = some out.score

  abbrev pub loss_byte : Option (Client D × Result) → Option ℕ
  loss_byte none = none
  loss_byte (some (st, out)) = some out.pkt_err_pct

module _ {D : Type 0} (d : Double D) (q : Sigmoid D) where
  -- The client after a tick for each record.
  abbrev pub kept_or : Client D → Option (Client D × Result) → Client D
  kept_or st none = st
  kept_or st (some (st', out)) = st'

  pub after_ticks : Client D → List Metric → Client D
  after_ticks st [] = st
  after_ticks st (rec ∷ recs) = after_ticks (kept_or st (score_client d q st rec)) recs

  record Warm (st : Client D) (h : List Metric) : Type 0 where
    pub samples :
        Samples D st
          (map (λ r. r.tx_frames) h)
          (map (λ r. r.tx_err_frames) h)
          (map (λ r. r.phy_rate_kbps) h)
    pub fresh : (st.phy_fill == 0) ≡ (length h == 0)
    pub ramp : 0 < length h → st.reconnect_ramp ≡ 4 - length h

  scored-Warm :
      (st : Client D) (rec : Metric) (h : List Metric)
      → Warm st h
      → Warm (scored d q st rec).0 (rec ∷ h)
  unfolding scored sampled
  scored-Warm st rec h w =
      let s =
        push-Samples st (map (λ r. r.tx_frames) h) (map (λ r. r.tx_err_frames) h)
          (map (λ r. r.phy_rate_kbps) h) rec.tx_frames rec.tx_err_frames rec.phy_rate_kbps
          w.samples in
      record {
        samples = record {
          frame_window = s.frame_window;
          err_window = s.err_window;
          rate_window = s.rate_window;
          total = s.total;
        };
        fresh = ground (arith, s.rate_window.shows.held);
        ramp = λ some_scored. ground (arith, w.fresh, w.ramp);
      }

  tick-Warm :
      (st : Client D) (rec : Metric) (h : List Metric)
      → Warm st h
      → Warm (kept_or st (score_client d q st rec)) (if is_live rec then rec ∷ h else h)
  unfolding score_client
  tick-Warm st rec h w = go (is_live rec)
    where
      go :
          (b : Bool)
          → Warm
              (kept_or st (if b then some (scored d q st rec) else none))
              (if b then rec ∷ h else h)
      go true = scored-Warm st rec h w
      go false = w

  after_ticks-Warm :
      (recs : List Metric) (st : Client D) (h : List Metric)
      → Warm st h
      → Warm (after_ticks st recs) (lives h recs)
  unfolding after_ticks
  after_ticks-Warm [] st h w = w
  after_ticks-Warm (rec ∷ recs) st h w = after_ticks-Warm recs _ _ (tick-Warm st rec h w)

  new-Window : {A : Type 0} (a : A) → Window (replicate 8 a) 0 0 []
  new-Window a = record {
    shows = record {
      places = refl;
      newest = omega arith;
      held = refl;
      shown = λ k none_held. absurd (omega arith);
    };
    in_range = omega arith;
    filling = λ h. refl;
  }

  new-Warm : Warm (zero_client d) []
  new-Warm = record {
    samples = record {
      frame_window = new-Window 0;
      err_window = new-Window 0;
      rate_window = new-Window 0;
      total = refl;
    };
    fresh = refl;
    ramp = λ some_scored. absurd (omega arith);
  }

  module _ (recs : List Metric) (rec : Metric) where
    -- A client that was never seen, after a tick for each of some records, and those that it scored.
    abbrev pub seen_client : Client D
    seen_client = after_ticks (zero_client d) recs

    abbrev pub scored_before : List Metric
    scored_before = lives [] recs

    warm : Warm seen_client scored_before
    warm = after_ticks-Warm recs (zero_client d) [] new-Warm

    -- For a client that was never seen before some records: a tick reports no score for a record
    -- that is not active or not OK. Otherwise the score is damped by the ramp of 4 ticks, less
    -- one for each of the client's records that were scored before it, so that the first four
    -- scores are eased in and those that follow are not, however many records were gated out
    -- between.
    pub score_client-ramped : score_byte (score_client d q seen_client rec) ≡ (
        if is_live rec
        then some (
            d.to_u8 (
              d.add
                (damped d q
                  (4 - length scored_before)
                  (raw_score d q (sampled d q seen_client rec) rec))
                d.half))
        else none)
    unfolding score_client scored
    score_client-ramped = go (is_live rec)
      where
        left :
            ramp_of d q (seen_client.phy_fill == 0) seen_client.reconnect_ramp
            ≡ 4 - length scored_before
        left = ground (arith, warm.fresh, warm.ramp)

        go :
            (b : Bool)
            → score_byte (if b then some (scored d q seen_client rec) else none) ≡ (
                if b
                then some (
                    d.to_u8 (
                      d.add
                        (damped d q
                          (4 - length scored_before)
                          (raw_score d q (sampled d q seen_client rec) rec))
                        d.half))
                else none)
        go true = rw left refl
        go false = refl

    scored_loss :
        perr_rate d (sampled d q seen_client rec)
        ≡ loss_of d
            (map (λ r. r.tx_frames) (rec ∷ scored_before))
            (map (λ r. r.tx_err_frames) (rec ∷ scored_before))
    unfolding scored sampled perr_rate
    scored_loss =
        let w = scored-Warm seen_client rec scored_before warm in
        perr_rate-loss_of d (scored d q seen_client rec).0 _ _ _ w.samples

    -- For a client that was never seen before some records: the loss that a tick reports, if it
    -- scores, is read from the rings, and is that of the growth of the counters over the last
    -- eight of the client's scored records, this one included. A counter that has gone back
    -- counts as not grown, the frames and the errors each on its own.
    pub score_client-loss : loss_byte (score_client d q seen_client rec) ≡ (
        if is_live rec
        then some (
            percent_byte d q (
              loss_of d
                (map (λ r. r.tx_frames) (rec ∷ scored_before))
                (map (λ r. r.tx_err_frames) (rec ∷ scored_before))))
        else none)
    unfolding score_client scored
    score_client-loss = go (is_live rec)
      where
        go :
            (b : Bool)
            → loss_byte (if b then some (scored d q seen_client rec) else none) ≡ (
                if b
                then some (
                    percent_byte d q (
                      loss_of d
                        (map (λ r. r.tx_frames) (rec ∷ scored_before))
                        (map (λ r. r.tx_err_frames) (rec ∷ scored_before))))
                else none)
        go true = rw scored_loss refl
        go false = refl
