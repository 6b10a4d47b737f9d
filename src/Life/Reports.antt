-- ===== src/Life/Reports.antt =====
-- What an interval of source/wei_life.c reports.
use wei.Base.{
  ℕ, ◌+◌, ◌≤◌, ◌≡◌, ◌≢◌, ◌⊎◌, inl, inr, refl, Bool, true, false, ◌&&◌, Option, none, some, List, [],
  ◌∷◌, ◌++◌, arith, if◌then◌else◌, length, length-append, ◌==◌,
}
use wei.Base.Int.{ℤ, pos, negsuc, is_zero, neg, to_int32}
use wei.Base.Mac.{Mac}
use wei.Double.{Double}
use wei.Scorer.{Sigmoid, score}
use wei.Track
use wei.Track.{Entry}
use wei.Life.{
  Ctx, Roster, Policy, LifeMetric, Excursion, detect, eval_ctx, eval_slots, eval_station,
  with_score, snr, loss, phy, chanutil,
}

-- An excursion of a station with an onset or a time.
pub record IsFor (mac : Mac) (e : Excursion) : Type 0 where
  pub station : e.mac ≡ mac
  pub some_news : (e.onset_count ≢ 0) ⊎ (e.duration_ms ≢ pos 0)

abbrev pub AllFor : Mac → List Excursion → Type 0
AllFor mac [] = Unit {0}
AllFor mac (e ∷ es) = IsFor mac e × AllFor mac es

AllFor-append :
    (mac : Mac) (es fs : List Excursion) → AllFor mac es → AllFor mac fs → AllFor mac (es ++ fs)
AllFor-append mac [] fs a b = b
AllFor-append mac (e ∷ es) fs a b = (a.0, AllFor-append mac es fs a.1 b)

-- Such excursions, at most so many.
abbrev pub IsBatch : Mac → ℕ → List Excursion → Type 0
IsBatch mac n es = AllFor mac es × (length es ≤ n)

IsBatch-append :
    (mac : Mac) (m n : ℕ) (es fs : List Excursion)
    → IsBatch mac m es
    → IsBatch mac n fs
    → IsBatch mac (m + n) (es ++ fs)
IsBatch-append mac m n es fs a b =
    (AllFor-append mac es fs a.0 b.0, omega (arith, length-append es fs, a.1, b.1))

news : (n : ℕ) (t : ℤ) → ((n == 0) && is_zero t) ≡ false → (n ≢ 0) ⊎ (t ≢ pos 0)
news n (pos t) h = ground arith
news n (negsuc t) h = ground arith

-- At most one excursion of a detector.
detect-IsBatch :
    (mac : Mac) (metric : LifeMetric) (track : Entry) (value now band dwell : ℤ)
    → IsBatch mac 1 (detect mac metric track value now band dwell).1
detect-IsBatch mac metric track value now band dwell =
    let rec = (Track.collect (Track.tick track value now band dwell)).1 in
    go rec.count rec.duration_ms (rec.count == 0 && is_zero rec.duration_ms) refl
  where
    go :
        (n : ℕ) (t : ℤ) (quiet : Bool)
        → ((n == 0) && is_zero t) ≡ quiet
        → let es =
            if◌then◌else◌ {A = List Excursion} quiet []
              (record { mac = mac; metric = metric; onset_count = n; duration_ms = t } ∷ []) in
          IsBatch mac 1 es
    go n t true e = (tt, omega arith)
    go n t false e = ((record { station = refl; some_news = news n t e }, tt), omega arith)

-- The four detectors fit the batch of four.
pub eval_ctx-IsBatch :
    (policy : Policy) (now : ℤ) (ctx : Ctx) → IsBatch ctx.mac 4 (eval_ctx policy now ctx).1
unfolding eval_ctx
eval_ctx-IsBatch policy now ctx =
    let m = ctx.sample in
    let s1 =
      detect-IsBatch ctx.mac snr ctx.snr_track m.link_snr_db now policy.snr_floor
        policy.snr_dwell_ms in
    let s2 =
      detect-IsBatch ctx.mac loss ctx.loss_track (neg (to_int32 m.tx_err_frames)) now
        (neg policy.loss_ceiling) policy.loss_dwell_ms in
    let s3 =
      detect-IsBatch ctx.mac phy ctx.phy_track (to_int32 m.phy_rate_kbps) now policy.phy_floor
        policy.phy_dwell_ms in
    let s4 =
      detect-IsBatch ctx.mac chanutil ctx.chanutil_track (neg (pos m.chan_util_pct)) now
        (neg policy.chanutil_ceiling) policy.chanutil_dwell_ms in
    IsBatch-append ctx.mac 3 1 _ _
      (IsBatch-append ctx.mac 2 1 _ _ (IsBatch-append ctx.mac 1 1 _ _ s1 s2) s3) s4

module _ {D : Type 0} (d : Double D) (q : Sigmoid D) where
  -- A report is of a station in the roster, with the score of its sample.
  abbrev pub IsOf : Option Ctx → Excursion × ℕ → Type 0
  IsOf none r = ⊥
  IsOf (some ctx) (e, s) = IsFor ctx.mac e × (s ≡ score d q (some ctx.sample))

  abbrev pub IsOfOne : List (Option Ctx) → Excursion × ℕ → Type 0
  IsOfOne [] r = ⊥
  IsOfOne (slot ∷ slots) r = IsOf slot r ⊎ IsOfOne slots r

  abbrev pub AllOf : List (Option Ctx) → List (Excursion × ℕ) → Type 0
  AllOf slots [] = Unit {0}
  AllOf slots (r ∷ rs) = IsOfOne slots r × AllOf slots rs

  AllOf-later :
      (slot : Option Ctx) (slots : List (Option Ctx)) (rs : List (Excursion × ℕ))
      → AllOf slots rs
      → AllOf (slot ∷ slots) rs
  AllOf-later slot slots [] a = tt
  AllOf-later slot slots (r ∷ rs) a = (inr a.0, AllOf-later slot slots rs a.1)

  AllOf-batch :
      (ctx : Ctx) (slots : List (Option Ctx)) (es : List Excursion) (rs : List (Excursion × ℕ))
      → AllFor ctx.mac es
      → AllOf (some ctx ∷ slots) rs
      → AllOf (some ctx ∷ slots) (with_score d q (score d q (some ctx.sample)) es ++ rs)
  AllOf-batch ctx slots [] rs a b = b
  AllOf-batch ctx slots (e ∷ es) rs a b = (inl (a.0, refl), AllOf-batch ctx slots es rs a.1 b)

  eval_slots-AllOf :
      (policy : Policy) (now : ℤ) (slots : List (Option Ctx))
      → AllOf slots (eval_slots d q policy now slots).1
  unfolding eval_slots
  eval_slots-AllOf policy now [] = tt
  eval_slots-AllOf policy now (none ∷ slots) =
      AllOf-later none slots (eval_slots d q policy now slots).1 (eval_slots-AllOf policy now slots)
  eval_slots-AllOf policy now (some ctx ∷ slots) =
      let rest = (eval_slots d q policy now slots).1 in
      AllOf-batch ctx slots (eval_ctx policy now ctx).1 rest (eval_ctx-IsBatch policy now ctx).0
        (AllOf-later (some ctx) slots rest (eval_slots-AllOf policy now slots))

  -- Every excursion that an interval reports is of a station in the roster, has an onset or a time
  -- that is not 0, and goes with the score of that station's sample.
  pub eval_station-AllOf : (r : Roster) (now : ℤ) → AllOf r.slots (eval_station d q r now).1
  unfolding eval_station
  eval_station-AllOf r now = eval_slots-AllOf r.policy now r.slots
