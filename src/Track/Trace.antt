-- ===== src/Track/Trace.antt =====
-- A client's ledger over a sequence of intervals.
use wei.Base.{
  ℕ, ◌+◌, ◌%◌, ◌^◌, ◌<◌, ◌≡◌, ◌≢◌, refl, Bool, true, false, not, List, [], ◌∷◌, arith,
  if◌then◌else◌, Bool-cases, inl, inr,
}
use wei.Base.Int.{ℤ, pos, ◌+ℤ◌, ◌-ℤ◌, ◌≤ℤ◌, ltb_ℤ, leb_ℤ, is_zero, is_zero_iff, int_laws}
use wei.Track.{Entry, tick}

-- One interval's metric, and when it was read.
pub record Sample : Type 0 where
  pub metric : ℤ
  pub at : ℤ

-- No clock reading is the value that marks a closed excursion.
abbrev pub Stamped : List Sample → Type 0
Stamped [] = Unit {0}
Stamped (x ∷ xs) = (x.at ≢ pos 0) × Stamped xs

-- The clock never goes back.
abbrev pub Ordered : ℤ → List Sample → Type 0
Ordered now [] = Unit {0}
Ordered now (x ∷ xs) = (now ≤ℤ x.at) × Ordered x.at xs

abbrev pub last_of : ℤ → List Sample → ℤ
last_of now [] = now
last_of now (x ∷ xs) = last_of x.at xs

module _ (band floor : ℤ) where
  unfoldable pub run : Entry → List Sample → Entry
  run e [] = e
  run e (x ∷ xs) = run (tick e x.metric x.at band floor) xs

  -- The samples below the band whose predecessor is not.
  abbrev pub falls : Bool → List Sample → ℕ
  falls low [] = 0
  falls low (x ∷ xs) =
      (if ltb_ℤ x.metric band then (if low then 0 else 1) else 0) + falls (ltb_ℤ x.metric band) xs

  tick-count :
      (e : Entry) (x : Sample)
      → x.at ≢ pos 0
      → ((tick e x.metric x.at band floor).count ≡ (
          if ltb_ℤ x.metric band
          then (if not (is_zero e.start_ts) then e.count else (e.count + 1) % 2 ^ 32)
          else e.count))
        × (is_zero (tick e x.metric x.at band floor).start_ts ≡ not (ltb_ℤ x.metric band))
  unfolding tick
  tick-count e x h = (ground (arith, is_zero_iff x.at), ground (arith, is_zero_iff x.at))

  -- The onset count grows by one for each sample at which the metric falls below the band, modulo
  -- 2^32, if no sample is read at time 0.
  pub run-count :
      (e : Entry) (xs : List Sample)
      → Stamped xs
      → e.count < 2 ^ 32
      → (run e xs).count ≡ (e.count + falls (not (is_zero e.start_ts)) xs) % 2 ^ 32
  unfolding run
  run-count e [] st lt = omega arith
  run-count e (x ∷ xs) st lt =
      ground (arith, tick-count e x st.0, run-count (tick e x.metric x.at band floor) xs st.1)

  -- The time of an open excursion so far.
  abbrev pub running : Entry → ℤ → ℤ
  running e now = if is_zero e.start_ts then pos 0 else now -ℤ e.start_ts

  -- What has been added up since `start`, the open excursion included, is no more than the time
  -- that has passed.
  pub record Paced (start now : ℤ) (e : Entry) : Type 0 where
    pub nonneg : pos 0 ≤ℤ e.accumulated
    pub past : is_zero e.start_ts ≡ false → e.start_ts ≤ℤ now
    pub within : e.accumulated +ℤ running e now ≤ℤ now -ℤ start

  shut-Paced :
      (start now : ℤ) (e : Entry)
      → is_zero e.start_ts ≡ true
      → pos 0 ≤ℤ e.accumulated
      → e.accumulated ≤ℤ now -ℤ start
      → Paced start now e
  shut-Paced start now e shut n w = record {
    nonneg = n;
    past = λ runs. cc;
    within = rw shut (omega int_laws);
  }

  open-Paced :
      (start now : ℤ) (e : Entry)
      → e.start_ts ≤ℤ now
      → pos 0 ≤ℤ e.accumulated
      → e.accumulated +ℤ (now -ℤ e.start_ts) ≤ℤ now -ℤ start
      → Paced start now e
  open-Paced start now e past n w = elim (Bool-cases (is_zero e.start_ts)) [
    | inl shut ↦ shut-Paced start now e shut n (omega int_laws)
    | inr runs ↦ record { nonneg = n; past = λ _. past; within = rw runs w }
  ]

  tick-Paced :
      (start now : ℤ) (e : Entry) (x : Sample)
      → now ≤ℤ x.at
      → Paced start now e
      → Paced start x.at (tick e x.metric x.at band floor)
  unfolding tick
  tick-Paced start now e x later p = elim (Bool-cases (is_zero e.start_ts)) [
    | inl shut ↦
        let w : e.accumulated +ℤ pos 0 ≤ℤ now -ℤ start = rw shut at p.within in
        elim (Bool-cases (ltb_ℤ x.metric band)) [
          | inl low ↦
              rw (low, tick, shut) (open-Paced start x.at _ (omega arith) p.nonneg (omega int_laws))
          | inr high ↦
              rw (high, tick, shut) (shut-Paced start x.at e shut p.nonneg (omega int_laws))
        ]
    | inr runs ↦
        let w : e.accumulated +ℤ (now -ℤ e.start_ts) ≤ℤ now -ℤ start = rw runs at p.within in
        let past = p.past runs in
        elim (Bool-cases (ltb_ℤ x.metric band)) [
          | inl low ↦
              rw (low, tick, runs) (open-Paced start x.at e (omega arith) p.nonneg (omega int_laws))
          | inr high ↦ elim (Bool-cases (leb_ℤ floor (x.at -ℤ e.start_ts))) [
            | inl long ↦
                rw (high, tick, runs, long)
                  (shut-Paced start x.at _ refl (omega int_laws) (omega int_laws))
            | inr blip ↦
                rw (high, tick, runs, blip) (shut-Paced start x.at _ refl p.nonneg (omega int_laws))
          ]
        ]
  ]

  -- Over a clock that never goes back, a client whose ledger starts empty has never added up more
  -- time than has passed, so the sum of an `int64_t` does not overflow before the clock does.
  pub run-Paced :
      (start now : ℤ) (e : Entry) (xs : List Sample)
      → Ordered now xs
      → Paced start now e
      → Paced start (last_of now xs) (run e xs)
  unfolding run
  run-Paced start now e [] o p = p
  run-Paced start now e (x ∷ xs) o p =
      run-Paced start x.at (tick e x.metric x.at band floor) xs o.1 (tick-Paced start now e x o.0 p)
