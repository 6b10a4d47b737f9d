-- ===== src/Infer/Flags/Latency.antt =====
-- The latency alarm over a run of scored ticks.
use wei.Base.{ℕ, suc, ◌≤◌, ◌<◌, ◌≡◌, false, List, [], ◌∷◌, arith, if◌then◌else◌, ltb, leb}
use wei.Infer.Types.{Client, Policy}
use wei.Infer.Flags.{advance_run}

-- How many of the last scores, without a gap, lie below the band; `n` before the first.
abbrev pub trailing : Policy → ℕ → List ℕ → ℕ
trailing policy n [] = n
trailing policy n (s ∷ ss) =
    trailing policy (if ltb s policy.latency_score_band then suc n else 0) ss

abbrev pub clamp16 : ℕ → ℕ
clamp16 n = if ltb n 65535 then n else 65535

module _ {D : Type 0} (policy : Policy) where
  -- The client after the scores of a run of ticks.
  pub after : Client D → List ℕ → Client D
  unfolding advance_run
  after st [] = st
  after st (s ∷ ss) = after (advance_run policy st s) ss

  record Counts (st : Client D) (n : ℕ) : Type 0 where
    pub cross : st.threshold_cross ≡ clamp16 n
    pub alarm : st.alarm ≡ leb policy.latency_sustain_ticks n

  module _ (some_ticks : 0 < policy.latency_sustain_ticks)
      (is_u16 : policy.latency_sustain_ticks ≤ 65535) where
    advance_run-Counts :
        (st : Client D) (n s : ℕ)
        → Counts st n
        → Counts (advance_run policy st s) (if ltb s policy.latency_score_band then suc n else 0)
    unfolding advance_run
    advance_run-Counts st n s c = record {
      cross = ground (arith, c.cross);
      alarm = ground (arith, c.cross, c.alarm);
    }

    after-Counts :
        (ss : List ℕ) (st : Client D) (n : ℕ)
        → Counts st n
        → Counts (after st ss) (trailing policy n ss)
    unfolding after
    after-Counts [] st n c = c
    after-Counts (s ∷ ss) st n c = after-Counts ss _ _ (advance_run-Counts st n s c)

    -- From a client with no run and no alarm, and a policy that sustains for 1 to 65535 ticks: after
    -- any run of scored ticks the alarm is set exactly if at least that many of the last scores, without a
    -- gap, lie below the band, though the 16-bit counter stops at 65535.
    pub after-alarm :
        (st : Client D) (ss : List ℕ)
        → st.threshold_cross ≡ 0
        → st.alarm ≡ false
        → ((after st ss).alarm ≡ leb policy.latency_sustain_ticks (trailing policy 0 ss))
          × ((after st ss).threshold_cross ≡ clamp16 (trailing policy 0 ss))
    after-alarm st ss none_yet quiet =
        let c = after-Counts ss st 0 (record { cross = none_yet; alarm = ground arith }) in
        (c.alarm, c.cross)
