-- ===== src/Infer/Ledger/History.antt =====
-- The ring of episodes against the whole history of a client's degradations.
use wei.Base.{
  ℕ, suc, ◌+◌, ◌-◌, ◌^◌, ◌≡◌, refl, ◌∙◌, Bool, true, false, List, [], ◌∷◌, arith, if◌then◌else◌,
  ltb, length, get_or-get_elem?,
}
use wei.Base.Int.{ℤ, pos, is_zero}
use wei.Base.Ring.{Shows, Shows-newest, push-Shows, replace-Shows}
use wei.Infer.Types.{Verdict, smooth, degraded, Episode, EpisodeLog, zero_episode, zero_log}
use wei.Infer.Ledger.{current, is_open, open_head, open_episode, close_episode, ledger_update}

-- Every episode so far, the newest first.
abbrev pub History : Type 0
History = List Episode

abbrev pub running : Episode → Bool
running e = is_zero e.stop_ms

-- A degraded tick opens an episode unless one runs; a smooth tick ends the one that runs.
abbrev pub note : History → Verdict → ℤ → History
note [] smooth now = []
note [] degraded now = record { start_ms = now; stop_ms = pos 0 } ∷ []
note (e ∷ h) smooth now = (if running e then record e { stop_ms = now } else e) ∷ h
note (e ∷ h) degraded now =
    if running e then e ∷ h else record { start_ms = now; stop_ms = pos 0 } ∷ e ∷ h

abbrev pub clamp32 : ℕ → ℕ
clamp32 n = if ltb n (2 ^ 32 - 1) then n else 2 ^ 32 - 1

-- The ring has the last eight episodes, and the counter all of them, up to UINT32_MAX.
pub record Keeps (log : EpisodeLog) (h : History) : Type 0 where
  pub ring : Shows log.ring log.head log.fill h
  pub counted : log.episodes ≡ clamp32 (length h)

current_of : (log : EpisodeLog) (e : Episode) (h : History) → Keeps log (e ∷ h) → current log ≡ e
current_of log e h k =
    get_or-get_elem? log.ring log.head e zero_episode
      (Shows-newest log.ring log.head log.fill e h k.ring)

is_open_none : (log : EpisodeLog) → Keeps log [] → is_open log ≡ false
is_open_none log k = ground (arith, k.ring.held)

is_open_some :
    (log : EpisodeLog) (e : Episode) (h : History) → Keeps log (e ∷ h) → is_open log ≡ running e
is_open_some log e h k = rw (current_of log e h k) (ground (arith, k.ring.held))

opened-Keeps :
    (log : EpisodeLog) (h : History) (now : ℤ)
    → Keeps log h
    → Keeps (open_episode log now) (record { start_ms = now; stop_ms = pos 0 } ∷ h)
unfolding open_episode
opened-Keeps log h now k = record {
  ring =
      push-Shows log.ring log.head (open_head log) log.fill h _ k.ring
        (ground (arith, k.ring.newest)) (λ some_held. ground arith);
  counted = ground (arith, k.counted);
}

closed-Keeps :
    (log : EpisodeLog) (e : Episode) (h : History) (now : ℤ)
    → Keeps log (e ∷ h)
    → Keeps (close_episode log now) (record e { stop_ms = now } ∷ h)
unfolding close_episode
closed-Keeps log e h now k =
    rw (current_of log e h k)
      (record { ring = replace-Shows log.ring log.head log.fill e h _ k.ring; counted = k.counted })

-- A ledger that keeps a client's episodes keeps them after any tick, whether it degrades or not: the
-- ring has the last eight, the newest first from its head, and the counter stops at UINT32_MAX.
pub ledger_update-Keeps :
    (log : EpisodeLog) (h : History) (v : Verdict) (now : ℤ)
    → Keeps log h
    → Keeps (ledger_update log v now) (note h v now)
unfolding ledger_update
ledger_update-Keeps log [] smooth now k = rw (is_open_none log k) k
ledger_update-Keeps log [] degraded now k = rw (is_open_none log k) (opened-Keeps log [] now k)
ledger_update-Keeps log (e ∷ h) smooth now k = rw (is_open_some log e h k) (go (running e))
  where
    go :
        (b : Bool)
        → Keeps
            (if b then close_episode log now else log)
            ((if b then record e { stop_ms = now } else e) ∷ h)
    go true = closed-Keeps log e h now k
    go false = k
ledger_update-Keeps log (e ∷ h) degraded now k = rw (is_open_some log e h k) (go (running e))
  where
    go :
        (b : Bool)
        → Keeps
            (if b then log else open_episode log now)
            (if b then e ∷ h else record { start_ms = now; stop_ms = pos 0 } ∷ e ∷ h)
    go true = k
    go false = opened-Keeps log (e ∷ h) now k

-- The ledger and the history after a run of ticks, with their times.
abbrev pub ledger_after : EpisodeLog → List (Verdict × ℤ) → EpisodeLog
ledger_after log [] = log
ledger_after log ((v, now) ∷ ticks) = ledger_after (ledger_update log v now) ticks

abbrev pub notes : History → List (Verdict × ℤ) → History
notes h [] = h
notes h ((v, now) ∷ ticks) = notes (note h v now) ticks

notes-Keeps :
    (ticks : List (Verdict × ℤ)) (log : EpisodeLog) (h : History)
    → Keeps log h
    → Keeps (ledger_after log ticks) (notes h ticks)
notes-Keeps [] log h k = k
notes-Keeps ((v, now) ∷ ticks) log h k = notes-Keeps ticks _ _ (ledger_update-Keeps log h v now k)

-- After any run of ticks from an empty ledger, the ring has the client's last eight episodes, the newest
-- first from its head, and the counter says how many there were, up to UINT32_MAX.
pub ledger_after-Keeps :
    (ticks : List (Verdict × ℤ)) → Keeps (ledger_after zero_log ticks) (notes [] ticks)
ledger_after-Keeps ticks = notes-Keeps ticks zero_log [] (record {
  ring = record {
    places = refl;
    newest = omega arith;
    held = refl;
    shown = λ k none_held. absurd (omega arith);
  };
  counted = refl;
})

-- How often the verdict turned from smooth to degraded, with the verdict before the first tick.
abbrev pub onsets : Verdict → List (Verdict × ℤ) → ℕ
onsets was [] = 0
onsets was ((smooth, now) ∷ ticks) = onsets smooth ticks
onsets smooth ((degraded, now) ∷ ticks) = suc (onsets degraded ticks)
onsets degraded ((degraded, now) ∷ ticks) = onsets degraded ticks

-- The verdict before, as the history tells it.
abbrev standing : History → Verdict
standing [] = smooth
standing (e ∷ h) = if running e then degraded else smooth

abbrev pub AllTimed : List (Verdict × ℤ) → Type 0
AllTimed [] = Unit {0}
AllTimed ((v, now) ∷ ticks) = (is_zero now ≡ false) × AllTimed ticks

module _ (ticks : List (Verdict × ℤ)) (now : ℤ) (timed : is_zero now ≡ false)
    (ih : (h : History) → length (notes h ticks) ≡ onsets (standing h) ticks + length h)
    (e : Episode) (h : History) where
  length-smooth :
      length (notes (e ∷ h) ((smooth, now) ∷ ticks)) ≡ onsets smooth ticks + suc (length h)
  length-smooth = go (running e) refl
    where
      go :
          (b : Bool)
          → running e ≡ b
          → length (notes ((if b then record e { stop_ms = now } else e) ∷ h) ticks)
            ≡ onsets smooth ticks + suc (length h)
      go true on = let all = ih (record e { stop_ms = now } ∷ h) in rw timed at all
      go false off = let all = ih (e ∷ h) in rw off at all

  length-degraded :
      length (notes (e ∷ h) ((degraded, now) ∷ ticks))
      ≡ onsets (standing (e ∷ h)) ((degraded, now) ∷ ticks) + suc (length h)
  length-degraded = go (running e) refl
    where
      go :
          (b : Bool)
          → running e ≡ b
          → length (
              notes (if b then e ∷ h else record { start_ms = now; stop_ms = pos 0 } ∷ e ∷ h) ticks)
            ≡ onsets (if b then degraded else smooth) ((degraded, now) ∷ ticks) + suc (length h)
      go true on = let all = ih (e ∷ h) in rw on at all
      go false off =
          let all = ih (record { start_ms = now; stop_ms = pos 0 } ∷ e ∷ h) in omega (arith, all)

length-notes :
    (ticks : List (Verdict × ℤ)) (h : History)
    → AllTimed ticks
    → length (notes h ticks) ≡ onsets (standing h) ticks + length h
length-notes [] h timed = omega arith
length-notes ((smooth, now) ∷ ticks) [] timed = length-notes ticks [] timed.1
length-notes ((degraded, now) ∷ ticks) [] timed = omega (arith, length-notes ticks _ timed.1)
length-notes ((smooth, now) ∷ ticks) (e ∷ h) timed =
    length-smooth ticks now timed.0 (λ h'. length-notes ticks h' timed.1) e h
length-notes ((degraded, now) ∷ ticks) (e ∷ h) timed =
    length-degraded ticks now timed.0 (λ h'. length-notes ticks h' timed.1) e h

-- If no tick is at time 0, the counter of a client's episodes after any run of ticks from an empty
-- ledger is the number of times that its verdict turned from smooth to degraded, up to UINT32_MAX.
pub ledger_after-episodes :
    (ticks : List (Verdict × ℤ))
    → AllTimed ticks
    → (ledger_after zero_log ticks).episodes ≡ clamp32 (onsets smooth ticks)
ledger_after-episodes ticks timed =
    (ledger_after-Keeps ticks).counted ∙ (rw (length-notes ticks [] timed) (ground arith))
