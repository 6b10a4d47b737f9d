-- ===== src/Infer/Ledger.antt =====
-- `wei_infer_ledger_update` (source/wei_infer.c): the ring of a client's degradation episodes.
pub mod History
use wei.Base.{ℕ, ◌+◌, ◌-◌, ◌%◌, ◌^◌, Bool, true, false, ◌&&◌, if◌then◌else◌, ltb, get_or, set}
use wei.Base.Int.{ℤ, pos, is_zero}
use wei.Infer.Types.{Verdict, smooth, degraded, Episode, EpisodeLog, zero_episode, episode_cap}

abbrev pub current : EpisodeLog → Episode
current log = get_or log.ring log.head zero_episode

-- The most recent episode has no stop stamp.
abbrev pub is_open : EpisodeLog → Bool
is_open log = ltb 0 log.fill && is_zero (current log).stop_ms

abbrev pub open_head : EpisodeLog → ℕ
open_head log = if ltb 0 log.fill then (log.head + 1) % episode_cap else 0

unfoldable pub open_episode : EpisodeLog → ℤ → EpisodeLog
open_episode log now = record log {
  ring = set log.ring (open_head log) (record { start_ms = now; stop_ms = pos 0 });
  head = open_head log;
  fill = if ltb log.fill episode_cap then log.fill + 1 else log.fill;
  episodes = if ltb log.episodes (2 ^ 32 - 1) then log.episodes + 1 else log.episodes;
}

unfoldable pub close_episode : EpisodeLog → ℤ → EpisodeLog
close_episode log now = record log {
  ring = set log.ring log.head (record (current log) { stop_ms = now });
}

unfoldable pub ledger_update : EpisodeLog → Verdict → ℤ → EpisodeLog
unfolding open_episode close_episode
ledger_update log degraded now = if is_open log then log else open_episode log now
ledger_update log smooth now = if is_open log then close_episode log now else log
