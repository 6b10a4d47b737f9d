-- ===== src/Infer/Types.antt =====
-- The data of the engine (include/wei_infer.h): policy, per-client result and state, membership
-- slot, episode ledger. Flags that hold 0 or 1 are Booleans.
use wei.Base.{ℕ, Bool, true, false, List, replicate}
use wei.Base.Int.{ℤ, pos}
use wei.Base.Mac.{Mac, zero_mac}
use wei.Metric.{Metric, active, ok}
use wei.Double.{Double, of_ℕ}

pub data Verdict : Type 0 where
  smooth degraded : Verdict

pub data Contributor : Type 0 where
  none_of snr phy pkt_err chan_util : Contributor

abbrev pub is_degraded : Verdict → Bool
is_degraded smooth = false
is_degraded degraded = true

-- `wei_infer_policy_t`.
pub record Policy : Type 0 where
  pub tput_var_band : ℤ
  pub tput_floor_ms : ℤ
  pub latency_score_band : ℕ
  pub latency_sustain_ticks : ℕ
  pub video_degrade_band : ℕ

-- `wei_infer_result_t`.
pub record Result : Type 0 where
  pub score : ℕ
  pub verdict : Verdict
  pub dominant : Contributor
  pub video_degrade : Bool
  pub pkt_err_pct : ℕ

-- `wei_infer_band_t`.
pub record Band (D : Type 0) : Type 0 where
  pub lo : D
  pub hi : D
  pub primed : Bool

abbrev pub perr_window : ℕ
perr_window = 8

abbrev pub phy_window_size : ℕ
phy_window_size = 8

-- `wei_infer_client_t`: `norm_band[0]`, `[1]` and `[2]` are the bands of SNR, PHY rate and loss.
pub record Client (D : Type 0) : Type 0 where
  pub snr_band : Band D
  pub phy_band : Band D
  pub per_band : Band D
  pub perr_frames : List ℕ
  pub perr_errs : List ℕ
  pub perr_head : ℕ
  pub perr_fill : ℕ
  pub phy_window : List ℕ
  pub phy_head : ℕ
  pub phy_fill : ℕ
  pub threshold_cross : ℕ
  pub alarm : Bool
  pub disconnected : Bool
  pub disconnect_ts : ℤ
  pub reconnect_ramp : ℕ

-- `wei_infer_slot_t`.
pub record Slot (D : Type 0) : Type 0 where
  pub mac : Mac
  pub in_use : Bool
  pub last_seen : ℤ
  pub state : Client D

-- `wei_infer_episode_t`.
pub record Episode : Type 0 where
  pub start_ms : ℤ
  pub stop_ms : ℤ

abbrev pub episode_cap : ℕ
episode_cap = 8

-- `wei_infer_episode_log_t`.
pub record EpisodeLog : Type 0 where
  pub ring : List Episode
  pub head : ℕ
  pub fill : ℕ
  pub episodes : ℕ

-- What `calloc` and `memset` leave.
abbrev pub zero_metric : Metric
zero_metric = record {
  version = 0;
  activity_state = active;
  status = ok;
  link_snr_db = pos 0;
  phy_rate_kbps = 0;
  tx_frames = 0;
  tx_err_frames = 0;
  chan_util_pct = 0;
}

abbrev pub zero_result : Result
zero_result = record {
  score = 0;
  verdict = smooth;
  dominant = none_of;
  video_degrade = false;
  pkt_err_pct = 0;
}

abbrev pub zero_episode : Episode
zero_episode = record { start_ms = pos 0; stop_ms = pos 0 }

abbrev pub zero_log : EpisodeLog
zero_log = record { ring = replicate episode_cap zero_episode; head = 0; fill = 0; episodes = 0 }

module _ {D : Type 0} (d : Double D) where
  abbrev pub zero_band : Band D
  zero_band = record { lo = of_ℕ d 0; hi = of_ℕ d 0; primed = false }

  abbrev pub zero_client : Client D
  zero_client = record {
    snr_band = zero_band;
    phy_band = zero_band;
    per_band = zero_band;
    perr_frames = replicate perr_window 0;
    perr_errs = replicate perr_window 0;
    perr_head = 0;
    perr_fill = 0;
    phy_window = replicate phy_window_size 0;
    phy_head = 0;
    phy_fill = 0;
    threshold_cross = 0;
    alarm = false;
    disconnected = false;
    disconnect_ts = pos 0;
    reconnect_ramp = 0;
  }

  abbrev pub zero_slot : Slot D
  zero_slot = record { mac = zero_mac; in_use = false; last_seen = pos 0; state = zero_client }
