-- ===== src/Metric.antt =====
-- include/wei_conn_metric.h: one client's connected-performance metrics. Unsigned fields are
-- numbers, and `link_snr_db` is an integer.
use wei.Base.{ℕ, ◌-◌, ◌^◌, ◌<◌, Bool, true, false}
use wei.Base.Int.{ℤ, pos, negsuc, ◌≤ℤ◌}

pub data State : Type 0 where
  active idle sleeping : State

pub data Status : Type 0 where
  ok no_client_data stale score_suppressed : Status

pub record Metric : Type 0 where
  pub version : ℕ
  pub activity_state : State
  pub status : Status
  pub link_snr_db : ℤ
  pub phy_rate_kbps : ℕ
  pub tx_frames : ℕ
  pub tx_err_frames : ℕ
  pub chan_util_pct : ℕ

abbrev pub version_number : ℕ
version_number = 3

-- `state == WEI_CONN_METRIC_STATE_ACTIVE` and `status == WEI_CONN_METRIC_STATUS_OK`.
abbrev pub is_active : State → Bool
is_active active = true
is_active idle = false
is_active sleeping = false

abbrev pub is_ok : Status → Bool
is_ok ok = true
is_ok no_client_data = false
is_ok stale = false
is_ok score_suppressed = false

-- The fields are within their C types.
pub record IsTyped (m : Metric) : Type 0 where
  pub snr_low : negsuc (2 ^ 31 - 1) ≤ℤ m.link_snr_db
  pub snr_high : m.link_snr_db ≤ℤ pos (2 ^ 31 - 1)
  pub phy : m.phy_rate_kbps < 2 ^ 32
  pub frames : m.tx_frames < 2 ^ 32
  pub errors : m.tx_err_frames < 2 ^ 32
  pub util : m.chan_util_pct < 256
