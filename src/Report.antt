-- ===== src/Report.antt =====
-- source/wei_report_publish.c: the lifecycle report, one record per client and interval, published
-- through the data model's event while the pillar is enabled.
pub mod Gate
mod Examples
use wei.Base.{ℕ, ◌%◌, ◌*◌, ◌+◌, ◌/◌, Bool, true, false, not, Option, none, some, if◌then◌else◌}
use wei.Base.Mac.{Mac}
use wei.Infer.Types.{Verdict, Result}
use wei.Rbus.{
  BusError, success, invalid_input, general, is_success, RawData, boolean, uint32, untyped,
}
use wei.Rfc.{Rfc}
use wei.Dml.{enable_get}
use wei.Bus.{Bus, bus_handle}

-- `wei_report_record_t`.
pub record ReportRecord : Type 0 where
  pub client_mac : Mac
  pub score : ℕ
  pub verdict : Verdict
  pub report_ts_ms : ℕ

-- The gate, on what the enable accessor returns for a zeroed value.
abbrev pub enabled_of : Option RawData × BusError → Bool
enabled_of (none, rc) = false
enabled_of (some (boolean b), rc) = if is_success rc then b else false
enabled_of (some (uint32 n), rc) = false
enabled_of (some (untyped t), rc) = false

unfoldable pub report_enabled : Rfc → Bool
report_enabled rfc = enabled_of (enable_get rfc true (some (untyped 0)))

-- CLOCK_REALTIME, after the epoch.
pub record Clock : Type 0 where
  pub tv_sec : ℕ
  pub tv_nsec : ℕ

unfoldable pub stamp_time : Clock → ReportRecord → ReportRecord
stamp_time ts rec = record rec { report_ts_ms = ts.tv_sec * 1000 + ts.tv_nsec / 1000000 }

-- The record that the payload points at; `zeroed` is what the caller has put there.
unfoldable pub marshal : Clock → ReportRecord → Mac → Result → ReportRecord
marshal ts zeroed mac result =
    stamp_time ts
      (record zeroed { client_mac = mac; score = result.score; verdict = result.verdict })

-- `ready` is whether the descriptor has its publish function, `publish` what that function returns
-- for a record. The return value, and the record that the function was called with, if it was.
unfoldable pub fire :
    Bool → (ReportRecord → BusError) → Bool → ReportRecord → BusError × Option ReportRecord
fire ready publish has_handle rec =
    if not has_handle
    then (invalid_input, none)
    else if not ready
    then (general, none)
    else (publish rec, some rec)

abbrev pub should_emit : Bool
should_emit = true

-- A NULL client or result is none.
unfoldable pub publish_tick :
    Bool
    → (ReportRecord → BusError)
    → Clock
    → ReportRecord
    → Rfc
    → Bus
    → Option Mac
    → Option Result
    → BusError × Option ReportRecord
publish_tick ready publish ts zeroed rfc bus none result = (invalid_input, none)
publish_tick ready publish ts zeroed rfc bus (some mac) none = (invalid_input, none)
publish_tick ready publish ts zeroed rfc bus (some mac) (some result) =
    if not (report_enabled rfc)
    then (success, none)
    else if not should_emit
    then (success, none)
    else if not (bus_handle bus)
    then (general, none)
    else fire ready publish true (marshal ts zeroed mac result)
