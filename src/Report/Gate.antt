-- ===== src/Report/Gate.antt =====
-- When source/wei_report_publish.c fires a report, and with what.
use wei.Base.{◌%◌, ◌/◌, ◌<◌, ◌≡◌, refl, Bool, false, Option, none, some, ◌&&◌, is_some, arith}
use mathlib.Core.Path.{subst}
use wei.Base.Mac.{Mac}
use wei.Infer.Types.{Result}
use wei.Rbus.{BusError, success}
use wei.Rfc.{Rfc}
use wei.Dml.{enable_get}
use wei.Bus.{Bus}
use wei.Report.{ReportRecord, report_enabled, Clock, marshal, stamp_time, fire, publish_tick}

report_enabled_lem : (rfc : Rfc) → report_enabled rfc ≡ rfc.connperf_enabled
unfolding report_enabled enable_get
report_enabled_lem rfc = refl

-- The client's report: its address, the score and the verdict of its result, and the time, of which
-- the seconds and the milliseconds of the clock can be read back.
pub record IsReportOf (ts : Clock) (mac : Mac) (result : Result) (rec : ReportRecord) : Type 0 where
  pub client : rec.client_mac ≡ mac
  pub score : rec.score ≡ result.score
  pub verdict : rec.verdict ≡ result.verdict
  pub seconds : rec.report_ts_ms / 1000 ≡ ts.tv_sec
  pub millis : rec.report_ts_ms % 1000 ≡ ts.tv_nsec / 1000000

-- The stamp within a second.
pub stamp_time-IsMillis :
    (ts : Clock) (rec : ReportRecord)
    → ts.tv_nsec < 1000000000
    → ((stamp_time ts rec).report_ts_ms / 1000 ≡ ts.tv_sec)
      × ((stamp_time ts rec).report_ts_ms % 1000 ≡ ts.tv_nsec / 1000000)
unfolding stamp_time
stamp_time-IsMillis ts rec small = (omega arith, omega arith)

marshal-IsReportOf :
    (ts : Clock) (zeroed : ReportRecord) (mac : Mac) (result : Result)
    → ts.tv_nsec < 1000000000
    → IsReportOf ts mac result (marshal ts zeroed mac result)
unfolding marshal stamp_time
marshal-IsReportOf ts zeroed mac result small =
    let rec = record zeroed { client_mac = mac; score = result.score; verdict = result.verdict } in
    let (seconds, millis) = stamp_time-IsMillis ts rec small in
    record { client = refl; score = refl; verdict = refl; seconds = seconds; millis = millis }

module _ (ready : Bool) (publish : ReportRecord → BusError) (ts : Clock)
    (zeroed : ReportRecord) where
  -- On a clock whose nanoseconds are within a second, whatever the caller's record held before: a
  -- report is fired exactly if the client and its result are given, the pillar is enabled, the bus is
  -- open and its publish function is there. What is fired is then that client's report, and the
  -- call returns what the bus returns for it; and where none is fired, the call succeeds only if
  -- the pillar is disabled.
  pub publish_tick_fires :
      (rfc : Rfc) (bus : Bus) (mac : Option Mac) (result : Option Result)
      → ts.tv_nsec < 1000000000
      → let (rc, fired) = publish_tick ready publish ts zeroed rfc bus mac result in
        (is_some fired
          ≡ (is_some mac && is_some result && rfc.connperf_enabled && bus.opened && ready))
        × ((rec : ReportRecord)
            → fired ≡ some rec
            → (rc ≡ publish rec)
              × (m : Mac) × (r : Result) × (mac ≡ some m)
              × (result ≡ some r)
              × IsReportOf ts m r rec)
        × (fired ≡ none → rc ≡ success → rfc.connperf_enabled ≡ false)
  unfolding publish_tick fire report_enabled enable_get
  publish_tick_fires rfc bus none result small =
      (refl, (λ rec fired. absurd (ground arith)), λ quiet done. absurd (ground arith))
  publish_tick_fires rfc bus (some mac) none small =
      (refl, (λ rec fired. absurd (ground arith)), λ quiet done. absurd (ground arith))
  publish_tick_fires rfc bus (some mac) (some result) small = (
    ground arith,
    λ rec fired.
        let same : marshal ts zeroed mac result ≡ rec = ground arith in
        (
          ground arith,
          mac,
          result,
          refl,
          refl,
          subst (IsReportOf ts mac result) same (marshal-IsReportOf ts zeroed mac result small),
        ),
    λ quiet done. ground arith,
  )
