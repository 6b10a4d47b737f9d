-- ===== src/Report/Examples.antt =====
-- A report on a bus that is open.
use wei.Base.{◌≡◌, ◌&&◌, is_some, arith, true, false, none, some}
use wei.Rbus.{success}
use wei.Infer.Types.{smooth, Result}
use wei.Perfreport.Examples.{tablet, result}
use wei.Base.Mac.{Mac}
use wei.Rfc.{Rfc}
use wei.Rfc.Examples.{at_boot}
use wei.Bus.{closed, bus_open}
use wei.Bus.Examples.{works}
use wei.Report.{ReportRecord, Clock, publish_tick}
use wei.Report.Gate.{IsReportOf, publish_tick_fires}

abbrev noon : Clock
noon = record { tv_sec = 1700000000; tv_nsec = 5000000 }

abbrev zeroed : ReportRecord
zeroed = record { client_mac = tablet; score = 0; verdict = smooth; report_ts_ms = 0 }

abbrev enabled : Rfc
enabled = record at_boot { connperf_enabled = true }

publish_tick_fires_example :
    let bus = (bus_open works closed).0 in
    let (rc, fired) =
      publish_tick true (λ r. success) noon zeroed enabled bus (some tablet) (some result) in
    (is_some fired ≡ (true && true && true && bus.opened && true))
    × ((rec : ReportRecord)
        → fired ≡ some rec
        → (rc ≡ success)
          × (m : Mac) × (r : Result) × (some tablet ≡ some m)
          × (some result ≡ some r)
          × IsReportOf noon m r rec)
    × (fired ≡ none → rc ≡ success → true ≡ false)
publish_tick_fires_example =
    publish_tick_fires true (λ r. success) noon zeroed enabled (bus_open works closed).0
      (some tablet) (some result) (omega arith)
