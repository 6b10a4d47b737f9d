-- ===== src/Daemon/Examples.antt =====
-- A process whose calls all work.
use wei.Base.{refl, true, List, [], length, ◌≡◌, ◌∷◌}
use wei.Base.Mac.{Mac}
use wei.Double.Fixed.{fixed}
use wei.Scorer.Examples.{sigmoid, special_sigmoid, special_sigmoid-IsSmall}
use wei.Double.Special.{special}
use wei.Double.Special.Laws.{special-IsIeee}
use wei.Perfreport.{Report}
use wei.Perfreport.Clients.{sent}
use wei.Perfreport.Baseline.{Alternates}
use wei.Rfc.Examples.{store, at_boot}
use wei.Bus.{closed}
use wei.Bus.Examples.{works}
use wei.Wire.Examples.{layout}
use wei.Poll.Examples.{sock, late}
use wei.System.Examples.{clocks, hosts, fed_passes}
use wei.System.Range.{AllRanged}
use wei.Daemon.{Env, main}
use wei.Daemon.Exit.{IsClean, main-IsClean}
use wei.Daemon.Reports.{main-IsReported}

abbrev env : Env
env = record {
  sigmask_ok = true;
  bus = works;
  engine_alloc = true;
  sock = sock;
  poll_alloc = true;
  thread_ok = true;
  now = 1000;
  passes = late ∷ late ∷ [];
}

main-IsClean_example :
    IsClean fixed (main fixed sigmoid layout clocks hosts 108 (47 ∷ []) store env at_boot closed)
main-IsClean_example =
    main-IsClean fixed sigmoid layout clocks hosts 108 (47 ∷ []) store env at_boot

-- Its loop receives a sample of a client and ticks four times.
abbrev fed_env : Env
fed_env = record env { passes = fed_passes }

abbrev fed_events : List Report
fed_events =
    (main special special_sigmoid layout clocks hosts 108 (47 ∷ []) store fed_env at_boot
      closed).publisher.events

publishes_one : length fed_events ≡ 1
unfolding wei.Base.Mac.same_mac wei.Base.Int.◌+ℤ◌ wei.Base.Int.◌-ℤ◌ wei.Base.Int.neg wei.Slots.scan
    wei.Double.Special.held wei.Double.Special.sum wei.Double.Special.difference
    wei.Double.Special.product wei.Double.Special.quotient wei.Double.Special.less
    wei.Double.Special.at_most wei.Double.Fixed.lround_fixed wei.Double.Fixed.mul_fixed
    wei.Double.Fixed.div_fixed wei.Double.Fixed.sqrt_fixed wei.Double.Fixed.exp_fixed
    wei.Scorer.score wei.Track.get wei.Track.reap wei.Track.tick wei.Track.collect
    wei.Infer.Windows.phy_instability wei.Infer.Score.score_client wei.Infer.Flags.flag_instability
    wei.Infer.Flags.flag_latency_risk wei.Infer.Flags.flag_video_degrade
    wei.Infer.Engine.stage_record wei.Infer.Engine.tick wei.Perfreport.publish_tick
    wei.Wire.on_datagram wei.Wire.wire_init wei.Poll.received_part wei.Poll.sock_open
    wei.Poll.poll_create wei.Poll.revive_socket wei.Poll.retunes wei.Poll.sock_drain wei.Poll.due
    wei.Poll.run_pass wei.Poll.run_passes wei.Poll.poll_run wei.System.wire_datagram
    wei.System.on_tick wei.Bus.bus_open wei.Dml.register wei.Daemon.started wei.Daemon.main
publishes_one = refl

main-IsReported_example :
    let p =
      (main special special_sigmoid layout clocks hosts 108
        (47 ∷ [])
        store
        fed_env
        at_boot
        closed).publisher in
    AllRanged p.events × ((m : Mac) → Alternates (sent m p.events))
main-IsReported_example =
    main-IsReported special special-IsIeee special_sigmoid special_sigmoid-IsSmall.0
      special_sigmoid-IsSmall.1 layout clocks hosts 108 (47 ∷ []) store fed_env at_boot closed
