-- ===== src/Life/Sinks.antt =====
-- The two slots for callbacks of source/wei_life.c beside the roster: the one that station events are
-- delivered through, and the one that excursions are reported to.
use wei.Base.{ℕ, Bool, true, false, Option, if◌then◌else◌}
use wei.Base.Int.{ℤ}
use wei.Base.Mac.{Mac}
use wei.Double.{Double}
use wei.Scorer.{Sigmoid}
use wei.Life.{Roster, Policy, Event, Excursion, init, on_station_event, eval_station, report}

-- The roster, whether `g_wei_life_sink` holds `wei_life_station_sink` and this roster, the sink of
-- `g_wei_life_report` (NULL is `none`), and what its user pointer leads to.
pub record Wiring (U : Type 0) : Type 0 where
  pub roster : Roster
  pub bound : Bool
  pub sink : Option (Excursion → ℕ → U → U)
  pub user : U

module _ {U : Type 0} where
  -- `wei_life_init`, with whether `pthread_mutex_init` succeeds; the return value is 0 exactly for
  -- `true`. Where it fails the roster is set already and the slot is not.
  unfoldable pub init_wiring : Bool → Option Policy → Wiring U → Wiring U × Bool
  unfolding init
  init_wiring mutex_ok policy w =
      if mutex_ok
      then (record w { roster = init policy; bound = true }, true)
      else (record w { roster = init policy }, false)

  -- `wei_life_deinit`; the contexts are not freed.
  unfoldable pub deinit_wiring : Wiring U → Wiring U
  deinit_wiring w = record w { bound = false }

  unfoldable pub set_report_sink : Option (Excursion → ℕ → U → U) → U → Wiring U → Wiring U
  set_report_sink sink user w = record w { sink = sink; user = user }

  -- `wei_life_station_sink`, with whether memory is there.
  unfoldable pub station_sink : Bool → Event → Mac → Wiring U → Wiring U
  unfolding on_station_event
  station_sink alloc event mac w = record w { roster = on_station_event alloc w.roster event mac }

  -- The callback that `wei_life_tick_fn` yields, with the reports delivered.
  unfoldable pub tick_fn : {D : Type 0} → Double D → Sigmoid D → ℤ → Wiring U → Wiring U
  unfolding eval_station
  tick_fn d q now w =
      let (roster, out) = eval_station d q w.roster now in
      record w { roster = roster; user = report d q w.sink out w.user }
