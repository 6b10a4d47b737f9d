-- ===== src/System.antt =====
-- source/weid_wire.c with the loop of source/wei_poll.c, the engine of source/wei_infer.c and the
-- publisher of source/wei_perfreport.c: the callbacks that the receiver gives the loop, and what they
-- change.
pub mod Publications
pub mod Steady
pub mod Range
pub mod Reports
pub mod Verdicts
pub mod Examples
use wei.Base.{ℕ, ◌+◌, Bool, true, false, Option, none, some, List, [], ◌∷◌}
use wei.Base.Int.{ℤ}
use wei.Base.Mac.{Mac}
use wei.Metric.{Metric}
use wei.Double.{Double}
use wei.Scorer.{Sigmoid}
use wei.Infer.Types.{Result}
use wei.Infer.Engine.{Engine, tick}
use wei.Perfreport.{Host, Publisher, publish_tick}
use wei.Wire.{Layout, on_datagram}
use wei.Poll.{Callbacks}

-- What the poll thread changes; `turn` counts the callbacks, and is there for the environment alone.
pub record World (D : Type 0) : Type 0 where
  pub engine : Engine D
  pub publisher : Publisher
  pub turn : ℕ

-- The environment by callback: the readings of the clock, and what a client's report meets.
module _ {D : Type 0} (d : Double D) (q : Sigmoid D) (l : Layout) (clock : ℕ → ℕ → ℤ)
    (host : ℕ → Mac → Host) where
  abbrev pub publish : ℕ → Mac → Result → Metric → Publisher → Publisher
  publish turn mac result metrics p = (publish_tick (host turn mac) p mac result metrics).0

  -- `weid_on_datagram`; no callback retunes the loop.
  unfoldable pub wire_datagram : List ℕ → World D → World D × List ℕ
  wire_datagram bytes w =
      (record w { engine = on_datagram d l (clock w.turn) bytes w.engine; turn = w.turn + 1 }, [])

  -- `weid_on_tick`.
  unfoldable pub on_tick : World D → World D × List ℕ
  on_tick w =
      let (engine, publisher) = tick d q (publish w.turn) w.engine w.publisher (clock w.turn 0) in
      (record { engine = engine; publisher = publisher; turn = w.turn + 1 }, [])

  -- What `weid_wire_init` passes to `wei_poll_create`.
  abbrev pub calls : Callbacks (World D)
  calls = record { on_datagram = some wire_datagram; on_tick = some on_tick }
