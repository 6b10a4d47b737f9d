-- ===== src/Life/Walk.antt =====
-- The interval walk of source/wei_life.c by slots. The guard is taken for one slot at a time, so that
-- the events and samples of other threads come between two slots, and never within one.
pub mod Whole
pub mod Others
pub mod Once
use wei.Base.{ℕ, zero, suc, ◌+◌, ◌<◌, Bool, Option, none, some, List, [], ◌∷◌, ◌++◌, get_or, set}
use wei.Base.Int.{ℤ}
use wei.Base.Mac.{Mac}
use wei.Metric.{Metric}
use wei.Double.{Double}
use wei.Scorer.{Sigmoid, score}
use wei.Track.{max_clients}
use wei.Life.{Ctx, Roster, Event, Excursion, on_station_event, ingest_metric, eval_ctx, with_score}

-- The loop under way: the roster, the next index, and what was reported, in order.
pub record Walk : Type 0 where
  pub roster : Roster
  pub index : ℕ
  pub reports : List (Excursion × ℕ)

module _ {D : Type 0} (d : Double D) (q : Sigmoid D) where
  -- The context's excursions with the score of the sample that was copied under the guard.
  abbrev pub batch_of : Roster → ℤ → Ctx → List (Excursion × ℕ)
  batch_of roster now ctx =
      with_score d q (score d q (some ctx.sample)) (eval_ctx roster.policy now ctx).1

  abbrev pub visited : Roster → ℤ → ℕ → Option Ctx → Roster × List (Excursion × ℕ)
  visited roster now i none = (roster, [])
  visited roster now i (some ctx) = (
    record roster { slots = set roster.slots i (some (eval_ctx roster.policy now ctx).0) },
    batch_of roster now ctx,
  )

  -- The body of the loop for one index.
  unfoldable pub visit : Roster → ℤ → ℕ → Roster × List (Excursion × ℕ)
  unfolding eval_ctx
  visit roster now i = visited roster now i (get_or roster.slots i none)

  -- The loop from an index, with no other thread between, the first argument counting the turns left.
  unfoldable pub walk : ℕ → ℕ → Roster → ℤ → Roster × List (Excursion × ℕ)
  unfolding visit
  walk zero i roster now = (roster, [])
  walk (suc n) i roster now =
      let (roster', out) = visit roster now i in
      let (roster'', later) = walk n (suc i) roster' now in (roster'', out ++ later)

  -- A turn of the loop, or what another thread does between two turns for a station of which `P` holds.
  pub data Move (now : ℤ) (P : Mac → Type 0) : Walk → Walk → Type 0 where
    turn :
        (w : Walk)
        → w.index < max_clients
        → Move now P w (record {
          roster = (visit w.roster now w.index).0;
          index = suc w.index;
          reports = w.reports ++ (visit w.roster now w.index).1;
        })
    event :
        (w : Walk) (alloc : Bool) (e : Event) (mac : Mac)
        → P mac
        → Move now P w (record w { roster = on_station_event alloc w.roster e mac })
    sample :
        (w : Walk) (mac : Mac) (rec : Metric)
        → P mac
        → Move now P w (record w { roster = ingest_metric w.roster mac rec })

  pub data Moves (now : ℤ) (P : Mac → Type 0) (w : Walk) : Walk → Type 0 where
    done : Moves now P w w
    then_move : {v u : Walk} → Moves now P w v → Move now P v u → Moves now P w u
