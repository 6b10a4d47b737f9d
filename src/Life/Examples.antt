-- ===== src/Life/Examples.antt =====
-- The roster at concrete events.
use wei.Base.{
  ℕ, zero, suc, ◌+◌, ◌≤◌, ◌≡◌, ◌≢◌, refl, arith, Option, none, some, [], ◌∷◌, ◌++◌, get_elem?,
}
use wei.Base.Int.{pos}
use wei.Base.Mac.{Mac}
use wei.Double.Fixed.{fixed}
use wei.Scorer.Examples.{sigmoid, good_link}
use wei.Life.{Ctx, Roster, new_ctx, init, assoc, on_station_event, ingest_metric, eval_station}
use wei.Life.Events.{IsRoster}
use wei.Track.{max_clients}
use wei.Life.Walk.{walk, visit, Walk, Move, turn, Moves, done, then_move}
use wei.Life.Walk
use wei.Life.Walk.Whole.{walk-eval_station}
use wei.Life.Walk.Once.{reports_of, evaluated, told, begun, Moves-evaluated}
use wei.Life.Runs.{here, next, event, sample, interval, Reach-IsRoster}
use wei.Base.{true}

abbrev phone : Mac
phone = 2 ∷ 0 ∷ 0 ∷ 0 ∷ 0 ∷ 1 ∷ []

-- The phone comes, and a sample of it.
abbrev sampled : Roster
sampled = ingest_metric (on_station_event true (init none) assoc phone) phone good_link

Reach-IsRoster_example : IsRoster (eval_station fixed sigmoid sampled (pos 5000)).0
Reach-IsRoster_example =
    Reach-IsRoster fixed sigmoid none (eval_station fixed sigmoid sampled (pos 5000)).0 (
      next (next (next here (event true assoc phone)) (sample phone good_link))
        (interval (pos 5000)))

sampled-IsRoster : IsRoster sampled
sampled-IsRoster =
    Reach-IsRoster fixed sigmoid none sampled
      (next (next here (event true assoc phone)) (sample phone good_link))

walk-eval_station_example :
    walk fixed sigmoid max_clients 0 sampled (pos 5000)
    ≡ eval_station fixed sigmoid sampled (pos 5000)
walk-eval_station_example = walk-eval_station fixed sigmoid sampled (pos 5000) sampled-IsRoster

-- Another station comes before the first turn; then all turns.
abbrev laptop : Mac
laptop = 2 ∷ 0 ∷ 0 ∷ 0 ∷ 0 ∷ 9 ∷ []

abbrev phone_ctx : Ctx
phone_ctx = record (new_ctx phone) { sample = good_link }

abbrev Other : Mac → Type 0
Other mac = mac ≢ phone

turns : ℕ → Walk → Walk
turns zero w = w
turns (suc n) w = turns n (record {
  roster = (visit fixed sigmoid w.roster (pos 5000) w.index).0;
  index = suc w.index;
  reports = w.reports ++ (visit fixed sigmoid w.roster (pos 5000) w.index).1;
})

turns-index : (n : ℕ) (w : Walk) → (turns n w).index ≡ n + w.index
unfolding turns
turns-index zero w = omega arith
turns-index (suc n) w = omega (arith, turns-index n _)

turns-Moves :
    (n : ℕ) (v w : Walk)
    → n + w.index ≤ max_clients
    → Moves fixed sigmoid (pos 5000) Other v w
    → Moves fixed sigmoid (pos 5000) Other v (turns n w)
unfolding turns
turns-Moves zero v w bound before = before
turns-Moves (suc n) v w bound before =
    turns-Moves n v _ (omega (arith, bound)) (then_move before (turn w (omega (arith, bound))))

abbrev crowded : Walk
crowded = record (begun fixed sigmoid sampled) {
  roster = on_station_event true sampled assoc laptop;
}

crowded-Moves : Moves fixed sigmoid (pos 5000) Other (begun fixed sigmoid sampled) crowded
crowded-Moves =
    then_move done (Walk.event (begun fixed sigmoid sampled) true assoc laptop (λ e. cc))

Moves-evaluated_example :
    (get_elem? (turns 64 crowded).roster.slots 0
      ≡ some (some (evaluated fixed sigmoid sampled.policy (pos 5000) 0 phone_ctx)))
    × (reports_of phone (turns 64 crowded).reports
        ≡ told fixed sigmoid sampled.policy (pos 5000) 0 phone_ctx)
unfolding init on_station_event ingest_metric wei.Slots.find wei.Slots.free wei.Base.Mac.same_mac
Moves-evaluated_example =
    Moves-evaluated fixed sigmoid sampled (pos 5000) 0 phone_ctx (turns 64 crowded) sampled-IsRoster
      refl (turns-Moves 64 (begun fixed sigmoid sampled) crowded (omega arith) crowded-Moves)
      (turns-index 64 crowded)
