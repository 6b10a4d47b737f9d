-- ===== src/Track/Examples.antt =====
-- The excursion tracker at concrete inputs.
use wei.Base.{◌+◌, ◌%◌, ◌^◌, ◌≡◌, refl, false, some, List, [], ◌∷◌, arith}
use wei.Base.Int.{ℤ, pos, negsuc, ◌+ℤ◌, ◌-ℤ◌, int_laws}
use wei.Base.Mac.{Mac, same_mac}
use wei.Slots.{scan}
use wei.Track.{Table, zero_entry, claimed, get, tick}
use wei.Track.Excursion.{view, observe, tick_refines}
use wei.Track.Trace.{Sample, run, falls, Paced, run-count, run-Paced, Stamped}
use wei.Track.Reports.{
  Op, observes, collects, run_ops, samples, durations, counts, collect_lossless,
}

abbrev phone : Mac
phone = 2 ∷ 0 ∷ 0 ∷ 0 ∷ 0 ∷ 1 ∷ []

abbrev laptop : Mac
laptop = 2 ∷ 0 ∷ 0 ∷ 0 ∷ 0 ∷ 2 ∷ []

-- Two entries, of which the second is free.
abbrev small : Table
small = record (claimed phone (pos 1000)) { start_ts = pos 1000; count = 1 } ∷ zero_entry ∷ []

get_claims_free : (get small laptop (pos 2000)).1 ≡ some 1
unfolding get scan same_mac
get_claims_free = refl

abbrev sample : ℤ → ℤ → Sample
sample metric at = record { metric = metric; at = at }

-- Below the band of 15 at 1 s and 6 s, within it at 11 s, below it at 16 s.
abbrev trace : List Sample
trace =
    sample (pos 9) (pos 1000)
    ∷ sample (pos 12) (pos 6000)
    ∷ sample (pos 20) (pos 11000)
    ∷ sample (negsuc 4) (pos 16000)
    ∷ []

runs_twice : (run (pos 15) (pos 5000) zero_entry trace).count ≡ 2
unfolding run tick ◌-ℤ◌
runs_twice = refl

tick_refines_example :
    view (tick zero_entry (pos 9) (pos 1000) (pos 15) (pos 5000))
    ≡ observe (view zero_entry) (pos 9) (pos 1000) (pos 15) (pos 5000)
tick_refines_example = tick_refines zero_entry (pos 9) (pos 1000) (pos 15) (pos 5000) (λ e. cc)

trace-Stamped : Stamped trace
trace-Stamped = ((λ e. cc), ((λ e. cc), ((λ e. cc), ((λ e. cc), tt))))

run-count_example :
    (run (pos 15) (pos 5000) zero_entry trace).count
    ≡ (0 + falls (pos 15) (pos 5000) false trace) % 2 ^ 32
run-count_example = run-count (pos 15) (pos 5000) zero_entry trace trace-Stamped (omega arith)

run-Paced_example :
    Paced (pos 15) (pos 5000) (pos 500) (pos 16000) (run (pos 15) (pos 5000) zero_entry trace)
run-Paced_example =
    run-Paced (pos 15) (pos 5000) (pos 500) (pos 500) zero_entry trace (omega arith)
      (record { nonneg = omega arith; past = λ off. cc; within = omega int_laws })

abbrev ops : List Op
ops =
    observes (sample (pos 9) (pos 1000))
    ∷ collects
    ∷ observes (sample (pos 20) (pos 9000))
    ∷ collects
    ∷ []

collect_lossless_example :
    let (e', rs) = run_ops (pos 15) (pos 5000) zero_entry ops in
    let whole = run (pos 15) (pos 5000) zero_entry (samples ops) in
    (whole.accumulated ≡ e'.accumulated +ℤ durations rs)
    × (whole.count ≡ (e'.count + counts rs) % 2 ^ 32)
    × (whole.start_ts ≡ e'.start_ts)
collect_lossless_example = collect_lossless (pos 15) (pos 5000) zero_entry ops (omega arith)
