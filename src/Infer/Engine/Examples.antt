-- ===== src/Infer/Engine/Examples.antt =====
-- The engine at concrete clients, over thousandths.
use wei.Base.{
  ℕ, zero, suc, ◌≡◌, ◌⊎◌, refl, Option, some, none, List, [], ◌∷◌, arith, replicate, leb,
}
use wei.Base.Int.{ℤ, pos}
use wei.Base.Mac.{Mac}
use wei.Metric.{Metric}
use wei.Double.Fixed.{fixed}
use wei.Scorer.Examples.{sigmoid, good_link}
use wei.Slots
use wei.Slots.Distinct.{Distinct}
use wei.Track
use wei.Track.{entries, max_clients}
use wei.Infer.Types.{Policy, Result, Verdict, smooth, degraded, zero_client, zero_log, Client}
use wei.Infer.Engine.{Engine, members, zero_row, stage_record, map_reap, sweep}
use wei.Infer.Engine.Membership.{
  IsMap, zero_rows-IsMap, stage_record-IsMap, Staged, stage_record-Staged,
}
use wei.Infer.Engine.Reap.{kept, lookup-map_reap}
use wei.Infer.Engine.Sweep.{publish_all, sweep_publications}
use wei.Infer.Flags.Latency.{after, after-alarm, trailing, clamp16}
use wei.Infer.Ledger.History.{
  Keeps, notes, ledger_after, onsets, clamp32, ledger_after-Keeps, ledger_after-episodes,
}
use wei.Infer.Score.{score_client, damped, raw_score, sampled, percent_byte}
use wei.Infer.Score.Ramp.{
  score_byte, loss_byte, score_client-ramped, score_client-loss, seen_client,
}
use wei.Infer.Windows.View.{loss_of}

abbrev policy : Policy
policy = record {
  tput_var_band = pos 25;
  tput_floor_ms = pos 10000;
  latency_score_band = 40;
  latency_sustain_ticks = 3;
  video_degrade_band = 50;
}

abbrev tablet : Mac
tablet = 2 ∷ 0 ∷ 0 ∷ 0 ∷ 0 ∷ 7 ∷ []

abbrev new_engine : Engine ℤ
new_engine = record {
  rows = replicate max_clients (zero_row fixed);
  count = 0;
  tracker = Track.init;
  policy = policy;
}

-- One client, staged at 1 s.
abbrev one_client : Engine ℤ
one_client = stage_record fixed new_engine tablet good_link (pos 1000)

one_client-IsMap : IsMap fixed one_client.rows one_client.count
one_client-IsMap =
    stage_record-IsMap fixed new_engine tablet good_link (pos 1000) (zero_rows-IsMap fixed)

stage_record-Staged_example :
    ((stage_record fixed new_engine tablet good_link (pos 1000) ≡ new_engine)
      × (Slots.lookup members new_engine.rows tablet ≡ none)
      × (new_engine.count ≡ max_clients))
    ⊎ Staged fixed new_engine tablet good_link
        (pos 1000)
        (stage_record fixed new_engine tablet good_link (pos 1000))
stage_record-Staged_example =
    stage_record-Staged fixed new_engine tablet good_link (pos 1000) (zero_rows-IsMap fixed)

lookup-map_reap_example :
    Slots.lookup members (map_reap fixed one_client (pos 40000)).rows tablet
    ≡ kept fixed (pos 40000) (Slots.lookup members one_client.rows tablet)
lookup-map_reap_example = lookup-map_reap fixed (pos 40000) one_client tablet one_client-IsMap

-- The outside world as the addresses of the reports.
abbrev recorded : Mac → Result → Metric → List Mac → List Mac
recorded mac out rec log = mac ∷ log

init-Distinct : (n : ℕ) → Distinct entries (replicate n Track.zero_entry)
init-Distinct zero = tt
init-Distinct (suc n) = (λ live. absurd (ground arith), init-Distinct n)

-- The same client, with no excursion open.
abbrev quiet : Engine ℤ
quiet = record {
  rows = one_client.rows;
  count = one_client.count;
  tracker = replicate max_clients Track.zero_entry;
  policy = policy;
}

sweep_publications_example :
    let (rs', t', w') =
      sweep fixed sigmoid recorded policy quiet.tracker [] one_client.rows (pos 5000) in
    w' ≡ publish_all fixed sigmoid recorded [] rs'
sweep_publications_example =
    sweep_publications fixed sigmoid recorded one_client.rows policy quiet.tracker [] (pos 5000)

-- Two scores above the band of 40, then three below it.
after-alarm_example :
    ((after policy (zero_client fixed) (70 ∷ 80 ∷ 30 ∷ 20 ∷ 39 ∷ [])).alarm
      ≡ leb 3 (trailing policy 0 (70 ∷ 80 ∷ 30 ∷ 20 ∷ 39 ∷ [])))
    × ((after policy (zero_client fixed) (70 ∷ 80 ∷ 30 ∷ 20 ∷ 39 ∷ [])).threshold_cross
        ≡ clamp16 (trailing policy 0 (70 ∷ 80 ∷ 30 ∷ 20 ∷ 39 ∷ [])))
after-alarm_example =
    after-alarm policy (omega arith) (omega arith) (zero_client fixed) (70 ∷ 80 ∷ 30 ∷ 20 ∷ 39 ∷ [])
      refl refl

abbrev verdicts : List (Verdict × ℤ)
verdicts =
    (smooth, pos 5000)
    ∷ (degraded, pos 10000)
    ∷ (degraded, pos 15000)
    ∷ (smooth, pos 20000)
    ∷ (degraded, pos 25000)
    ∷ []

ledger_after-Keeps_example : Keeps (ledger_after zero_log verdicts) (notes [] verdicts)
ledger_after-Keeps_example = ledger_after-Keeps verdicts

ledger_after-episodes_example :
    (ledger_after zero_log verdicts).episodes ≡ clamp32 (onsets smooth verdicts)
ledger_after-episodes_example =
    ledger_after-episodes verdicts (refl, (refl, (refl, (refl, (refl, tt)))))

-- The second tick of a client.
abbrev twice : Option (Client ℤ × Result)
twice = score_client fixed sigmoid (seen_client fixed sigmoid (good_link ∷ []) good_link) good_link

score_client-ramped_example :
    score_byte twice
    ≡ some (
        fixed.to_u8 (
          fixed.add
            (damped fixed sigmoid 3 (
              raw_score fixed sigmoid
                (sampled fixed sigmoid
                  (seen_client fixed sigmoid (good_link ∷ []) good_link)
                  good_link)
                good_link))
            fixed.half))
score_client-ramped_example = score_client-ramped fixed sigmoid (good_link ∷ []) good_link

score_client-loss_example :
    loss_byte twice
    ≡ some (percent_byte fixed sigmoid (loss_of fixed (990 ∷ 990 ∷ []) (10 ∷ 10 ∷ [])))
score_client-loss_example = score_client-loss fixed sigmoid (good_link ∷ []) good_link
