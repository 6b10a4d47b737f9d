-- ===== src/Perfreport/Examples.antt =====
-- Reports of concrete clients.
use wei.Base.{
  ◌+◌, ◌-◌, ◌≤◌, ◌≡◌, ◌⊎◌, inl, inr, refl, Bool, true, false, Option, some, none, List, [], ◌∷◌,
  arith, leb, length, ℕ, zero, suc, replicate,
}
use wei.Base.Int.{pos}
use wei.Base.Mac.{Mac}
use wei.Slots
use wei.Scorer.Examples.{good_link}
use wei.Infer.Types.{Verdict, smooth, degraded, Result, snr}
use wei.Rbus.{success}
use wei.Perfreport.{
  ClientState, states, zero_state, added, Host, Report, Publisher, json_serialize, print_from,
  publish_tick, build_report,
}
use wei.Perfreport.Gate.{emitted, emitted-changes}
use wei.Perfreport.Buffer.{Ends, print_from-Ends}
use wei.Slots.Distinct.{Absent, Distinct}
use wei.Perfreport.Table.{IsPublisher}
use wei.Perfreport.Clients.{
  Call, published, intervals, sent, onto, IsAllocating, run_calls, run_calls-published,
}
use wei.Perfreport.Publish.{Published, publish_tick-Published}

abbrev pub tablet : Mac
tablet = 2 ∷ 0 ∷ 0 ∷ 0 ∷ 0 ∷ 7 ∷ []

-- A host on which all works, for documents of 700 bytes.
abbrev pub host : Host
host = record {
  enabled = true;
  bus_ready = true;
  created = true;
  adds = λ k. true;
  malloc_ok = true;
  realloc_ok = λ n. true;
  fits = λ doc n. leb 700 n;
  time = 0;
  publish = λ doc. success;
}

abbrev no_bus : Host
no_bus = record host { bus_ready = false }

abbrev pub result : Result
result = record {
  score = 30;
  verdict = degraded;
  dominant = snr;
  video_degrade = true;
  pkt_err_pct = 1;
}

-- The tablet is past its warm-up, with no report yet.
abbrev warm : Publisher
warm = record {
  tbl = record (added tablet) { warmup_ticks_seen = 3 } ∷ zero_state ∷ [];
  buf = none;
  events = [];
}

abbrev run : List Verdict
run = degraded ∷ smooth ∷ degraded ∷ degraded ∷ degraded ∷ smooth ∷ []

emits_edges : emitted (added tablet) run ≡ degraded ∷ smooth ∷ []
emits_edges = emitted-changes (added tablet) run

abbrev doc : Report
doc = record {
  client_mac = tablet;
  report_time = 0;
  score = 30;
  verdict = wei.Perfreport.degraded_name;
  dominant = wei.Perfreport.snr_name;
  snr_db = pos 30;
  phy_rate_kbps = 433000;
  pkt_err_pct = 1;
  chan_util_pct = 20;
  activity_state = good_link.activity_state;
  status = good_link.status;
  has = λ k. true;
}

publish_tick-Published_example :
    ((publish_tick host warm tablet result good_link ≡ (warm, success))
      × (Slots.lookup states warm.tbl tablet ≡ none)
      × (Slots.free states warm.tbl ≡ none))
    ⊎ Published host tablet result good_link warm (publish_tick host warm tablet result good_link)
publish_tick-Published_example = publish_tick-Published host tablet result good_link warm

no_bus_quiet : length (publish_tick no_bus warm tablet result good_link).0.events ≡ 0
unfolding publish_tick wei.Slots.scan wei.Base.Mac.same_mac
no_bus_quiet = refl

print_from-Ends_example :
    (print_from (3 + 5) host doc 512 ≡ print_from 3 host doc 512)
    × Ends host doc (print_from 3 host doc 512)
print_from-Ends_example = print_from-Ends 5 host doc 512 (inl refl)

abbrev laptop : Mac
laptop = 2 ∷ 0 ∷ 0 ∷ 0 ∷ 0 ∷ 9 ∷ []

-- The tablet has one warm-up interval left; the laptop comes between, and the bus goes once.
abbrev call : Host → Mac → Verdict → Call
call h mac v = record {
  host = h;
  mac = mac;
  result = record result { verdict = v };
  metrics = good_link;
}

abbrev calls : List Call
calls =
    call host tablet degraded
    ∷ call host laptop degraded
    ∷ call no_bus tablet degraded
    ∷ call host tablet degraded
    ∷ call host tablet smooth
    ∷ []

abbrev pub tablet_state : ClientState
tablet_state = record (added tablet) { warmup_ticks_seen = 2 }

abbrev pub began : Publisher
began = record { tbl = tablet_state ∷ replicate 63 zero_state; buf = none; events = [] }

unused-Distinct : (n : ℕ) → Distinct states (replicate n zero_state)
unused-Distinct zero = tt
unused-Distinct (suc n) = (λ live. absurd (ground arith), unused-Distinct n)

unused-Absent : (n : ℕ) → Absent states tablet (replicate n zero_state)
unused-Absent zero = tt
unused-Absent (suc n) = (λ live. absurd (ground arith), unused-Absent n)

pub began-IsPublisher : IsPublisher began
began-IsPublisher = record {
  capacity = refl;
  distinct = (λ live. unused-Absent 63, unused-Distinct 63);
  buffer = tt;
}

pub host-IsAllocating : IsAllocating host
host-IsAllocating = record {
  malloc_ok = refl;
  realloc_ok = λ n. refl;
  fits_more = λ doc m n h fits. ground arith;
}

no_bus-IsAllocating : IsAllocating no_bus
no_bus-IsAllocating = record {
  malloc_ok = refl;
  realloc_ok = λ n. refl;
  fits_more = λ doc m n h fits. ground arith;
}

run_calls-published_example :
    sent tablet (run_calls calls began).events
    ≡ onto tablet [] (published 1 smooth (intervals tablet calls))
unfolding wei.Slots.lookup wei.Base.Mac.same_mac
run_calls-published_example =
    run_calls-published tablet calls began tablet_state
      (
        host-IsAllocating,
        (host-IsAllocating, (no_bus-IsAllocating, (host-IsAllocating, (host-IsAllocating, tt)))),
      )
      began-IsPublisher refl

publishes_twice : published 1 smooth (intervals tablet calls) ≡ degraded ∷ smooth ∷ []
unfolding published wei.Base.Mac.same_mac build_report
publishes_twice = refl
