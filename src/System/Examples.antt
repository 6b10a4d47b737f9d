-- ===== src/System/Examples.antt =====
-- The daemon's loop from an empty engine.
use wei.Base.{
  ℕ, zero, suc, ◌+◌, ◌-◌, ◌*◌, ◌≡◌, refl, sym, arith, ◌⊎◌, inl, inr, true, false, some, none, List,
  [], ◌∷◌, length, replicate,
}
use wei.Base.Int.{ℤ, pos}
use wei.Base.Mac.{Mac}
use wei.Double.Fixed.{fixed, fixed-IsIeee}
use wei.Scorer.Examples.{sigmoid, good_link}
use wei.Infer.Types.{smooth}
use wei.Slots.Distinct.{Distinct}
use wei.Track
use wei.Track.{max_clients, entries}
use wei.Infer.Engine.Range.{zero_rows-AllInRange}
use wei.Infer.Engine.Membership.{zero_rows-IsMap}
use wei.Perfreport
use wei.Perfreport.{states, zero_state, Publisher}
use wei.Perfreport.Examples.{host}
use wei.Wire.Examples.{layout, engine}
use wei.Poll.{Ctx, Pass, events, datagram, start, poll_run}
use wei.Poll.Examples.{ctx, late, quiet_until, sock}
use wei.Poll.Live.{IsIdle}
use wei.System.{World, on_tick, calls}
use wei.Perfreport.Examples.{tablet, began, began-IsPublisher, tablet_state, host-IsAllocating}
use wei.Perfreport.{warmup_intervals}
use wei.Perfreport.Clients.{sent, onto, published}
use wei.Perfreport.Baseline.{IsFaithful, unseen-lookup}
use wei.Infer.Engine.{members, stage_record}
use wei.Infer.Engine.Membership.{stage_record-IsMap, stage_record-tracker}
use wei.Slots
use wei.System.Reports.{interval_in, swept, on_tick-published}
use wei.System.Verdicts.{poll_run-IsFaithful}
use wei.System.Range.{IsRangedWorld, poll_run-IsRangedWorld}
use wei.System.Steady.{IsWorld, poll_run-IsWorld, daemon_live}

abbrev pub clocks : ℕ → ℕ → ℤ
clocks turn i = pos (1000 + 5000 * turn + i)

abbrev pub hosts : ℕ → Mac → Perfreport.Host
hosts turn mac = host

abbrev world : World ℤ
world = record {
  engine = engine;
  publisher = record { tbl = replicate max_clients zero_state; buf = none; events = [] };
  turn = 0;
}

unused-Distinct : (n : ℕ) → Distinct entries (replicate n Track.zero_entry)
unused-Distinct zero = tt
unused-Distinct (suc n) = (λ live. absurd (ground arith), unused-Distinct n)

unseen-Distinct : (n : ℕ) → Distinct states (replicate n zero_state)
unseen-Distinct zero = tt
unseen-Distinct (suc n) = (λ live. absurd (ground arith), unseen-Distinct n)

world-IsWorld : IsWorld fixed sigmoid layout clocks hosts world
world-IsWorld = record {
  members = zero_rows-IsMap fixed;
  tracker = unused-Distinct max_clients;
  reports = record { capacity = refl; distinct = unseen-Distinct max_clients; buffer = tt };
}

poll_run-IsWorld_example :
    let (loop, on) =
      poll_run 108
        (calls fixed sigmoid layout clocks hosts)
        1000
        (late ∷ late ∷ [])
        ctx
        world
        (4 ∷ []) in
    IsWorld fixed sigmoid layout clocks hosts loop.user
poll_run-IsWorld_example =
    poll_run-IsWorld fixed sigmoid layout clocks hosts 108 1000 (late ∷ late ∷ []) ctx world
      (4 ∷ []) world-IsWorld

idle :
    IsIdle 108
      (calls fixed sigmoid layout clocks hosts)
      1000
      (start 1000 ctx world (4 ∷ []))
      (late ∷ [])
unfolding wei.Poll.timeout wei.Base.Int.to_int32
idle = (omega arith, refl, (λ t asked. ground arith), tt)

daemon_live_example :
    let (loop, on) =
      poll_run 108 (calls fixed sigmoid layout clocks hosts) 1000 (late ∷ []) ctx world (4 ∷ []) in
    (on ≡ true) × (length loop.ticks ≡ 1)
daemon_live_example =
    daemon_live fixed sigmoid layout clocks hosts 108 1000 (late ∷ []) 4 (47 ∷ []) world idle

-- A pass with one entry of a station on a channel that is in use all the time, and then the tick.
abbrev pub fed : Pass
fed = record {
  before = 1000;
  polled = events false true;
  received = datagram (1 ∷ 1 ∷ 8 ∷ 0 ∷ 8 ∷ 0 ∷ 2 ∷ 0 ∷ 0 ∷ 0 ∷ 0 ∷ 1 ∷ 30 ∷ 200 ∷ []) ∷ [];
  after = 6000;
  healthy = true;
  sock = sock;
}

-- Three ticks follow: the station is past its warm-up, and its scores have been low for long enough.
abbrev pub fed_passes : List Pass
fed_passes = fed ∷ quiet_until 11000 ∷ quiet_until 16000 ∷ quiet_until 21000 ∷ []

poll_run-IsRangedWorld_example :
    let (loop, on) =
      poll_run 108 (calls fixed sigmoid layout clocks hosts) 1000 fed_passes ctx world (4 ∷ []) in
    IsRangedWorld fixed fixed-IsIeee sigmoid (refl, refl) (refl, refl) layout clocks hosts loop.user
poll_run-IsRangedWorld_example =
    poll_run-IsRangedWorld fixed fixed-IsIeee sigmoid (refl, refl) (refl, refl) layout clocks hosts
      108 1000 fed_passes ctx world (4 ∷ [])
      (record { rows = zero_rows-AllInRange fixed fixed-IsIeee max_clients; reports = tt })

world-IsFaithful : IsFaithful tablet world.publisher
unfolding wei.Perfreport.verdict_name
world-IsFaithful = record {
  remembered = rw (unseen-lookup max_clients tablet) refl;
  alternates = tt;
}

poll_run-IsFaithful_example :
    let (loop, on) =
      poll_run 108 (calls fixed sigmoid layout clocks hosts) 1000 fed_passes ctx world (4 ∷ []) in
    IsFaithful tablet loop.user.publisher
poll_run-IsFaithful_example =
    poll_run-IsFaithful fixed sigmoid layout clocks hosts tablet 108 1000 fed_passes ctx world
      (4 ∷ []) world-IsFaithful

-- The engine and the publisher know the tablet.
abbrev known_world : World ℤ
known_world = record world {
  engine = stage_record fixed engine tablet good_link (pos 900);
  publisher = began;
}

known_world-IsWorld : IsWorld fixed sigmoid layout clocks hosts known_world
known_world-IsWorld = record {
  members = stage_record-IsMap fixed engine tablet good_link (pos 900) (zero_rows-IsMap fixed);
  tracker =
      rw (stage_record-tracker fixed engine tablet good_link (pos 900))
        (unused-Distinct max_clients);
  reports = began-IsPublisher;
}

on_tick-published_example :
    sent tablet (on_tick fixed sigmoid layout clocks hosts known_world).0.publisher.events
    ≡ onto tablet [] (
        published (warmup_intervals - 2) smooth (
          interval_in
            (hosts 0)
            (Slots.lookup members (swept fixed sigmoid layout clocks hosts known_world) tablet)))
unfolding wei.Slots.lookup wei.Base.Mac.same_mac
on_tick-published_example =
    on_tick-published fixed sigmoid layout clocks hosts known_world tablet tablet_state
      known_world-IsWorld (λ mac. host-IsAllocating) refl
