-- ===== src/Poll/Examples.antt =====
-- A loop over a counter of datagrams and ticks.
use wei.Base.{ℕ, ◌+◌, ◌-◌, ◌≡◌, refl, true, false, some, List, [], ◌∷◌}
use wei.Poll.{
  Ctx, SockEnv, Pass, Callbacks, datagram, interrupted, events, start, poll_run, poll_stop,
  sock_drain,
}
use wei.Poll.Cadence.{IsSpaced, poll_run-IsSpaced}
use wei.Poll.Drain.{messages, delivered, sock_drain_eq}
use wei.Poll.Socket.{fd_list, poll_stop-poll_run}

abbrev pub sock : SockEnv
sock = record { socket = some 5; fcntl_ok = true; bind_ok = true }

abbrev pub ctx : Ctx
ctx = record { fd = some 4; tick_ms = 5000; sock_path = 47 ∷ [] }

abbrev counted : List ℕ → ℕ → ℕ × List ℕ
counted bytes n = (n + 1, [])

abbrev calls : Callbacks ℕ
calls = record { on_datagram = some counted; on_tick = some (λ n. (n + 100, [])) }

-- A pass with a datagram, and one that reaches the tick after the path has gone.
abbrev busy : Pass
busy = record {
  before = 1000;
  polled = events false true;
  received = datagram (1 ∷ 2 ∷ []) ∷ interrupted ∷ datagram [] ∷ [];
  after = 1001;
  healthy = true;
  sock = sock;
}

abbrev pub late : Pass
late = record {
  before = 1001;
  polled = events false false;
  received = [];
  after = 6000;
  healthy = false;
  sock = sock;
}

-- A pass that meets no datagram before a time.
abbrev pub quiet_until : ℕ → Pass
quiet_until t = record late { before = t - 1000; after = t; healthy = true }

-- Three ticks, the second of them 2 s late.
abbrev ticking : List Pass
ticking = busy ∷ late ∷ quiet_until 9000 ∷ quiet_until 13000 ∷ quiet_until 18000 ∷ []

ticks_thrice :
    (poll_run 108 calls 1000 ticking ctx 0 (4 ∷ [])).0.ticks
    ≡ (18000, 5000) ∷ (13000, 5000) ∷ (6000, 5000) ∷ []
unfolding poll_run wei.Poll.run_passes wei.Poll.run_pass sock_drain wei.Poll.received_part
    wei.Poll.due wei.Poll.revive_socket wei.Poll.retunes wei.Poll.sock_open
ticks_thrice = refl

poll_run-IsSpaced_example : IsSpaced (poll_run 108 calls 1000 ticking ctx 0 (4 ∷ [])).0.ticks
poll_run-IsSpaced_example = poll_run-IsSpaced 108 calls 1000 ticking ctx 0 (4 ∷ [])

sock_drain_eq_example :
    sock_drain calls busy.received (start 1000 ctx 0 (4 ∷ []))
    ≡ delivered calls counted (messages busy.received) (start 1000 ctx 0 (4 ∷ []))
sock_drain_eq_example = sock_drain_eq calls counted refl busy.received (start 1000 ctx 0 (4 ∷ []))

poll_stop-poll_run_example :
    let l = (poll_run 108 calls 1000 (busy ∷ late ∷ []) ctx 0 (fd_list ctx.fd)).0 in
    poll_stop l.ctx l.fds ≡ []
poll_stop-poll_run_example = poll_stop-poll_run 108 calls 1000 (busy ∷ late ∷ []) ctx 0
