-- ===== src/Daemon.antt =====
-- source/weid_daemon.c: what `main` brings up and takes down, in its order. The blocked signal is the
-- end of the loop's passes; the malloc tuning and the log lines are left out.
pub mod Exit
pub mod Reports
pub mod Status
mod Examples
use wei.Base.{
  is_some, ℕ, Bool, true, false, not, Option, none, some, List, [], ◌∷◌, if◌then◌else◌, replicate,
}
use wei.Base.Int.{ℤ}
use wei.Base.Mac.{Mac}
use wei.Double.{Double}
use wei.Scorer.{Sigmoid}
use wei.Track.{max_clients}
use wei.Infer.Engine.{Engine}
use wei.Perfreport
use wei.Perfreport.{Publisher, zero_state}
use wei.Rbus.{is_success}
use wei.Rfc
use wei.Rfc.{Rfc}
use wei.Bus
use wei.Bus.{Bus, bus_open, bus_close}
use wei.Wire.{Layout, Context, wire_init, wire_deinit}
use wei.Poll.{SockEnv, Ctx, Pass, Loop, poll_create, poll_run, poll_stop}
use wei.System.{World, calls}

-- What the calls of `main` give: `pthread_sigmask`, the engine's allocation, the socket, the context's
-- allocation and `pthread_create`; then the first reading of the clock and the passes of the loop until
-- the thread is cancelled.
pub record Env : Type 0 where
  pub sigmask_ok : Bool
  pub bus : Bus.Env
  pub engine_alloc : Bool
  pub sock : SockEnv
  pub poll_alloc : Bool
  pub thread_ok : Bool
  pub now : ℕ
  pub passes : List Pass

-- The process: its parts, the descriptors that it holds open, the publisher's static state, and its exit
-- status once it ends.
pub record Process (D : Type 0) : Type 0 where
  pub rfc : Rfc
  pub bus : Bus
  pub context : Context D
  pub fds : List ℕ
  pub publisher : Publisher
  pub exit : ℕ

abbrev pub no_context : {D : Type 0} → Context D
no_context = record { poll = false; engine = none }

-- The publisher's static state at the start.
abbrev pub no_reports : Publisher
no_reports = record { tbl = replicate max_clients zero_state; buf = none; events = [] }

module _ {D : Type 0} (d : Double D) (q : Sigmoid D) (l : Layout) (clock : ℕ → ℕ → ℤ)
    (host : ℕ → Mac → Perfreport.Host) (path_max : ℕ) (path : List ℕ) where
  -- The loop's context and the descriptors once the engine is there.
  abbrev pub endpoint : Env → List ℕ × Option Ctx
  endpoint env =
      if env.engine_alloc
      then poll_create path_max env.sock env.poll_alloc (some path) []
      else ([], none)

  -- The world at the start of the loop.
  abbrev pub fresh_world : Engine D → World D
  fresh_world eng = record { engine = eng; publisher = no_reports; turn = 0 }

  -- `weid_daemon_body` until it is cancelled: the descriptors after `weid_wire_deinit`, and the
  -- publisher.
  abbrev pub body : Env → Option Ctx → Option (Engine D) → List ℕ → List ℕ × Publisher
  body env none eng fds = (fds, no_reports)
  body env (some ctx) none fds = (fds, no_reports)
  body env (some ctx) (some eng) fds =
      let w = fresh_world eng in
      let loop = (poll_run path_max (calls d q l clock host) env.now env.passes ctx w fds).0 in
      (poll_stop loop.ctx loop.fds, loop.user.publisher)

  abbrev pub stopped : Option Ctx → List ℕ → List ℕ
  stopped none fds = fds
  stopped (some ctx) fds = poll_stop ctx fds

  -- The end of `main` from an open bus and an endpoint, or none.
  abbrev pub served : Env → Rfc → Bus → List ℕ × Option Ctx → Context D × Bool → Process D
  served env rfc bus (fds, poll) (context, ok) =
      let closed = bus_close true bus in
      if not ok
      then record {
        rfc = rfc;
        bus = closed;
        context = context;
        fds = fds;
        publisher = no_reports;
        exit = 1;
      }
      else if not env.thread_ok
      then record {
        rfc = rfc;
        bus = closed;
        context = wire_deinit context;
        fds = stopped poll fds;
        publisher = no_reports;
        exit = 1;
      }
      else let (fds', publisher) = body env poll context.engine fds in
        record {
          rfc = rfc;
          bus = closed;
          context = wire_deinit context;
          fds = fds';
          publisher = publisher;
          exit = 0;
        }

  unfoldable pub started : Env → Rfc → Bus → Process D
  started env rfc bus =
      let made = endpoint env in
      served env rfc bus made (wire_init d env.engine_alloc (is_some made.1) no_context)

  unfoldable pub main : {J : Type 0} → Rfc.Host J → Env → Rfc → Bus → Process D
  main json env rfc bus =
      if not env.sigmask_ok
      then record {
        rfc = rfc;
        bus = bus;
        context = no_context;
        fds = [];
        publisher = no_reports;
        exit = 1;
      }
      else let rfc' = Rfc.load json rfc in
        let (bus', rc) = bus_open env.bus bus in
        if not (is_success rc)
        then record {
          rfc = rfc';
          bus = bus';
          context = no_context;
          fds = [];
          publisher = no_reports;
          exit = 1;
        }
        else started env rfc' bus'
