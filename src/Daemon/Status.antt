-- ===== src/Daemon/Status.antt =====
-- The exit status of `main` of source/weid_daemon.c.
use wei.Base.{is_some, ℕ, ◌≡◌, refl, Bool, true, false, ◌&&◌, List, if◌then◌else◌, arith}
use wei.Base.Int.{ℤ}
use wei.Base.Mac.{Mac}
use wei.Double.{Double}
use wei.Scorer.{Sigmoid}
use wei.Infer.Engine.{create}
use wei.Perfreport
use wei.Rbus.{is_success}
use wei.Rfc
use wei.Rfc.{Rfc}
use wei.Bus.{Bus, bus_open}
use wei.Wire.{Layout, wire_init}
use wei.Daemon.{Env, no_context, endpoint, started, main}

module _ {D : Type 0} (d : Double D) (q : Sigmoid D) (l : Layout) (clock : ℕ → ℕ → ℤ)
    (host : ℕ → Mac → Perfreport.Host) (path_max : ℕ) (path : List ℕ) where
  -- Every step of the start succeeds.
  abbrev pub all_up : Env → Bus → Bool
  all_up env bus =
      env.sigmask_ok
      && is_success (bus_open env.bus bus).1
      && env.engine_alloc
      && is_some (endpoint d q l clock host path_max path env).1
      && env.thread_ok

  wire_init_up : (alloc bound : Bool) → (wire_init d alloc bound no_context).1 ≡ (alloc && bound)
  unfolding wire_init create
  wire_init_up true true = refl
  wire_init_up true false = refl
  wire_init_up false bound = refl

  -- The exit status is 0 exactly if the signals are blocked, the bus opens, the engine is
  -- allocated, the socket is bound with its context, and the thread starts; otherwise it is 1.
  pub main_exit :
      {J : Type 0} (json : Rfc.Host J) (env : Env) (rfc : Rfc) (bus : Bus)
      → (main d q l clock host path_max path json env rfc bus).exit
        ≡ (if all_up env bus then 0 else 1)
  unfolding main started
  main_exit json env rfc bus =
      let up =
        wire_init_up env.engine_alloc (is_some (endpoint d q l clock host path_max path env).1) in
      ground (arith, up)
