-- ===== src/Daemon/Exit.antt =====
-- What `main` of source/weid_daemon.c leaves behind.
use wei.Base.{
  is_some, ℕ, ◌≡◌, refl, sym, ◌⊎◌, inl, inr, Bool, true, false, Option, none, some, List, [], arith,
  Bool-cases,
}
use mathlib.Core.Path.{subst}
use wei.Base.Int.{ℤ}
use wei.Base.Mac.{Mac}
use wei.Double.{Double}
use wei.Scorer.{Sigmoid}
use wei.Infer.Engine.{Engine, create}
use wei.Perfreport
use wei.Rfc
use wei.Rfc.{Rfc}
use wei.Bus.{Bus, closed, bus_open, bus_close}
use wei.Bus.Calls.{IsBus, closed-IsBus, bus_open-IsBus, bus_open_outcome}
use wei.Wire.{Layout, Context, wire_init, wire_deinit}
use wei.Poll.{Ctx, poll_stop}
use wei.Poll.Socket.{poll_create_outcome, poll_stop-poll_run, fd_list, close_if_owned}
use wei.System.{calls}
use wei.Daemon.{Env, Process, no_context, endpoint, served, started, main}

module _ {D : Type 0} (d : Double D) where
  wire_init_bound :
      (eng : Bool)
      → eng ≡ true
      → (e : Engine D) × (wire_init d eng true no_context
          ≡ (record { poll = true; engine = some e }, true))
  unfolding wire_init create
  wire_init_bound true made = (_, refl)
  wire_init_bound false made = absurd (ground arith)

  wire_init_unbound : (eng : Bool) → wire_init d eng false no_context ≡ (no_context, false)
  unfolding wire_init create
  wire_init_unbound true = refl
  wire_init_unbound false = refl

  -- Nothing of the process is left: no handle on the bus, no engine, no descriptor.
  pub record IsClean (p : Process D) : Type 0 where
    pub opened : p.bus.opened ≡ false
    pub handles : p.bus.handles ≡ 0
    pub context : p.context ≡ no_context
    pub fds : p.fds ≡ []

bus_close-closed :
    (bus : Bus)
    → IsBus bus
    → ((bus_close true bus).opened ≡ false) × ((bus_close true bus).handles ≡ 0)
unfolding bus_close
bus_close-closed bus w = let balanced = w.balanced in ground arith

module _ {D : Type 0} (d : Double D) (q : Sigmoid D) (l : Layout) (clock : ℕ → ℕ → ℤ)
    (host : ℕ → Mac → Perfreport.Host) (path_max : ℕ) (path : List ℕ) where
  -- The endpoint's two ways.
  endpoint_cases :
      (env : Env)
      → (endpoint d q l clock host path_max path env ≡ ([], none))
        ⊎ ((ctx : Ctx) × (env.engine_alloc ≡ true)
            × (endpoint d q l clock host path_max path env ≡ (fd_list ctx.fd, some ctx)))
  endpoint_cases env = elim (Bool-cases env.engine_alloc) [
    | inr lost ↦ rw lost (inl refl)
    | inl made ↦ rw made (elim (poll_create_outcome path_max env.sock env.poll_alloc path) [
      | inl (missing, fds) ↦ inl (ground arith)
      | inr (fd, fds, given) ↦
          let ctx : Ctx = record { fd = some fd; tick_ms = 5000; sock_path = path } in
          inr (ctx, refl, ground arith)
    ])
  ]

  -- The end of `main` after a call of `weid_wire_init` that gave some context and result.
  module _ (env : Env) (rfc : Rfc) (bus : Bus) (w : IsBus bus) where
    abbrev served_with : List ℕ × Option Ctx → Context D × Bool → Process D
    served_with = served d q l clock host path_max path env rfc bus

    unbound-IsClean : IsClean d (served_with ([], none) (no_context, false))
    unbound-IsClean = record {
      opened = (bus_close-closed bus w).0;
      handles = (bus_close-closed bus w).1;
      context = refl;
      fds = refl;
    }

    bound-IsClean :
        (ctx : Ctx) (e : Engine D)
        → IsClean d
            (served_with (fd_list ctx.fd, some ctx) (record { poll = true; engine = some e }, true))
    unfolding wire_deinit poll_stop
    bound-IsClean ctx e = elim (Bool-cases env.thread_ok) [
      | inr out ↦ rw out (record {
        opened = (bus_close-closed bus w).0;
        handles = (bus_close-closed bus w).1;
        context = refl;
        fds = close_if_owned ctx.fd;
      })
      | inl on ↦ rw on (record {
        opened = (bus_close-closed bus w).0;
        handles = (bus_close-closed bus w).1;
        context = refl;
        fds = poll_stop-poll_run path_max (calls d q l clock host) env.now env.passes ctx _;
      })
    ]

    abbrev Serves : List ℕ × Option Ctx → Type 0
    Serves made =
        IsClean d (served_with made (wire_init d env.engine_alloc (is_some made.1) no_context))

    served-IsClean :
        (made : List ℕ × Option Ctx)
        → (made ≡ ([], none))
          ⊎ ((ctx : Ctx) × (env.engine_alloc ≡ true) × (made ≡ (fd_list ctx.fd, some ctx)))
        → Serves made
    served-IsClean made (inl none_made) = subst Serves (sym none_made) (
        subst (λ (r : Context D × Bool). IsClean d (served_with ([], none) r))
          (sym (wire_init_unbound d env.engine_alloc)) unbound-IsClean)
    served-IsClean made (inr (ctx, alloc, some_made)) =
        let (e, init) = wire_init_bound d env.engine_alloc alloc in
        subst Serves (sym some_made) (
          subst (λ (r : Context D × Bool). IsClean d (served_with (fd_list ctx.fd, some ctx) r))
            (sym init) (bound-IsClean ctx e))

  started-IsClean :
      (env : Env) (rfc : Rfc) (bus : Bus)
      → IsBus bus
      → IsClean d (started d q l clock host path_max path env rfc bus)
  unfolding started
  started-IsClean env rfc bus w =
      served-IsClean env rfc bus w (endpoint d q l clock host path_max path env)
        (endpoint_cases env)

  -- However main returns, from a closed bus, the bus is closed with no handle open, there is
  -- neither an engine nor a poll context, and no descriptor of the loop is open.
  pub main-IsClean :
      {J : Type 0} (json : Rfc.Host J) (env : Env) (rfc : Rfc)
      → IsClean d (main d q l clock host path_max path json env rfc closed)
  unfolding main
  main-IsClean json env rfc =
      let (bus', rc) = bus_open env.bus closed in
      let w = bus_open-IsBus env.bus closed closed-IsBus in
      elim (Bool-cases env.sigmask_ok) [
        | inr masked ↦
            rw masked (record { opened = refl; handles = refl; context = refl; fds = refl })
        | inl ready ↦ simp ready (elim (bus_open_outcome env.bus closed closed-IsBus) [
          | inl (done, there, one) ↦ rw done (started-IsClean env (Rfc.load json rfc) bus' w)
          | inr (failed, gone, zero) ↦
              rw failed (record { opened = gone; handles = zero; context = refl; fds = refl })
        ])
      ]
