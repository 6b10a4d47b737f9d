-- ===== src/Daemon/Reports.antt =====
-- What `main` of source/weid_daemon.c publishes.
use wei.Base.{
  is_some, ℕ, ◌≡◌, refl, inl, inr, Bool, true, false, Option, none, some, List, arith, Bool-cases,
}
use mathlib.Core.Path.{subst}
use mathlib.Core.Option.{some-injective}
use wei.Base.Int.{ℤ}
use wei.Base.Mac.{Mac}
use wei.Double.{Double, IsIeee, IsSmall}
use wei.Scorer.{Sigmoid}
use wei.Track.{max_clients}
use wei.Infer.Engine.{Engine, create}
use wei.Infer.Engine.Range.{AllInRange, zero_rows-AllInRange}
use wei.Perfreport
use wei.Perfreport.{Publisher, states, zero_state, publish_tick}
use wei.Perfreport.Baseline.{Alternates, IsFaithful, unseen-lookup}
use wei.Perfreport.Clients.{sent}
use wei.Rbus.{is_success}
use wei.Rfc
use wei.Rfc.{Rfc}
use wei.Bus.{Bus, bus_open}
use wei.Wire.{Layout, Context, default_policy, wire_init}
use wei.Poll.{Ctx, poll_run}
use wei.System.{calls}
use wei.System.Range.{AllRanged, poll_run-IsRangedWorld}
use wei.System.Verdicts.{poll_run-IsFaithful}
use wei.Daemon.{Env, no_context, no_reports, endpoint, fresh_world, body, served, started, main}

module _ {D : Type 0} (d : Double D) (q : Sigmoid D) (l : Layout) (clock : ℕ → ℕ → ℤ)
    (host : ℕ → Mac → Perfreport.Host) (path_max : ℕ) (path : List ℕ) where
  -- A property of the publisher at the start and after every run of the loop on a fresh engine holds
  -- when `main` returns.
  module _ (P : Publisher → Type 0) (none_yet : P no_reports)
      (runs : (env : Env) (ctx : Ctx) (eng : Engine D) (fds : List ℕ)
        → create d true (some default_policy) ≡ some eng
        → P
            (poll_run path_max
              (calls d q l clock host)
              env.now
              env.passes
              ctx
              (fresh_world d q l clock host path_max path eng)
              fds).0.user.publisher) where
    abbrev IsFresh : Option (Engine D) → Type 0
    IsFresh eng = (e : Engine D) → eng ≡ some e → create d true (some default_policy) ≡ some e

    wire_init-IsFresh : (alloc bound : Bool) → IsFresh (wire_init d alloc bound no_context).0.engine
    unfolding wire_init create
    wire_init-IsFresh true true e h = h
    wire_init-IsFresh true false e h = absurd (ground arith)
    wire_init-IsFresh false bound e h = absurd (ground arith)

    body-keeps :
        (env : Env) (poll : Option Ctx) (eng : Option (Engine D)) (fds : List ℕ)
        → IsFresh eng
        → P (body d q l clock host path_max path env poll eng fds).1
    body-keeps env none eng fds fresh = none_yet
    body-keeps env (some ctx) none fds fresh = none_yet
    body-keeps env (some ctx) (some eng) fds fresh = runs env ctx eng fds (fresh eng refl)

    served-keeps :
        (env : Env) (rfc : Rfc) (bus : Bus) (made : List ℕ × Option Ctx) (r : Context D × Bool)
        → IsFresh r.0.engine
        → P (served d q l clock host path_max path env rfc bus made r).publisher
    served-keeps env rfc bus (fds, poll) (context, ok) fresh = elim (Bool-cases ok) [
      | inr failed ↦ rw failed none_yet
      | inl up ↦ rw up (elim (Bool-cases env.thread_ok) [
        | inr out ↦ rw out none_yet
        | inl on ↦ rw on (body-keeps env poll context.engine fds fresh)
      ])
    ]

    main-keeps :
        {J : Type 0} (json : Rfc.Host J) (env : Env) (rfc : Rfc) (bus : Bus)
        → P (main d q l clock host path_max path json env rfc bus).publisher
    unfolding main started
    main-keeps json env rfc bus =
        let made = endpoint d q l clock host path_max path env in
        let (bus', rc) = bus_open env.bus bus in
        elim (Bool-cases env.sigmask_ok) [
          | inr masked ↦ rw masked none_yet
          | inl ready ↦ rw ready (elim (Bool-cases (is_success rc)) [
            | inr failed ↦ rw failed none_yet
            | inl done ↦ rw done (
                served-keeps env (Rfc.load json rfc) bus' made _
                  (wire_init-IsFresh env.engine_alloc (is_some made.1)))
          ])
        ]

no_reports-IsFaithful : (m : Mac) → IsFaithful m no_reports
unfolding wei.Perfreport.verdict_name
no_reports-IsFaithful m = record {
  remembered = rw (unseen-lookup max_clients m) refl;
  alternates = tt;
}

module _ {D : Type 0} (d : Double D) (laws : IsIeee d) (q : Sigmoid D) (s0 : IsSmall d q.b0)
    (s1 : IsSmall d q.b1) (l : Layout) (clock : ℕ → ℕ → ℤ) (host : ℕ → Mac → Perfreport.Host)
    (path_max : ℕ) (path : List ℕ) where
  create-AllInRange :
      (eng : Engine D) → create d true (some default_policy) ≡ some eng → AllInRange d laws eng.rows
  unfolding create
  create-AllInRange eng h =
      subst (λ (e : Engine D). AllInRange d laws e.rows) (some-injective _ _ h)
        (zero_rows-AllInRange d laws max_clients)

  -- For sigmoid coefficients of at most 2^64 in magnitude: however main returns, and whatever its
  -- loop met, failures of memory and of cJSON included: in every report that it has published, the
  -- members that cJSON has added have a score, a loss and a channel utilisation of at most 100, a
  -- rate and an SNR within their C types, and a contributor that is named exactly if the verdict is
  -- DEGRADED; and no two consecutive reports of a client are made for the same verdict, the first
  -- being made for DEGRADED.
  pub main-IsReported :
      {J : Type 0} (json : Rfc.Host J) (env : Env) (rfc : Rfc) (bus : Bus)
      → let p = (main d q l clock host path_max path json env rfc bus).publisher in
        AllRanged p.events × ((m : Mac) → Alternates (sent m p.events))
  main-IsReported json env rfc bus = (
    main-keeps d q l clock host path_max path (λ p. AllRanged p.events) tt
        (λ env ctx eng fds fresh.
          (poll_run-IsRangedWorld d laws q s0 s1 l clock host path_max env.now env.passes ctx
            (fresh_world d q l clock host path_max path eng) fds
            (record { rows = create-AllInRange eng fresh; reports = tt })).reports)
        json env rfc bus,
    λ m.
        (main-keeps d q l clock host path_max path (IsFaithful m) (no_reports-IsFaithful m)
          (λ env ctx eng fds fresh.
            poll_run-IsFaithful d q l clock host m path_max env.now env.passes ctx
              (fresh_world d q l clock host path_max path eng) fds (no_reports-IsFaithful m))
          json env rfc bus).alternates,
  )
