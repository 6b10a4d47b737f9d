-- ===== src/Poll/Live.antt =====
-- The ticks of the loop of source/wei_poll.c, pass by pass and over passes without an event.
use wei.Base.{
  ℕ, ◌+◌, ◌-◌, ◌^◌, ◌≤◌, ◌<◌, ◌≡◌, refl, ap, sym, ◌∙◌, ◌⊎◌, inl, inr, Bool, true, false, Option,
  none, some, List, [], ◌∷◌, arith, leb, length, Bool-cases,
}
use mathlib.Core.Path.{subst}
use wei.Base.Int.{pos}
use wei.Poll.Cadence.{due-ticks, sock_drain-SameClock, timeout_lem}
use wei.Poll.{
  Ctx, SockEnv, revived, revive_socket, sock_open, close_if, Polled, events, Pass, Callbacks, Loop,
  retunes, poll_retune, sock_drain, tick_to, due, tick_if, polled_pass, run_pass, run_passes, start,
  poll_run, timeout,
}

-- No period is more than a bound.
abbrev pub AllLe : ℕ → List ℕ → Type 0
AllLe m [] = Unit
AllLe m (p ∷ ps) = (p ≤ m) × AllLe m ps

retunes-le :
    (m : ℕ) (ctx : Ctx) (ps : List ℕ) → ctx.tick_ms ≤ m → AllLe m ps → (retunes ctx ps).tick_ms ≤ m
unfolding retunes poll_retune
retunes-le m ctx [] le all = le
retunes-le m ctx (p ∷ ps) le (first, rest) =
    retunes-le m (poll_retune ctx p).0 ps (ground arith) rest

tick_to-le :
    {U : Type 0} (m : ℕ) (asked : Option (U → U × List ℕ)) (l : Loop U)
    → ((f : U → U × List ℕ) (user : U) → asked ≡ some f → AllLe m (f user).1)
    → l.ctx.tick_ms ≤ m
    → (tick_to asked l).ctx.tick_ms ≤ m
tick_to-le m none l asks le = le
tick_to-le m (some f) l asks le = retunes-le m l.ctx (f l.user).1 le (asks f l.user refl)

revived-tick_ms :
    (ctx : Ctx) (opened : List ℕ × Option ℕ) → (revived ctx opened).1.tick_ms ≡ ctx.tick_ms
revived-tick_ms ctx (fds, none) = refl
revived-tick_ms ctx (fds, some fd) = refl

revive_socket-tick_ms :
    (path_max : ℕ) (healthy : Bool) (env : SockEnv) (ctx : Ctx) (fds : List ℕ)
    → (revive_socket path_max healthy env ctx fds).1.tick_ms ≡ ctx.tick_ms
unfolding revive_socket
revive_socket-tick_ms path_max true env ctx fds = refl
revive_socket-tick_ms path_max false env ctx fds =
    revived-tick_ms ctx (sock_open path_max env (some ctx.sock_path) (close_if ctx.fd fds))

module _ (path_max : ℕ) {U : Type 0} (calls : Callbacks U) where
  -- The two ways of a pass from a loop that is drained.
  abbrev pub Ticked : Pass → Loop U → Loop U → Type 0
  Ticked pass l l' =
      ((l.next_tick ≤ pass.after)
        × (l'.ticks ≡ (pass.after, l'.ctx.tick_ms) ∷ l.ticks)
        × (l'.next_tick ≡ pass.after + l'.ctx.tick_ms))
      ⊎ ((pass.after < l.next_tick) × (l'.ticks ≡ l.ticks) × (l'.next_tick ≡ l.next_tick))

  tick_if-Ticked : (pass : Pass) (l : Loop U) → Ticked pass l (tick_if path_max calls pass l)
  tick_if-Ticked pass l = elim (Bool-cases (leb l.next_tick pass.after)) [
    | inl now_due ↦
        let (p, ticks, next, set) = due-ticks path_max calls pass l in
        rw now_due (
          inl (
            ground arith,
            ticks ∙ ap (λ q. (pass.after, q) ∷ l.ticks) (sym set),
            next ∙ ap (◌+◌ pass.after) (sym set),
          ))
    | inr early ↦ rw early (inr (ground arith, refl, refl))
  ]

  drained-Ticked :
      (pass : Pass) (input : Bool) (l : Loop U)
      → Ticked pass l (polled_pass path_max calls (events false input) pass l).0
  drained-Ticked pass false l = tick_if-Ticked pass l
  drained-Ticked pass true l =
      let same = sock_drain-SameClock calls pass.received l in
      let ticked = tick_if-Ticked pass (sock_drain calls pass.received l) in
      let l' = tick_if path_max calls pass (sock_drain calls pass.received l) in
      elim ticked [
        | inl (late, ticks, next) ↦
            inl (omega arith, ticks ∙ ap (◌∷◌ (pass.after, l'.ctx.tick_ms)) same.1, next)
        | inr (early, ticks, next) ↦ inr (omega arith, ticks ∙ same.1, next ∙ same.0)
      ]

  -- A pass that poll does not fail ticks exactly when the second reading of the clock has reached the
  -- next tick, and then once.
  pub run_pass_ticks :
      (pass : Pass) (l : Loop U) (input : Bool)
      → pass.polled ≡ events false input
      → let (l', on) = run_pass path_max calls pass l in (on ≡ true) × Ticked pass l l'
  unfolding run_pass
  run_pass_ticks pass l input quiet =
      let shape = λ (r : Loop U × Bool). (r.1 ≡ true) × Ticked pass l r.0 in
      subst (λ (p : Polled). shape (polled_pass path_max calls p pass l)) (sym quiet)
        (refl, drained-Ticked pass input l)

  -- Every period that the tick's callback asks for is at most a bound.
  abbrev pub AsksLe : ℕ → Type 0
  AsksLe m = (f : U → U × List ℕ) (user : U) → calls.on_tick ≡ some f → AllLe m (f user).1

  -- The passes are idle: the clock does not go back, and poll returns without an event, after its
  -- timeout.
  abbrev pub IsIdle : ℕ → Loop U → List Pass → Type 0
  IsIdle last l [] = Unit
  IsIdle last l (pass ∷ passes) =
      (last ≤ pass.before)
      × (pass.polled ≡ events false false)
      × ((t : ℕ) → timeout l.next_tick pass.before ≡ pos t → pass.before + t ≤ pass.after)
      × IsIdle pass.after (run_pass path_max calls pass l).0 passes

  tick_ms-le :
      (m : ℕ) (pass : Pass) (l : Loop U)
      → AsksLe m
      → l.ctx.tick_ms ≤ m
      → (due path_max calls pass l).ctx.tick_ms ≤ m
  unfolding due
  tick_ms-le m pass l asks le =
      let (fds, ctx, ok) = revive_socket path_max pass.healthy pass.sock l.ctx l.fds in
      let kept = revive_socket-tick_ms path_max pass.healthy pass.sock l.ctx l.fds in
      tick_to-le m calls.on_tick (record l { ctx = ctx; fds = fds })
        (λ f user given. asks f user given) (omega arith)

  run_pass-le :
      (m : ℕ) (pass : Pass) (l : Loop U)
      → AsksLe m
      → l.ctx.tick_ms ≤ m
      → pass.polled ≡ events false false
      → (run_pass path_max calls pass l).0.ctx.tick_ms ≤ m
  unfolding run_pass
  run_pass-le m pass l asks le quiet =
      subst (λ (p : Polled). (polled_pass path_max calls p pass l).0.ctx.tick_ms ≤ m) (sym quiet)
        (elim (Bool-cases (leb l.next_tick pass.after)) [
          | inl now_due ↦ rw now_due (tick_ms-le m pass l asks le)
          | inr early ↦ rw early le
        ])

  -- Poll's timeout takes an idle pass to the next tick.
  idle_late :
      (pass : Pass) (l : Loop U)
      → l.next_tick - pass.before < 2 ^ 31
      → ((t : ℕ) → timeout l.next_tick pass.before ≡ pos t → pass.before + t ≤ pass.after)
      → l.next_tick ≤ pass.after
  idle_late pass l fits waited =
      let slept = waited (l.next_tick - pass.before) (timeout_lem l.next_tick pass.before fits) in
      omega arith

  -- An idle loop ticks in every pass.
  pub run_passes_live :
      (m last : ℕ) (passes : List Pass) (l : Loop U)
      → m < 2 ^ 31
      → AsksLe m
      → l.ctx.tick_ms ≤ m
      → l.next_tick ≤ last + m
      → IsIdle last l passes
      → let (l', on) = run_passes path_max calls passes l in
        (on ≡ true) × (length l'.ticks ≡ length passes + length l.ticks)
  unfolding run_passes
  run_passes_live m last [] l small asks le near idle = (refl, omega arith)
  run_passes_live m last (pass ∷ passes) l small asks le near (mono, quiet, waited, idle) =
      let l' = (run_pass path_max calls pass l).0 in
      let (on, ticked) = run_pass_ticks pass l false quiet in
      let late = idle_late pass l (omega arith) waited in
      let le' = run_pass-le m pass l asks le quiet in
      elim ticked [
        | inr (early, ticks, next) ↦ absurd (omega arith)
        | inl (due_now, ticks, next) ↦
            let (rest_on, rest) =
              run_passes_live m pass.after passes l' small asks le' (omega arith) idle in
            rw on (rest_on, rest ∙ ap (λ ts. length passes + length ts) ticks ∙ omega arith)
      ]

  pub poll_run_live :
      (m now : ℕ) (passes : List Pass) (ctx : Ctx) (user : U) (fds : List ℕ)
      → m < 2 ^ 31
      → AsksLe m
      → ctx.tick_ms ≤ m
      → IsIdle now (start now ctx user fds) passes
      → let (l', on) = poll_run path_max calls now passes ctx user fds in
        (on ≡ true) × (length l'.ticks ≡ length passes)
  unfolding poll_run
  poll_run_live m now passes ctx user fds small asks le idle =
      let l = start now ctx user fds in
      let (on, count) = run_passes_live m now passes l small asks le (omega arith) idle in
      (on, omega (arith, count))
