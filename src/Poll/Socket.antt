-- ===== src/Poll/Socket.antt =====
-- The descriptors of source/wei_poll.c: how its operations open and close them.
use wei.Base.{
  ℕ, ◌-◌, ◌<◌, ◌≡◌, refl, ap, sym, ◌∙◌, ◌⊎◌, inl, inr, Bool, true, false, Option, none, some, List,
  [], ◌∷◌, arith, ltb, leb, length, take_short, Bool-cases,
}
use wei.Poll.Invariant.{run_passes-keeps}
use wei.Poll.{
  Ctx, SockEnv, close_fd, close_if, opened, sock_open, poll_create, revive_socket, poll_stop, Recv,
  datagram, interrupted, Pass, Callbacks, Loop, retunes, poll_retune, after_call, deliver_to,
  deliver, received_part, sock_drain, tick_to, due, tick_if, run_passes, start, poll_run,
}

abbrev pub fd_list : Option ℕ → List ℕ
fd_list none = []
fd_list (some fd) = fd ∷ []

close_fd_head : (fd : ℕ) (fds : List ℕ) → close_fd fd (fd ∷ fds) ≡ fds
unfolding close_fd
close_fd_head fd fds = ground arith

pub close_if_owned : (fd : Option ℕ) → close_if fd (fd_list fd) ≡ []
close_if_owned none = refl
close_if_owned (some fd) = close_fd_head fd []

module _ (path_max : ℕ) where
  opened_outcome :
      (env : SockEnv) (socket : Option ℕ)
      → (opened env socket [] ≡ ([], none))
        ⊎ ((fd : ℕ) × (socket ≡ some fd) × (opened env socket [] ≡ (fd ∷ [], some fd)))
  opened_outcome env none = inl refl
  opened_outcome env (some fd) =
      let head = close_fd_head fd [] in
      elim (Bool-cases env.fcntl_ok) [
        | inr bad ↦ inl ground arith
        | inl good ↦ elim (Bool-cases env.bind_ok) [
          | inr unbound ↦ inl ground arith
          | inl bound ↦ inr (fd, refl, ground arith)
        ]
      ]

  -- Opened or not, nothing else stays open.
  sock_open_outcome :
      (env : SockEnv) (path : List ℕ)
      → (sock_open path_max env (some path) [] ≡ ([], none))
        ⊎ ((fd : ℕ) × (length path < path_max)
            × (env.socket ≡ some fd)
            × (sock_open path_max env (some path) [] ≡ (fd ∷ [], some fd)))
  unfolding sock_open
  sock_open_outcome env path = elim (Bool-cases (ltb (length path) path_max)) [
    | inr long ↦ inl ground arith
    | inl short ↦ elim (opened_outcome env env.socket) [
      | inl closed ↦ inl ground arith
      | inr (fd, given, done) ↦ inr (fd, ground arith, given, ground arith)
    ]
  ]

  -- A context comes with its one descriptor and the whole path, and no context with none.
  pub poll_create_outcome :
      (env : SockEnv) (alloc : Bool) (path : List ℕ)
      → let (fds, ctx) = poll_create path_max env alloc (some path) [] in
        ((ctx ≡ none) × (fds ≡ []))
        ⊎ ((fd : ℕ) × (fds ≡ fd ∷ [])
            × (ctx ≡ some (record { fd = some fd; tick_ms = 5000; sock_path = path })))
  unfolding poll_create
  poll_create_outcome env alloc path = elim (sock_open_outcome env path) [
    | inl closed ↦ inl ground arith
    | inr (fd, short, given, done) ↦
        let head = close_fd_head fd [] in
        let whole = take_short (path_max - 1) path (omega arith) in
        elim (Bool-cases alloc) [
          | inr out ↦ inl ground arith
          | inl got ↦ inr (fd, ground arith, ground arith)
        ]
  ]

  -- A revival of a context whose descriptor is the only open one, if it has one, leaves a healthy
  -- path alone; otherwise it either fails with no descriptor in the context and none open, or
  -- succeeds with the new one as the only open one. Period and path do not change.
  pub revive_socket_outcome :
      (healthy : Bool) (env : SockEnv) (ctx : Ctx)
      → let (fds, ctx', ok) = revive_socket path_max healthy env ctx (fd_list ctx.fd) in
        ((healthy ≡ true) × (fds ≡ fd_list ctx.fd) × (ctx' ≡ ctx) × (ok ≡ true))
        ⊎ ((healthy ≡ false) × (fds ≡ []) × (ctx' ≡ record ctx { fd = none }) × (ok ≡ false))
        ⊎ ((fd : ℕ) × (healthy ≡ false)
            × (env.socket ≡ some fd)
            × (fds ≡ fd ∷ [])
            × (ctx' ≡ record ctx { fd = some fd })
            × (ok ≡ true))
  unfolding revive_socket
  revive_socket_outcome true env ctx = inl (refl, refl, refl, refl)
  revive_socket_outcome false env ctx =
      let owned = close_if_owned ctx.fd in
      elim (sock_open_outcome env ctx.sock_path) [
        | inl closed ↦ inr (inl (refl, ground arith, ground arith, ground arith))
        | inr (fd, short, given, done) ↦
            inr (inr (fd, refl, given, ground arith, ground arith, ground arith))
      ]

retunes-fd : (ctx : Ctx) (ps : List ℕ) → (retunes ctx ps).fd ≡ ctx.fd
unfolding retunes poll_retune
retunes-fd ctx [] = refl
retunes-fd ctx (p ∷ ps) = retunes-fd (poll_retune ctx p).0 ps ∙ ground arith

-- The open descriptors are the context's own.
abbrev pub IsOwned : {U : Type 0} → Loop U → Type 0
IsOwned l = l.fds ≡ fd_list l.ctx.fd

after_call-IsOwned :
    {U : Type 0} (l : Loop U) (r : U × List ℕ) → IsOwned l → IsOwned (after_call l r)
after_call-IsOwned l (user, periods) owned = owned ∙ ap fd_list (sym (retunes-fd l.ctx periods))

tick_to-IsOwned :
    {U : Type 0} (f : Option (U → U × List ℕ)) (l : Loop U) → IsOwned l → IsOwned (tick_to f l)
tick_to-IsOwned none l owned = owned
tick_to-IsOwned (some f) l owned = after_call-IsOwned l (f l.user) owned

deliver_to-IsOwned :
    {U : Type 0} (f : Option (List ℕ → U → U × List ℕ)) (m : List ℕ) (l : Loop U)
    → IsOwned l
    → IsOwned (deliver_to f m l)
deliver_to-IsOwned none m l owned = owned
deliver_to-IsOwned (some f) m l owned = after_call-IsOwned l (f m l.user) owned

module _ (path_max : ℕ) {U : Type 0} (calls : Callbacks U) where
  deliver-IsOwned : (m : List ℕ) (l : Loop U) → IsOwned l → IsOwned (deliver calls m l)
  deliver-IsOwned [] l owned = owned
  deliver-IsOwned (b ∷ bytes) l owned = deliver_to-IsOwned calls.on_datagram (b ∷ bytes) l owned

  sock_drain-IsOwned : (rs : List Recv) (l : Loop U) → IsOwned l → IsOwned (sock_drain calls rs l)
  unfolding sock_drain
  sock_drain-IsOwned [] l owned = owned
  sock_drain-IsOwned (interrupted ∷ rs) l owned = sock_drain-IsOwned rs l owned
  sock_drain-IsOwned (datagram bytes ∷ rs) l owned =
      sock_drain-IsOwned rs (deliver calls (received_part bytes) l)
        (deliver-IsOwned (received_part bytes) l owned)

  revive-owned :
      (healthy : Bool) (env : SockEnv) (ctx : Ctx) (fds : List ℕ)
      → fds ≡ fd_list ctx.fd
      → let (fds', ctx', ok) = revive_socket path_max healthy env ctx fds in fds' ≡ fd_list ctx'.fd
  revive-owned healthy env ctx fds owned =
      rw owned (elim (revive_socket_outcome path_max healthy env ctx) [
        | inl (well, same, kept, ok) ↦ same ∙ ap (λ c. fd_list c.fd) (sym kept)
        | inr (inl (gone, same, kept, ok)) ↦ same ∙ ap (λ c. fd_list c.fd) (sym kept)
        | inr (inr (fd, gone, given, same, kept, ok)) ↦ same ∙ ap (λ c. fd_list c.fd) (sym kept)
      ])

  tick_if-IsOwned : (pass : Pass) (l : Loop U) → IsOwned l → IsOwned (tick_if path_max calls pass l)
  unfolding due
  tick_if-IsOwned pass l owned = elim (Bool-cases (leb l.next_tick pass.after)) [
    | inl due_now ↦ rw due_now (
        let (fds, ctx, ok) = revive_socket path_max pass.healthy pass.sock l.ctx l.fds in
        tick_to-IsOwned calls.on_tick (record l { ctx = ctx; fds = fds })
          (revive-owned pass.healthy pass.sock l.ctx l.fds owned))
    | inr early ↦ rw early owned
  ]

  -- From a context that holds the only open descriptor, or none, stopping the loop after any passes
  -- leaves no descriptor open.
  pub poll_stop-poll_run :
      (now : ℕ) (passes : List Pass) (ctx : Ctx) (user : U)
      → let l = (poll_run path_max calls now passes ctx user (fd_list ctx.fd)).0 in
        poll_stop l.ctx l.fds ≡ []
  unfolding poll_stop poll_run
  poll_stop-poll_run now passes ctx user =
      let l = start now ctx user (fd_list ctx.fd) in
      let owned =
        run_passes-keeps path_max calls IsOwned sock_drain-IsOwned tick_if-IsOwned passes l refl in
      rw owned (close_if_owned (run_passes path_max calls passes l).0.ctx.fd)
