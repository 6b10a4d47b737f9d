-- ===== src/Poll.antt =====
-- source/wei_poll.c: the loop that drains the datagram socket and ticks. What the system calls give is
-- the parameter of each operation: the two readings of the clock, what poll and recv return, and
-- whether a socket can be opened. The callbacks are parameters of the loop.
pub mod Invariant
pub mod Socket
pub mod Drain
pub mod Cadence
pub mod Live
pub mod Dispatch
pub mod Examples
use wei.Base.{
  ℕ, zero, suc, ◌+◌, ◌-◌, ◌*◌, ◌%◌, ◌^◌, Bool, true, false, not, ◌&&◌, Option, none, some, List, [],
  ◌∷◌, if◌then◌else◌, ltb, leb, ◌==◌, length, take, get_or,
}
use wei.Base.Int.{ℤ, pos, negsuc, to_int32}

-- The members of `wei_poll_ctx` that change; a negative descriptor is none.
pub record Ctx : Type 0 where
  pub fd : Option ℕ
  pub tick_ms : ℕ
  pub sock_path : List ℕ

abbrev pub tick_default_ms : ℕ
tick_default_ms = 5000

-- The largest datagram that is received whole.
abbrev pub dgram_max : ℕ
dgram_max = 65535 + 64

-- The bytes of a datagram that recv puts in the buffer.
unfoldable pub received_part : List ℕ → List ℕ
received_part bytes = take dgram_max bytes

-- What `socket`, `fcntl` and `bind` give.
pub record SockEnv : Type 0 where
  pub socket : Option ℕ
  pub fcntl_ok : Bool
  pub bind_ok : Bool

-- The descriptors that the unit holds open are a list.
unfoldable pub close_fd : ℕ → List ℕ → List ℕ
close_fd fd [] = []
close_fd fd (x ∷ xs) = let rest = close_fd fd xs in if x == fd then xs else x ∷ rest

abbrev pub close_if : Option ℕ → List ℕ → List ℕ
close_if none fds = fds
close_if (some fd) fds = close_fd fd fds

abbrev pub configured : SockEnv → ℕ → List ℕ → List ℕ × Option ℕ
configured env fd fds =
    if not env.fcntl_ok
    then (close_fd fd fds, none)
    else if not env.bind_ok
    then (close_fd fd fds, none)
    else (fds, some fd)

abbrev pub opened : SockEnv → Option ℕ → List ℕ → List ℕ × Option ℕ
opened env none fds = (fds, none)
opened env (some fd) fds = configured env fd (fd ∷ fds)

abbrev pub revived : Ctx → List ℕ × Option ℕ → List ℕ × Ctx × Bool
revived ctx (fds, none) = (fds, record ctx { fd = none }, false)
revived ctx (fds, some fd) = (fds, record ctx { fd = some fd }, true)

-- `path_max` is the size of `sun_path`. A NULL path is none.
module _ (path_max : ℕ) where
  unfoldable pub sock_open : SockEnv → Option (List ℕ) → List ℕ → List ℕ × Option ℕ
  sock_open env none fds = (fds, none)
  sock_open env (some path) fds =
      if not (ltb (length path) path_max) then (fds, none) else opened env env.socket fds

  abbrev pub created : Bool → List ℕ → List ℕ × Option ℕ → List ℕ × Option Ctx
  created alloc path (fds, none) = (fds, none)
  created alloc path (fds, some fd) = if not alloc then (close_fd fd fds, none) else (
    fds,
    some (record { fd = some fd; tick_ms = tick_default_ms; sock_path = take (path_max - 1) path }),
  )

  -- `alloc` is whether `calloc` gives memory.
  unfoldable pub poll_create : SockEnv → Bool → Option (List ℕ) → List ℕ → List ℕ × Option Ctx
  poll_create env alloc none fds = (fds, none)
  poll_create env alloc (some path) fds = created alloc path (sock_open env (some path) fds)

  -- `healthy` is whether the path is a socket; the last component is `true` for the return value 0.
  unfoldable pub revive_socket : Bool → SockEnv → Ctx → List ℕ → List ℕ × Ctx × Bool
  revive_socket healthy env ctx fds =
      if healthy
      then (fds, ctx, true)
      else revived ctx (sock_open env (some ctx.sock_path) (close_if ctx.fd fds))

-- The context afterwards, and `true` for the return value 0.
unfoldable pub poll_retune : Ctx → ℕ → Ctx × Bool
poll_retune ctx period_ms =
    if period_ms == 0 then (ctx, false) else (record ctx { tick_ms = period_ms }, true)

-- The descriptors that stay open.
unfoldable pub poll_stop : Ctx → List ℕ → List ℕ
poll_stop ctx fds = close_if ctx.fd fds

-- What recv gives until its first error other than EINTR.
pub data Recv : Type 0 where
  datagram : List ℕ → Recv
  interrupted : Recv

-- What poll returns: an error, which is EINTR or another, or the events, which are an error on the
-- descriptor or not, and input or none.
pub data Polled : Type 0 where
  failed : Bool → Polled
  events : Bool → Bool → Polled

-- What the system gives in one pass of the loop.
pub record Pass : Type 0 where
  pub before : ℕ
  pub polled : Polled
  pub received : List Recv
  pub after : ℕ
  pub healthy : Bool
  pub sock : SockEnv

-- The callbacks on a user state `U`: each gives the state afterwards and the periods that it calls
-- `wei_poll_retune` with. A NULL callback is none.
pub record Callbacks (U : Type 0) : Type 0 where
  pub on_datagram : Option (List ℕ → U → U × List ℕ)
  pub on_tick : Option (U → U × List ℕ)

-- The loop's variables, with a ghost: each tick's time and the period after it, the latest first.
pub record Loop (U : Type 0) : Type 0 where
  pub ctx : Ctx
  pub user : U
  pub fds : List ℕ
  pub next_tick : ℕ
  pub ticks : List (ℕ × ℕ)

unfoldable pub retunes : Ctx → List ℕ → Ctx
unfolding poll_retune
retunes ctx [] = ctx
retunes ctx (p ∷ ps) = retunes (poll_retune ctx p).0 ps

abbrev pub after_call : {U : Type 0} → Loop U → U × List ℕ → Loop U
after_call l (user, periods) = record l { ctx = retunes l.ctx periods; user = user }

abbrev pub deliver_to : {U : Type 0} → Option (List ℕ → U → U × List ℕ) → List ℕ → Loop U → Loop U
deliver_to none bytes l = l
deliver_to (some f) bytes l = after_call l (f bytes l.user)

abbrev pub tick_to : {U : Type 0} → Option (U → U × List ℕ) → Loop U → Loop U
tick_to none l = l
tick_to (some f) l = after_call l (f l.user)

-- The variables at the start, with the first reading of the clock.
abbrev pub start : {U : Type 0} → ℕ → Ctx → U → List ℕ → Loop U
start now ctx user fds = record {
  ctx = ctx;
  user = user;
  fds = fds;
  next_tick = now + ctx.tick_ms;
  ticks = [];
}

-- The timeout that poll is called with: the time left, as an `int`.
unfoldable pub timeout : ℕ → ℕ → ℤ
unfolding to_int32
timeout next_tick now = to_int32 ((next_tick - now) % 2 ^ 32)

module _ {U : Type 0} (calls : Callbacks U) where
  -- An empty datagram is dropped.
  abbrev pub deliver : List ℕ → Loop U → Loop U
  deliver [] l = l
  deliver (b ∷ bytes) l = deliver_to calls.on_datagram (b ∷ bytes) l

  unfoldable pub sock_drain : List Recv → Loop U → Loop U
  sock_drain [] l = l
  sock_drain (interrupted ∷ rs) l = sock_drain rs l
  sock_drain (datagram bytes ∷ rs) l = sock_drain rs (deliver (received_part bytes) l)

module _ (path_max : ℕ) {U : Type 0} (calls : Callbacks U) where
  -- The tick that is due: the socket is revived, the callback called, and the next one set.
  unfoldable pub due : Pass → Loop U → Loop U
  due pass l =
      let (fds, ctx, ok) = revive_socket path_max pass.healthy pass.sock l.ctx l.fds in
      let l' = tick_to calls.on_tick (record l { ctx = ctx; fds = fds }) in
      record l' {
        next_tick = pass.after + l'.ctx.tick_ms;
        ticks = (pass.after, l'.ctx.tick_ms) ∷ l'.ticks;
      }

  abbrev pub tick_if : Pass → Loop U → Loop U
  tick_if pass l = if leb l.next_tick pass.after then due pass l else l

  abbrev pub polled_pass : Polled → Pass → Loop U → Loop U × Bool
  polled_pass (failed eintr) pass l = (l, eintr)
  polled_pass (events error input) pass l =
      if error
      then (l, false)
      else (tick_if pass (if input then sock_drain calls pass.received l else l), true)

  -- One pass; `false` where `wei_poll_run` returns -1.
  unfoldable pub run_pass : Pass → Loop U → Loop U × Bool
  run_pass pass l = polled_pass pass.polled pass l

  -- The passes of the loop as long as it runs; `false` where it has returned.
  unfoldable pub run_passes : List Pass → Loop U → Loop U × Bool
  run_passes [] l = (l, true)
  run_passes (pass ∷ passes) l =
      let (l', goes_on) = run_pass pass l in
      let rest = run_passes passes l' in if goes_on then rest else (l', false)

  unfoldable pub poll_run : ℕ → List Pass → Ctx → U → List ℕ → Loop U × Bool
  poll_run now passes ctx user fds = run_passes passes (start now ctx user fds)

-- `wei_poll_dispatch_t`; `role_of` may change the user state.
pub record DispatchTable (U : Type 0) : Type 0 where
  pub role_of : Option (List ℕ → U → ℤ × U)
  pub handler : List (Option (List ℕ → U → U))

abbrev pub role_max : ℕ
role_max = 8

module _ {U : Type 0} where
  abbrev pub handle : Option (List ℕ → U → U) → List ℕ → U → U
  handle none bytes user = user
  handle (some f) bytes user = f bytes user

  abbrev pub routed : List (Option (List ℕ → U → U)) → List ℕ → ℤ × U → U
  routed handler bytes (negsuc n, user) = user
  routed handler bytes (pos role, user) =
      if leb role_max role then user else handle (get_or handler role none) bytes user

  abbrev pub by_role : List (Option (List ℕ → U → U)) → List ℕ → Option (List ℕ → U → ℤ × U) → U → U
  by_role handler bytes none user = user
  by_role handler bytes (some role_of) user = routed handler bytes (role_of bytes user)

  unfoldable pub dispatch : DispatchTable U → List ℕ → U → U
  dispatch d bytes user = by_role d.handler bytes d.role_of user
