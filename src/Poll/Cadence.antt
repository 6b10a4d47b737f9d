-- ===== src/Poll/Cadence.antt =====
-- The times at which the loop of source/wei_poll.c ticks, and the timeout that it gives poll.
use wei.Base.{
  ℕ, ◌+◌, ◌-◌, ◌^◌, ◌≤◌, ◌<◌, ◌≡◌, refl, ap, ◌∙◌, inl, inr, Option, none, some, List, [], ◌∷◌,
  arith, leb, Bool-cases,
}
use wei.Base.Int.{pos, negsuc, to_int32}
use wei.Poll.Invariant.{run_passes-keeps}
use wei.Poll.{
  Ctx, revive_socket, Recv, datagram, interrupted, Pass, Callbacks, Loop, deliver_to, deliver,
  received_part, sock_drain, tick_to, due, tick_if, start, poll_run, timeout,
}

-- Each tick is a period or more after the one before.
abbrev pub IsSpaced : List (ℕ × ℕ) → Type 0
IsSpaced [] = Unit
IsSpaced ((t, p) ∷ []) = Unit
IsSpaced ((t, p) ∷ (t', p') ∷ ticks) = (t' + p' ≤ t) × IsSpaced ((t', p') ∷ ticks)

-- The next tick is the latest one's period after it.
abbrev pub IsAhead : ℕ → List (ℕ × ℕ) → Type 0
IsAhead next [] = Unit
IsAhead next ((t, p) ∷ ticks) = next ≡ t + p

pub record IsPaced {U : Type 0} (l : Loop U) : Type 0 where
  pub spaced : IsSpaced l.ticks
  pub ahead : IsAhead l.next_tick l.ticks

IsSpaced-tick :
    (next t p : ℕ) (ticks : List (ℕ × ℕ))
    → IsAhead next ticks
    → next ≤ t
    → IsSpaced ticks
    → IsSpaced ((t, p) ∷ ticks)
IsSpaced-tick next t p [] ahead late spaced = tt
IsSpaced-tick next t p ((t', p') ∷ ticks) ahead late spaced = (omega arith, spaced)

-- What a callback leaves of the timing.
abbrev pub SameClock : {U : Type 0} → Loop U → Loop U → Type 0
SameClock l l' = (l'.next_tick ≡ l.next_tick) × (l'.ticks ≡ l.ticks)

deliver_to-SameClock :
    {U : Type 0} (f : Option (List ℕ → U → U × List ℕ)) (m : List ℕ) (l : Loop U)
    → SameClock l (deliver_to f m l)
deliver_to-SameClock none m l = (refl, refl)
deliver_to-SameClock (some f) m l = (refl, refl)

tick_to-SameClock :
    {U : Type 0} (f : Option (U → U × List ℕ)) (l : Loop U) → SameClock l (tick_to f l)
tick_to-SameClock none l = (refl, refl)
tick_to-SameClock (some f) l = (refl, refl)

module _ {U : Type 0} (calls : Callbacks U) where
  deliver-SameClock : (m : List ℕ) (l : Loop U) → SameClock l (deliver calls m l)
  deliver-SameClock [] l = (refl, refl)
  deliver-SameClock (b ∷ bytes) l = deliver_to-SameClock calls.on_datagram (b ∷ bytes) l

  pub sock_drain-SameClock : (rs : List Recv) (l : Loop U) → SameClock l (sock_drain calls rs l)
  unfolding sock_drain
  sock_drain-SameClock [] l = (refl, refl)
  sock_drain-SameClock (interrupted ∷ rs) l = sock_drain-SameClock rs l
  sock_drain-SameClock (datagram bytes ∷ rs) l =
      let m = received_part bytes in
      let first = deliver-SameClock m l in
      let rest = sock_drain-SameClock rs (deliver calls m l) in (rest.0 ∙ first.0, rest.1 ∙ first.1)

  sock_drain-IsPaced : (rs : List Recv) (l : Loop U) → IsPaced l → IsPaced (sock_drain calls rs l)
  sock_drain-IsPaced rs l w =
      let (next, ticks) = sock_drain-SameClock rs l in
      record { spaced = rw ticks w.spaced; ahead = rw (next, ticks) w.ahead }

module _ (path_max : ℕ) {U : Type 0} (calls : Callbacks U) where
  pub due-ticks :
      (pass : Pass) (l : Loop U)
      → (p : ℕ) × ((due path_max calls pass l).ticks ≡ (pass.after, p) ∷ l.ticks)
        × ((due path_max calls pass l).next_tick ≡ pass.after + p)
        × ((due path_max calls pass l).ctx.tick_ms ≡ p)
  unfolding due
  due-ticks pass l =
      let (fds, ctx, ok) = revive_socket path_max pass.healthy pass.sock l.ctx l.fds in
      let l' = tick_to calls.on_tick (record l { ctx = ctx; fds = fds }) in
      let same = tick_to-SameClock calls.on_tick (record l { ctx = ctx; fds = fds }) in
      (l'.ctx.tick_ms, ap (◌∷◌ (pass.after, l'.ctx.tick_ms)) same.1, refl, refl)

  tick_if-IsPaced : (pass : Pass) (l : Loop U) → IsPaced l → IsPaced (tick_if path_max calls pass l)
  tick_if-IsPaced pass l w = elim (Bool-cases (leb l.next_tick pass.after)) [
    | inl now_due ↦
        let (p, ticks, next, set) = due-ticks pass l in
        rw now_due (record {
          spaced =
              rw ticks
                (IsSpaced-tick l.next_tick pass.after p l.ticks w.ahead (ground arith) w.spaced);
          ahead = rw (ticks, next) refl;
        })
    | inr early ↦ rw early w
  ]

  -- Over any passes of the loop, any two ticks that follow one another are at least as far apart as
  -- the period that was in force after the first of them.
  pub poll_run-IsSpaced :
      (now : ℕ) (passes : List Pass) (ctx : Ctx) (user : U) (fds : List ℕ)
      → IsSpaced (poll_run path_max calls now passes ctx user fds).0.ticks
  unfolding poll_run
  poll_run-IsSpaced now passes ctx user fds =
      let l = start now ctx user fds in
      let w : IsPaced l = record { spaced = tt; ahead = tt } in
      let paced =
        run_passes-keeps path_max calls IsPaced (sock_drain-IsPaced calls) tick_if-IsPaced passes l
          w in
      paced.spaced

-- A time left that fits an `int` is the timeout.
pub timeout_lem : (next now : ℕ) → next - now < 2 ^ 31 → timeout next now ≡ pos (next - now)
unfolding timeout to_int32
timeout_lem next now fits = ground arith

-- A longer one becomes a negative timeout.
pub timeout_wraps :
    (next now : ℕ)
    → 2 ^ 31 ≤ next - now
    → next - now < 2 ^ 32
    → timeout next now ≡ negsuc (2 ^ 32 - 1 - (next - now))
unfolding timeout to_int32
timeout_wraps next now long fits = ground arith
