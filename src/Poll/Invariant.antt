-- ===== src/Poll/Invariant.antt =====
-- How a property of the loop of source/wei_poll.c passes from its parts to its runs.
use wei.Base.{ℕ, true, false, List, [], ◌∷◌, Bool-cases, inl, inr}
use wei.Poll.{
  Recv, Polled, failed, events, Pass, Callbacks, Loop, sock_drain, tick_if, polled_pass, run_pass,
  run_passes,
}

module _ (path_max : ℕ) {U : Type 0} (calls : Callbacks U) (P : Loop U → Type 0)
    (drains : (rs : List Recv) (l : Loop U) → P l → P (sock_drain calls rs l))
    (ticks : (pass : Pass) (l : Loop U) → P l → P (tick_if path_max calls pass l)) where
  polled_pass-keeps :
      (polled : Polled) (pass : Pass) (l : Loop U)
      → P l
      → P (polled_pass path_max calls polled pass l).0
  polled_pass-keeps (failed eintr) pass l w = w
  polled_pass-keeps (events true input) pass l w = w
  polled_pass-keeps (events false true) pass l w =
      ticks pass (sock_drain calls pass.received l) (drains pass.received l w)
  polled_pass-keeps (events false false) pass l w = ticks pass l w

  pub run_pass-keeps : (pass : Pass) (l : Loop U) → P l → P (run_pass path_max calls pass l).0
  unfolding run_pass
  run_pass-keeps pass l w = polled_pass-keeps pass.polled pass l w

  pub run_passes-keeps :
      (passes : List Pass) (l : Loop U) → P l → P (run_passes path_max calls passes l).0
  unfolding run_passes
  run_passes-keeps [] l w = w
  run_passes-keeps (pass ∷ passes) l w = elim (Bool-cases (run_pass path_max calls pass l).1) [
    | inl on ↦
        rw on (run_passes-keeps passes (run_pass path_max calls pass l).0 (run_pass-keeps pass l w))
    | inr off ↦ rw off (run_pass-keeps pass l w)
  ]
