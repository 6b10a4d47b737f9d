-- ===== src/System/Verdicts.antt =====
-- The reports of one client over the life of the loop.
use wei.Base.{ℕ, List}
use wei.Base.Int.{ℤ}
use wei.Base.Mac.{Mac}
use wei.Double.{Double}
use wei.Scorer.{Sigmoid}
use wei.Perfreport.{Host}
use wei.Perfreport.Baseline.{IsFaithful, publish_tick-IsFaithful}
use wei.Wire.{Layout}
use wei.Poll.{Ctx, Pass, poll_run}
use wei.System.{World, calls}
use wei.System.Publications.{poll_run-keeps}

module _ {D : Type 0} (d : Double D) (q : Sigmoid D) (l : Layout) (clock : ℕ → ℕ → ℤ)
    (host : ℕ → Mac → Host) where
  -- Whatever the passes of the daemon's loop meet, from a start at which this holds, as it does
  -- while nothing is published and no slot of the cadence table in use: the slot of a client
  -- has the verdict of the client's newest report on the bus, SMOOTH where there is none, and
  -- no two consecutive reports of the client have the same verdict, the first being DEGRADED.
  pub poll_run-IsFaithful :
      (m : Mac) (path_max now : ℕ) (passes : List Pass) (ctx : Ctx) (w : World D) (fds : List ℕ)
      → IsFaithful m w.publisher
      → IsFaithful m
          (poll_run path_max (calls d q l clock host) now passes ctx w fds).0.user.publisher
  poll_run-IsFaithful m =
      poll_run-keeps d q l clock host (IsFaithful m)
        (λ h mac out rec p w. publish_tick-IsFaithful h mac out rec p m w)
