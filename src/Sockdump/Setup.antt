-- ===== src/Sockdump/Setup.antt =====
-- The socket of tools/wei_sockdump.c: its set-up in `main`, the loop, and what is left behind.
use wei.Base.{
  ℕ, ◌-◌, ◌≡◌, ◌≢◌, refl, Bool, true, false, not, ◌&&◌, List, [], ◌∷◌, ◌++◌, arith, if◌then◌else◌,
  take,
}
use wei.Base.Mac.{same_mac as same_path, same_mac_iff as same_path_iff}
use wei.Sockdump.{Line, Received, dump}

-- What of the system the tool changes: whether its descriptor is open, and which paths have a file.
pub record Sys : Type 0 where
  pub fd_open : Bool
  pub has_file : List ℕ → Bool

abbrev pub path_size : ℕ
path_size = 108

-- `snprintf(g_path, sizeof(g_path), "%s", path)`.
abbrev pub shortened : List ℕ → List ℕ
shortened path = take (path_size - 1) path

abbrev pub with_file : List ℕ → Bool → Sys → Sys
with_file path there sys = record sys {
  has_file = λ p. if same_path path p then there else sys.has_file p;
}

-- `unlink`, whose result is not read.
abbrev pub unlink : List ℕ → Sys → Sys
unlink path sys = with_file path false sys

-- `main` up to the loop, for a path: with what `socket` and `bind` give, whether the loop is entered.
-- A `bind` that succeeds makes the file.
unfoldable pub listen : Bool → Bool → List ℕ → Sys → Sys × Bool
listen socket_ok bind_ok path sys =
    let opened = unlink (shortened path) (record sys { fd_open = true }) in
    if not socket_ok
    then (sys, false)
    else if bind_ok
    then (with_file (shortened path) true opened, true)
    else (record opened { fd_open = false }, false)

-- What is printed by `main`, beside errors.
pub data Printed : Type 0 where
  listening stopping : List ℕ → Printed
  line : Line → Printed

abbrev pub lines : List Line → List Printed
lines [] = []
lines (l ∷ ls) = line l ∷ lines ls

pub record Ended : Type 0 where
  pub sys : Sys
  pub output : List Printed
  pub exit : ℕ

-- `main`, with the turns of its loop, each with whether a signal has set `g_stop` before it.
unfoldable pub main : Bool → Bool → List ℕ → List (Bool × Received) → Sys → Ended
unfolding listen
main socket_ok bind_ok path turns sys =
    let (ready, on) = listen socket_ok bind_ok path sys in
    if on
    then record {
      sys = unlink (shortened path) (record ready { fd_open = false });
      output =
          (listening (shortened path) ∷ []) ++ lines (dump turns) ++ stopping (shortened path) ∷ [];
      exit = 0;
    }
    else record { sys = ready; output = []; exit = 1 }

-- How the tool ends, for a path: nothing is left open, no other path is touched, the path has no file
-- if there was a socket at all, and the exit status says whether the tool has listened.
pub record IsTidy (socket_ok bind_ok : Bool) (path : List ℕ) (sys : Sys) (e : Ended) : Type 0 where
  pub closed : e.sys.fd_open ≡ false
  pub others : (p : List ℕ) → shortened path ≢ p → e.sys.has_file p ≡ sys.has_file p
  pub gone : socket_ok ≡ true → e.sys.has_file (shortened path) ≡ false
  pub status : e.exit ≡ (if socket_ok && bind_ok then 0 else 1)

-- From a state with no descriptor open, whatever socket and bind give and whatever the loop
-- receives: main leaves no descriptor open and the files at other paths alone, it leaves no file
-- at its own path if it got a socket, and its exit status is 0 exactly if socket and bind
-- succeeded.
pub main-IsTidy :
    (socket_ok bind_ok : Bool) (path : List ℕ) (turns : List (Bool × Received)) (sys : Sys)
    → sys.fd_open ≡ false
    → IsTidy socket_ok bind_ok path sys (main socket_ok bind_ok path turns sys)
unfolding main listen
main-IsTidy false bind_ok path turns sys shut = record {
  closed = shut;
  others = λ p ne. refl;
  gone = λ h. cc;
  status = refl;
}
main-IsTidy true false path turns sys shut = record {
  closed = refl;
  others = λ p ne. ground (arith, same_path_iff (shortened path) p, ne);
  gone = λ h. ground (arith, same_path_iff (shortened path) (shortened path));
  status = refl;
}
main-IsTidy true true path turns sys shut = record {
  closed = refl;
  others = λ p ne. ground (arith, same_path_iff (shortened path) p, ne);
  gone = λ h. ground (arith, same_path_iff (shortened path) (shortened path));
  status = refl;
}
