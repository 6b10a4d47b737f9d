-- ===== src/Poll/Drain.antt =====
-- The drain of source/wei_poll.c against the messages among what recv gives.
use wei.Base.{ℕ, ◌≡◌, refl, ap, ◌∙◌, some, List, [], ◌∷◌, ◌++◌}
use wei.Poll.{
  Ctx, Recv, datagram, interrupted, Callbacks, Loop, retunes, poll_retune, after_call, deliver_to,
  deliver, sock_drain, received_part,
}

-- The messages among what recv gives: not the interruptions, and not what is empty.
abbrev pub unless_empty : List ℕ → List (List ℕ) → List (List ℕ)
unless_empty [] ms = ms
unless_empty (b ∷ bytes) ms = (b ∷ bytes) ∷ ms

abbrev pub messages : List Recv → List (List ℕ)
messages [] = []
messages (interrupted ∷ rs) = messages rs
messages (datagram bytes ∷ rs) = unless_empty (received_part bytes) (messages rs)

-- The user state and the periods after the messages.
abbrev pub folded : {U : Type 0} → (List ℕ → U → U × List ℕ) → U → List (List ℕ) → U × List ℕ
folded f user [] = (user, [])
folded f user (m ∷ ms) =
    let (user', periods) = f m user in
    let (user'', later) = folded f user' ms in (user'', periods ++ later)

retunes-++ : (ctx : Ctx) (ps qs : List ℕ) → retunes (retunes ctx ps) qs ≡ retunes ctx (ps ++ qs)
unfolding retunes
retunes-++ ctx [] qs = refl
retunes-++ ctx (p ∷ ps) qs = retunes-++ (poll_retune ctx p).0 ps qs

module _ {U : Type 0} (calls : Callbacks U) where
  -- The loop after the messages.
  abbrev pub delivered : (List ℕ → U → U × List ℕ) → List (List ℕ) → Loop U → Loop U
  delivered f ms l = after_call l (folded f l.user ms)

  delivered_step :
      (f : List ℕ → U → U × List ℕ) (m : List ℕ) (ms : List (List ℕ)) (l : Loop U)
      → delivered f ms (deliver_to (some f) m l) ≡ delivered f (m ∷ ms) l
  delivered_step f m ms l =
      let periods = (f m l.user).1 in
      let later = folded f (f m l.user).0 ms in
      ap (λ c. record l { ctx = c; user = later.0 }) (retunes-++ l.ctx periods later.1)

  delivered-unless_empty :
      (f : List ℕ → U → U × List ℕ)
      → calls.on_datagram ≡ some f
      → (m : List ℕ) (ms : List (List ℕ)) (l : Loop U)
      → delivered f ms (deliver calls m l) ≡ delivered f (unless_empty m ms) l
  delivered-unless_empty f given [] ms l = refl
  delivered-unless_empty f given (b ∷ bytes) ms l =
      ap (λ c. delivered f ms (deliver_to c (b ∷ bytes) l)) given
      ∙ delivered_step f (b ∷ bytes) ms l

  -- With a datagram callback: a drain is the fold of the callback over the messages received before
  -- the first error other than EINTR, each delivered once and in order, interruptions and empty
  -- datagrams left out, with the retunes that the callback asks for made in order.
  pub sock_drain_eq :
      (f : List ℕ → U → U × List ℕ)
      → calls.on_datagram ≡ some f
      → (rs : List Recv) (l : Loop U) → sock_drain calls rs l ≡ delivered f (messages rs) l
  unfolding sock_drain retunes
  sock_drain_eq f given [] l = refl
  sock_drain_eq f given (interrupted ∷ rs) l = sock_drain_eq f given rs l
  sock_drain_eq f given (datagram bytes ∷ rs) l =
      sock_drain_eq f given rs (deliver calls (received_part bytes) l)
      ∙ delivered-unless_empty f given (received_part bytes) (messages rs) l
