-- ===== src/Poll/Dispatch.antt =====
-- Which handler `wei_poll_dispatch` of source/wei_poll.c routes a datagram to.
use wei.Base.{
  ℕ, ◌<◌, ◌≡◌, refl, ap, ◌∙◌, ◌⊎◌, inl, inr, Option, none, some, List, arith, leb, get_or,
  Bool-cases, Option-cases,
}
use wei.Base.Int.{ℤ, pos, negsuc, pos_part}
use wei.Poll.{DispatchTable, role_max, routed, by_role, dispatch}

-- The handler that a role selects, if any.
abbrev pub Selects : {U : Type 0} → List (Option (List ℕ → U → U)) → ℤ → (List ℕ → U → U) → Type 0
Selects handler role f =
    (r : ℕ) × (role ≡ pos r) × (r < role_max) × (get_or handler r none ≡ some f)

routed_outcome :
    {U : Type 0} (handler : List (Option (List ℕ → U → U))) (bytes : List ℕ) (role : ℤ) (user : U)
    → ((f : List ℕ → U → U) × Selects handler role f
        × (routed handler bytes (role, user) ≡ f bytes user))
      ⊎ (((f : List ℕ → U → U) → ¬ Selects handler role f)
          × (routed handler bytes (role, user) ≡ user))
routed_outcome handler bytes (negsuc n) user = inr ((λ f (r, same, small, at). ground arith), refl)
routed_outcome handler bytes (pos r) user = elim (Bool-cases (leb role_max r)) [
  | inl large ↦ rw large (inr ((λ f (q, same, small, at). ground arith), refl))
  | inr small ↦ rw small (elim (Option-cases (get_or handler r none)) [
    | inl empty ↦ rw empty (
        inr (
          (λ f (q, same, le, at).
              let same_role = ap (λ n. get_or handler n none) (ap pos_part same) in
              absurd (ground arith)),
          refl,
        ))
    | inr (f, found) ↦ rw found (inl (f, (r, refl, ground arith, found), refl))
  ])
]

pub dispatch_outcome :
    {U : Type 0} (d : DispatchTable U) (role_of : List ℕ → U → ℤ × U) (bytes : List ℕ) (user : U)
    → d.role_of ≡ some role_of
    → let (role, user') = role_of bytes user in
      ((f : List ℕ → U → U) × Selects d.handler role f × (dispatch d bytes user ≡ f bytes user'))
      ⊎ (((f : List ℕ → U → U) → ¬ Selects d.handler role f) × (dispatch d bytes user ≡ user'))
unfolding dispatch
dispatch_outcome d role_of bytes user given =
    let called = ap (λ r. by_role d.handler bytes r user) given in
    let (role, user') = role_of bytes user in
    elim (routed_outcome d.handler bytes role user') [
      | inl (f, chosen, done) ↦ inl (f, chosen, called ∙ done)
      | inr (none_chosen, done) ↦ inr (none_chosen, called ∙ done)
    ]
