-- ===== src/Life/Walk/Whole.antt =====
-- The walk that no other thread interrupts.
use wei.Base.{
  ℕ, suc, ◌≡◌, refl, sym, ap, ◌∙◌, Option, none, some, List, [], ◌∷◌, ◌++◌, arith, get_or, set,
  length, length-append,
}
use mathlib.Core.List.{append_assoc}
use wei.Base.Int.{ℤ}
use wei.Double.{Double}
use wei.Scorer.{Sigmoid}
use wei.Track.{max_clients}
use wei.Life.{Ctx, Roster, Policy, Excursion, eval_ctx, eval_slots, eval_station}
use wei.Life.Events.{IsRoster}
use wei.Life.Walk.{batch_of, visit, walk}

get_or-middle :
    (xs ys : List (Option Ctx)) (x : Option Ctx) → get_or (xs ++ x ∷ ys) (length xs) none ≡ x
get_or-middle [] ys x = refl
get_or-middle (y ∷ xs) ys x = get_or-middle xs ys x

set-middle :
    (xs ys : List (Option Ctx)) (x v : Option Ctx) → set (xs ++ x ∷ ys) (length xs) v ≡ xs ++ v ∷ ys
set-middle [] ys x v = refl
set-middle (y ∷ xs) ys x v = ap (◌∷◌ y) (set-middle xs ys x v)

module _ {D : Type 0} (d : Double D) (q : Sigmoid D) (now : ℤ) (policy : Policy) (active : ℕ) where
  abbrev with_slots : List (Option Ctx) → Roster
  with_slots slots = record { slots = slots; active = active; policy = policy }

  visit_empty :
      (seen rest : List (Option Ctx))
      → visit d q (with_slots (seen ++ none ∷ rest)) now (length seen)
        ≡ (with_slots (seen ++ none ∷ rest), [])
  unfolding visit
  visit_empty seen rest = rw (get_or-middle seen rest none) refl

  visit_taken :
      (seen rest : List (Option Ctx)) (ctx : Ctx)
      → visit d q (with_slots (seen ++ some ctx ∷ rest)) now (length seen) ≡ (
        with_slots (seen ++ some (eval_ctx policy now ctx).0 ∷ rest),
        batch_of d q (with_slots []) now ctx,
      )
  unfolding visit
  visit_taken seen rest ctx =
      rw
        (
          get_or-middle seen rest (some ctx),
          set-middle seen rest (some ctx) (some (eval_ctx policy now ctx).0),
        )
        refl

  walk_done : (i : ℕ) (r : Roster) → walk d q 0 i r now ≡ (r, [])
  unfolding walk
  walk_done i r = refl

  -- A turn, from what it does to the roster.
  walk_turn :
      (n i : ℕ) (r r' : Roster) (out : List (Excursion × ℕ))
      → visit d q r now i ≡ (r', out)
      → walk d q (suc n) i r now
        ≡ ((walk d q n (suc i) r' now).0, out ++ (walk d q n (suc i) r' now).1)
  unfolding walk
  walk_turn n i r r' out e =
      ap
        (λ (v : Roster × List (Excursion × ℕ)).
          ((walk d q n (suc i) v.0 now).0, v.1 ++ (walk d q n (suc i) v.0 now).1))
        e

  module _ (x : Option Ctx) (seen rest rest' : List (Option Ctx)) (out : List (Excursion × ℕ)) where
    -- A slot moves from those that are left to those that were seen.
    walk_past :
        (n : ℕ)
        → walk d q n (length (seen ++ x ∷ [])) (with_slots ((seen ++ x ∷ []) ++ rest)) now
          ≡ (with_slots ((seen ++ x ∷ []) ++ rest'), out)
        → walk d q n (suc (length seen)) (with_slots (seen ++ x ∷ rest)) now
          ≡ (with_slots (seen ++ x ∷ rest'), out)
    walk_past n e =
        let size : suc (length seen) ≡ length (seen ++ x ∷ []) =
          omega (arith, length-append seen (x ∷ [])) in
        ap (λ k. walk d q n k (with_slots (seen ++ x ∷ rest)) now) size
        ∙ ap (λ s. walk d q n (length (seen ++ x ∷ [])) (with_slots s) now)
            (sym (append_assoc seen (x ∷ []) rest))
        ∙ e
        ∙ ap (λ s. (with_slots s, out)) (append_assoc seen (x ∷ []) rest')

  -- The walk over the slots that are left, behind those that were seen.
  walk-rest :
      (rest seen : List (Option Ctx))
      → walk d q (length rest) (length seen) (with_slots (seen ++ rest)) now ≡ (
        with_slots (seen ++ (eval_slots d q policy now rest).0),
        (eval_slots d q policy now rest).1,
      )
  unfolding eval_slots
  walk-rest [] seen = walk_done (length seen) (with_slots (seen ++ []))
  walk-rest (none ∷ rest) seen =
      let (rest', out) = eval_slots d q policy now rest in
      walk_turn (length rest) (length seen) _ _ [] (visit_empty seen rest)
      ∙ walk_past none seen rest rest' out (length rest) (walk-rest rest (seen ++ none ∷ []))
  walk-rest (some ctx ∷ rest) seen =
      let (rest', out) = eval_slots d q policy now rest in
      let x : Option Ctx = some (eval_ctx policy now ctx).0 in
      let batch = batch_of d q (with_slots []) now ctx in
      walk_turn (length rest) (length seen) _ _ batch (visit_taken seen rest ctx)
      ∙ ap (λ (v : Roster × List (Excursion × ℕ)). (v.0, batch ++ v.1))
          (walk_past x seen rest rest' out (length rest) (walk-rest rest (seen ++ x ∷ [])))

module _ {D : Type 0} (d : Double D) (q : Sigmoid D) where
  -- On a well-formed roster, the loop over the indices, each turn of which reads and writes one
  -- slot under the guard, evaluates the roster as it stood at the start, if no other thread
  -- comes between: the same roster afterwards, and the same reports in the same order.
  pub walk-eval_station :
      (r : Roster) (now : ℤ) → IsRoster r → walk d q max_clients 0 r now ≡ eval_station d q r now
  unfolding eval_station
  walk-eval_station r now w =
      ap (λ n. walk d q n 0 r now) (sym w.capacity) ∙ walk-rest d q now r.policy r.active r.slots []
