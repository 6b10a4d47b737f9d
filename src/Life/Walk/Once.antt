-- ===== src/Life/Walk/Once.antt =====
-- A station that stays is evaluated once by a walk, whatever comes between its turns.
use wei.Base.{
  ℕ, zero, suc, ◌<◌, ◌≡◌, ◌≢◌, refl, sym, ap, ◌∙◌, ◌⊎◌, inl, inr, Bool, true, false, Option, none,
  some, List, [], ◌∷◌, ◌++◌, arith, get_or, get_elem?, get_elem?-set_self, get_elem?-set_ne, length,
  length-set, if◌then◌else◌, ltb, ◌==◌, Bool-cases,
}
use mathlib.Core.Option.{some-injective}
use mathlib.Core.List.{append-nil}
use mathlib.Core.Path.{subst}
use wei.Base.Int.{ℤ}
use wei.Base.Mac.{Mac, same_mac, same_mac_iff}
use wei.Slots.Distinct.{Distinct-index, set_same-Distinct, occupied-set_same}
use wei.Double.{Double}
use wei.Scorer.{Sigmoid, score}
use wei.Track.{max_clients}
use wei.Life.{Ctx, Roster, Policy, Excursion, stations, eval_ctx, with_score}
use wei.Life.Events.{IsRoster, on_station_event-IsRoster}
use wei.Life.Ingest.{ingest_metric-IsRoster}
use wei.Life.Reports.{AllFor, eval_ctx-IsBatch}
use wei.Life.Walk.{visited, visit, Walk, Move, turn, event, sample, Moves, done, then_move}
use wei.Life.Walk.Others.{event-Untouched, ingest-Untouched}

slot_cases :
    (slots : List (Option Ctx)) (i : ℕ)
    → (get_or slots i none ≡ none)
      ⊎ ((c : Ctx) × (get_or slots i none ≡ some c) × (get_elem? slots i ≡ some (some c)))
slot_cases [] i = inl refl
slot_cases (none ∷ slots) zero = inl refl
slot_cases (some c ∷ slots) zero = inr (c, refl, refl)
slot_cases (x ∷ slots) (suc i) = slot_cases slots i

get_or-at :
    (slots : List (Option Ctx)) (i : ℕ) (c : Ctx)
    → get_elem? slots i ≡ some (some c)
    → (get_or slots i none ≡ some c) × (i < length slots)
get_or-at [] i c h = absurd (ground arith)
get_or-at (x ∷ slots) zero c h = (some-injective _ _ h, omega arith)
get_or-at (x ∷ slots) (suc i) c h =
    let rest = get_or-at slots i c h in (rest.0, omega (arith, rest.1))

-- The reports of one station.
abbrev pub reports_of : Mac → List (Excursion × ℕ) → List (Excursion × ℕ)
reports_of m [] = []
reports_of m (r ∷ rs) = if same_mac r.0.mac m then r ∷ reports_of m rs else reports_of m rs

reports_of-append :
    (m : Mac) (rs ss : List (Excursion × ℕ))
    → reports_of m (rs ++ ss) ≡ reports_of m rs ++ reports_of m ss
reports_of-append m [] ss = refl
reports_of-append m (r ∷ rs) ss = ground (arith, reports_of-append m rs ss)

module _ {D : Type 0} (d : Double D) (q : Sigmoid D) where
  reports_of-own :
      (m mac : Mac) (s : ℕ) (es : List Excursion)
      → mac ≡ m
      → AllFor mac es
      → reports_of m (with_score d q s es) ≡ with_score d q s es
  reports_of-own m mac s [] own a = refl
  reports_of-own m mac s (e ∷ es) own a =
      rw ((same_mac_iff e.mac m).1 (a.0.station ∙ own))
        (ap (◌∷◌ (e, s)) (reports_of-own m mac s es own a.1))

  reports_of-other :
      (m mac : Mac) (s : ℕ) (es : List Excursion)
      → mac ≢ m
      → AllFor mac es
      → reports_of m (with_score d q s es) ≡ []
  reports_of-other m mac s [] other a = refl
  reports_of-other m mac s (e ∷ es) other a =
      let differs : same_mac e.mac m ≡ false =
        ground (arith, same_mac_iff e.mac m, a.0.station, other) in
      rw differs (reports_of-other m mac s es other a.1)

  eval_ctx-mac : (policy : Policy) (now : ℤ) (c : Ctx) → (eval_ctx policy now c).0.mac ≡ c.mac
  unfolding eval_ctx
  eval_ctx-mac policy now c = refl

  module _ (r : Roster) (now : ℤ) (i : ℕ) where
    visit_taken :
        (c : Ctx)
        → get_or r.slots i none ≡ some c
        → visit d q r now i ≡ visited d q r now i (some c)
    unfolding visit
    visit_taken c e = ap (visited d q r now i) e

    visit_empty : get_or r.slots i none ≡ none → visit d q r now i ≡ (r, [])
    unfolding visit
    visit_empty e = ap (visited d q r now i) e

    visit-IsRoster : IsRoster r → IsRoster (visit d q r now i).0
    visit-IsRoster w = elim (slot_cases r.slots i) [
      | inl empty ↦
          subst (λ (v : Roster × List (Excursion × ℕ)). IsRoster v.0) (sym (visit_empty empty)) w
      | inr (c, e, at) ↦
          let slot : Option Ctx = some (eval_ctx r.policy now c).0 in
          subst (λ (v : Roster × List (Excursion × ℕ)). IsRoster v.0) (sym (visit_taken c e))
            (record {
              capacity = length-set r.slots i slot ∙ w.capacity;
              distinct =
                  set_same-Distinct stations r.slots i (some c) slot at
                    (λ live. (refl, eval_ctx-mac r.policy now c)) w.distinct;
              counted =
                  w.counted ∙ sym (occupied-set_same stations r.slots i (some c) slot at refl);
            })
    ]

  module _ (policy : Policy) (now : ℤ) (k : ℕ) (ctx : Ctx) where
    -- The context after its evaluation, and what is reported of it.
    abbrev pub evaluated : Ctx
    evaluated = (eval_ctx policy now ctx).0

    abbrev pub told : List (Excursion × ℕ)
    told = with_score d q (score d q (some ctx.sample)) (eval_ctx policy now ctx).1

    -- The station in slot `k`, before its turn and after it.
    record IsWatched (w : Walk) : Type 0 where
      roster : IsRoster w.roster
      policy_same : w.roster.policy ≡ policy
      slot : get_elem? w.roster.slots k ≡ some (some (if ltb k w.index then evaluated else ctx))
      reports : reports_of ctx.mac w.reports ≡ (if ltb k w.index then told else [])

    now_mac : (b : Bool) → (if b then evaluated else ctx).mac ≡ ctx.mac
    now_mac true = eval_ctx-mac policy now ctx
    now_mac false = refl

    -- What a turn at another index does to the slot and to the station's reports.
    record Passes (r : Roster) (c : Ctx) (v : Roster × List (Excursion × ℕ)) : Type 0 where
      slot : get_elem? v.0.slots k ≡ some (some c)
      policy_same : v.0.policy ≡ r.policy
      reports : reports_of ctx.mac v.1 ≡ []

    visit-Passes :
        (r : Roster) (i : ℕ) (c : Ctx)
        → IsRoster r
        → i ≢ k
        → c.mac ≡ ctx.mac
        → get_elem? r.slots k ≡ some (some c)
        → Passes r c (visit d q r now i)
    visit-Passes r i c w ne same at = elim (slot_cases r.slots i) [
      | inl empty ↦
          subst (Passes r c) (sym (visit_empty r now i empty))
            (record { slot = at; policy_same = refl; reports = refl })
      | inr (x, e, there) ↦ subst (Passes r c) (sym (visit_taken r now i x e)) (record {
        slot = get_elem?-set_ne r.slots i k _ ne ∙ at;
        policy_same = refl;
        reports =
            reports_of-other ctx.mac x.mac (score d q (some x.sample)) _
              (λ mine. ne (
                Distinct-index stations r.slots i k (some x) (some c) w.distinct there at refl refl
                  (mine ∙ sym same)))
              (eval_ctx-IsBatch r.policy now x).0;
      })
    ]

    -- The station's own turn.
    record Evaluates (v : Roster × List (Excursion × ℕ)) : Type 0 where
      slot : get_elem? v.0.slots k ≡ some (some evaluated)
      policy_same : v.0.policy ≡ policy
      reports : reports_of ctx.mac v.1 ≡ told

    visit-Evaluates :
        (r : Roster)
        → r.policy ≡ policy
        → get_elem? r.slots k ≡ some (some ctx)
        → Evaluates (visit d q r now k)
    visit-Evaluates r p at =
        let found = get_or-at r.slots k ctx at in
        subst Evaluates (sym (visit_taken r now k ctx found.0)) (record {
          slot =
              get_elem?-set_self r.slots k _ found.1
              ∙ ap (λ x. some (some (eval_ctx x now ctx).0)) p;
          policy_same = p;
          reports =
              reports_of-own ctx.mac ctx.mac (score d q (some ctx.sample)) _ refl
                (eval_ctx-IsBatch r.policy now ctx).0
              ∙ ap (λ x. with_score d q (score d q (some ctx.sample)) (eval_ctx x now ctx).1) p;
        })

    turn-IsWatched :
        (w : Walk)
        → IsWatched w
        → IsWatched (record {
          roster = (visit d q w.roster now w.index).0;
          index = suc w.index;
          reports = w.reports ++ (visit d q w.roster now w.index).1;
        })
    turn-IsWatched w i = elim (Bool-cases (w.index == k)) [
      | inl mine ↦
          let e : w.index ≡ k = ground (arith, mine) in
          let before : ltb k w.index ≡ false = ground (arith, mine) in
          let after : true ≡ ltb k (suc w.index) = ground (arith, mine) in
          let slot = i.slot ∙ ap (λ b. some (some (if b then evaluated else ctx))) before in
          let own =
            subst (λ (n : ℕ). Evaluates (visit d q w.roster now n)) (sym e)
              (visit-Evaluates w.roster i.policy_same slot) in
          record {
            roster = visit-IsRoster w.roster now w.index i.roster;
            policy_same = own.policy_same;
            slot = own.slot ∙ ap (λ b. some (some (if b then evaluated else ctx))) after;
            reports =
                reports_of-append ctx.mac w.reports _
                ∙ ap (λ rs. reports_of ctx.mac w.reports ++ rs) own.reports
                ∙ ap (λ rs. rs ++ told)
                    (i.reports
                      ∙ ap (λ b. if◌then◌else◌ {A = List (Excursion × ℕ)} b told []) before)
                ∙ ap (λ b. if◌then◌else◌ {A = List (Excursion × ℕ)} b told []) after;
          }
      | inr other ↦
          let ne : w.index ≢ k = λ e. absurd (ground (arith, other, e)) in
          let later : ltb k (suc w.index) ≡ ltb k w.index = ground (arith, other) in
          let pass =
            visit-Passes w.roster w.index (if ltb k w.index then evaluated else ctx) i.roster ne
              (now_mac (ltb k w.index)) i.slot in
          record {
            roster = visit-IsRoster w.roster now w.index i.roster;
            policy_same = pass.policy_same ∙ i.policy_same;
            slot = pass.slot ∙ ap (λ b. some (some (if b then evaluated else ctx))) (sym later);
            reports =
                reports_of-append ctx.mac w.reports _
                ∙ ap (λ rs. reports_of ctx.mac w.reports ++ rs) pass.reports
                ∙ append-nil (reports_of ctx.mac w.reports)
                ∙ i.reports
                ∙ ap (λ b. if◌then◌else◌ {A = List (Excursion × ℕ)} b told []) (sym later);
          }
    ]

    Others : Mac → Type 0
    Others mac = mac ≢ ctx.mac

    Move-IsWatched : {w w' : Walk} → Move d q now Others w w' → IsWatched w → IsWatched w'
    unfolding Others
    Move-IsWatched (turn w more) i = turn-IsWatched w i
    Move-IsWatched (event w alloc e mac other) i =
        let c = if ltb k w.index then evaluated else ctx in
        let left =
          event-Untouched w.roster k c i.slot alloc e mac
            (λ same. other (same ∙ now_mac (ltb k w.index))) in
        record {
          roster = on_station_event-IsRoster alloc w.roster e mac i.roster;
          policy_same = left.1 ∙ i.policy_same;
          slot = left.0;
          reports = i.reports;
        }
    Move-IsWatched (sample w mac rec other) i =
        let c = if ltb k w.index then evaluated else ctx in
        let left =
          ingest-Untouched w.roster k c i.slot mac rec
            (λ same. other (same ∙ now_mac (ltb k w.index))) in
        record {
          roster = ingest_metric-IsRoster w.roster mac rec i.roster;
          policy_same = left.1 ∙ i.policy_same;
          slot = left.0;
          reports = i.reports;
        }

    Moves-IsWatched : {w w' : Walk} → Moves d q now Others w w' → IsWatched w → IsWatched w'
    Moves-IsWatched done i = i
    Moves-IsWatched (then_move before m) i = Move-IsWatched m (Moves-IsWatched before i)

  -- The walk before its first turn.
  abbrev pub begun : Roster → Walk
  begun r = record { roster = r; index = 0; reports = [] }

  -- Whatever events and samples of other stations come between the turns, attachments,
  -- departures and lack of memory included: a station that a well-formed roster holds at the
  -- start of an interval is in its slot at the end of the walk, evaluated once by the policy
  -- and the clock of the start, and the walk reports of it what that evaluation gives, with the
  -- score of its sample, and nothing more.
  pub Moves-evaluated :
      (r : Roster) (now : ℤ) (k : ℕ) (ctx : Ctx) (w : Walk)
      → IsRoster r
      → get_elem? r.slots k ≡ some (some ctx)
      → Moves d q now (λ mac. mac ≢ ctx.mac) (begun r) w
      → w.index ≡ max_clients
      → (get_elem? w.roster.slots k ≡ some (some (evaluated r.policy now k ctx)))
        × (reports_of ctx.mac w.reports ≡ told r.policy now k ctx)
  unfolding Others
  Moves-evaluated r now k ctx w roster at moves ended =
      let before : false ≡ ltb k 0 = ground arith in
      let start : IsWatched r.policy now k ctx (begun r) = record {
        roster = roster;
        policy_same = refl;
        slot = at ∙ ap (λ b. some (some (if b then evaluated r.policy now k ctx else ctx))) before;
        reports =
            ap (λ b. if◌then◌else◌ {A = List (Excursion × ℕ)} b (told r.policy now k ctx) [])
              before;
      } in
      let i = Moves-IsWatched r.policy now k ctx moves start in
      let bound = get_or-at w.roster.slots k _ i.slot in
      let over : ltb k w.index ≡ true = ground (arith, bound.1, i.roster.capacity, ended) in
      (
        i.slot ∙ ap (λ b. some (some (if b then evaluated r.policy now k ctx else ctx))) over,
        i.reports
            ∙ ap (λ b. if◌then◌else◌ {A = List (Excursion × ℕ)} b (told r.policy now k ctx) [])
                over,
      )
