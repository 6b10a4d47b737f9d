-- ===== src/Perfreport/Gate.antt =====
-- The gate of one client over its reporting intervals.
use wei.Base.{
  ℕ, zero, suc, ◌+◌, ◌-◌, ◌≡◌, refl, ap, Bool, true, false, not, List, [], ◌∷◌, arith,
  if◌then◌else◌, ltb,
}
use wei.Infer.Types.{Verdict}
use wei.Perfreport.{ClientState, should_emit, same_verdict, warmup_intervals}

-- One interval whose emit, if the gate admits it, succeeds: the state afterwards and whether there
-- was an emit.
interval : ClientState → Verdict → ClientState × Bool
unfolding should_emit
interval s v =
    let (s', admitted) = should_emit true s v in
    (if admitted then record s' { last_emitted_class = v } else s', admitted)

-- The verdicts that are emitted over a run of intervals.
pub emitted : ClientState → List Verdict → List Verdict
emitted s [] = []
emitted s (v ∷ vs) =
    let (s', admitted) = interval s v in
    let rest = emitted s' vs in if admitted then v ∷ rest else rest

abbrev pub drop : ℕ → List Verdict → List Verdict
drop zero vs = vs
drop (suc n) [] = []
drop (suc n) (v ∷ vs) = drop n vs

-- The verdicts that differ from the one before, the first from `was`.
abbrev pub changes : Verdict → List Verdict → List Verdict
changes was [] = []
changes was (v ∷ vs) = if same_verdict v was then changes was vs else v ∷ changes v vs

-- An interval while the warm-up lasts, and one after it.
interval_warming :
    (s : ClientState) (v : Verdict)
    → ltb s.warmup_ticks_seen warmup_intervals ≡ true
    → interval s v ≡ (record s { warmup_ticks_seen = s.warmup_ticks_seen + 1 }, false)
unfolding interval should_emit
interval_warming s v w = rw w refl

interval_warm :
    (s : ClientState) (v : Verdict)
    → ltb s.warmup_ticks_seen warmup_intervals ≡ false
    → interval s v ≡ (
        if same_verdict v s.last_emitted_class
        then (s, false)
        else (record s { last_emitted_class = v }, true))
unfolding interval should_emit
interval_warm s v w = rw w (go (same_verdict v s.last_emitted_class))
  where
    go :
        (b : Bool)
        → Path
            (ClientState × Bool)
            (if not b then record s { last_emitted_class = v } else s, not b)
            (if b then (s, false) else (record s { last_emitted_class = v }, true))
    go true = refl
    go false = refl

warm-changes :
    (vs : List Verdict) (s : ClientState)
    → ltb s.warmup_ticks_seen warmup_intervals ≡ false
    → emitted s vs ≡ changes s.last_emitted_class vs
unfolding emitted
warm-changes [] s w = refl
warm-changes (v ∷ vs) s w = rw (interval_warm s v w) (
    go (same_verdict v s.last_emitted_class) refl (warm-changes vs s w)
      (warm-changes vs (record s { last_emitted_class = v }) w))
  where
    go :
        (b : Bool)
        → same_verdict v s.last_emitted_class ≡ b
        → emitted s vs ≡ changes s.last_emitted_class vs
        → emitted (record s { last_emitted_class = v }) vs ≡ changes v vs
        → (let r : ClientState × Bool =
              if b then (s, false) else (record s { last_emitted_class = v }, true) in
            if r.1 then v ∷ emitted r.0 vs else emitted r.0 vs)
          ≡ (if b then changes s.last_emitted_class vs else v ∷ changes v vs)
    go true e same other = same
    go false e same other = ap (◌∷◌ v) other

drop-changes :
    (n : ℕ) (vs : List Verdict) (s : ClientState)
    → n ≡ warmup_intervals - s.warmup_ticks_seen
    → emitted s vs ≡ changes s.last_emitted_class (drop n vs)
unfolding emitted
drop-changes zero vs s e = warm-changes vs s (ground (arith, e))
drop-changes (suc n) [] s e = refl
drop-changes (suc n) (v ∷ vs) s e = rw (interval_warming s v (ground (arith, e))) (
    drop-changes n vs (record s { warmup_ticks_seen = s.warmup_ticks_seen + 1 }) (omega (arith, e)))

-- The gate of a client, while the pillar is enabled and every emit succeeds: after the intervals
-- that its warm-up has left, it emits a verdict exactly when it differs from the one before, the
-- first from the verdict that the client's slot starts with.
pub emitted-changes :
    (s : ClientState) (vs : List Verdict)
    → emitted s vs ≡ changes s.last_emitted_class (drop (warmup_intervals - s.warmup_ticks_seen) vs)
emitted-changes s vs = drop-changes _ vs s refl
