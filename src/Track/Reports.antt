-- ===== src/Track/Reports.antt =====
-- A ledger that is collected now and then, against one that is never collected.
use wei.Base.{ℕ, ◌+◌, ◌%◌, ◌^◌, ◌<◌, ◌≡◌, ap, refl, sym, ◌∙◌, List, [], ◌∷◌, arith}
use wei.Base.Int.{ℤ, pos, ◌+ℤ◌, ◌-ℤ◌, int_laws}
use wei.Track.{Entry, Record, tick, collect}
use wei.Track.Trace.{Sample, run}

pub data Op : Type 0 where
  observes : Sample → Op
  collects : Op

abbrev pub samples : List Op → List Sample
samples [] = []
samples (observes x ∷ ops) = x ∷ samples ops
samples (collects ∷ ops) = samples ops

abbrev pub durations : List Record → ℤ
durations [] = pos 0
durations (r ∷ rs) = r.duration_ms +ℤ durations rs

abbrev pub counts : List Record → ℕ
counts [] = 0
counts (r ∷ rs) = r.count + counts rs

-- `f` is `e`, had it not handed over `k` milliseconds and `n` onsets.
pub record Ahead (k : ℤ) (n : ℕ) (f e : Entry) : Type 0 where
  pub same_start : f.start_ts ≡ e.start_ts
  pub time : f.accumulated ≡ e.accumulated +ℤ k
  pub onsets : f.count ≡ (e.count + n) % 2 ^ 32

add_swap : (a b c : ℤ) → a +ℤ b +ℤ c ≡ a +ℤ c +ℤ b
add_swap a b c = omega int_laws

zero_add : (a : ℤ) → pos 0 +ℤ a ≡ a
zero_add a = omega int_laws

add-zero : (a : ℤ) → a +ℤ pos 0 ≡ a
add-zero a = omega int_laws

recast : (j k : ℤ) (m n : ℕ) (f e : Entry) → j ≡ k → m ≡ n → Ahead j m f e → Ahead k n f e
recast j k m n f e p q a = rw (← p, ← q) a

module _ (band floor : ℤ) where
  tick-Ahead :
      (k : ℤ) (n : ℕ) (f e : Entry) (x : Sample)
      → Ahead k n f e
      → Ahead k n (tick f x.metric x.at band floor) (tick e x.metric x.at band floor)
  unfolding tick
  tick-Ahead k n f e x a = ground (arith, add_swap e.accumulated k (x.at -ℤ e.start_ts))

  -- The state after the operations, and what the collections returned, in order.
  pub run_ops : Entry → List Op → Entry × List Record
  run_ops e [] = (e, [])
  run_ops e (observes x ∷ ops) = run_ops (tick e x.metric x.at band floor) ops
  run_ops e (collects ∷ ops) =
      let (e', r) = collect e in let (e'', rs) = run_ops e' ops in (e'', r ∷ rs)

  collect-Ahead :
      (k : ℤ) (n : ℕ) (f e : Entry)
      → Ahead k n f e
      → Ahead (e.accumulated +ℤ k) (e.count + n) f (collect e).0
  unfolding collect
  collect-Ahead k n f e a = record {
    same_start = a.same_start;
    time = a.time ∙ sym (zero_add _);
    onsets = omega arith;
  }

  run_ops-Ahead :
      (k : ℤ) (n : ℕ) (f e : Entry) (ops : List Op)
      → Ahead k n f e
      → let (e', rs) = run_ops e ops in
        Ahead (durations rs +ℤ k) (counts rs + n) (run band floor f (samples ops)) e'
  unfolding run_ops run collect
  run_ops-Ahead k n f e [] a = recast _ _ _ _ _ _ (omega int_laws) (omega arith) a
  run_ops-Ahead k n f e (observes x ∷ ops) a = run_ops-Ahead k n _ _ ops (tick-Ahead k n f e x a)
  run_ops-Ahead k n f e (collects ∷ ops) a = recast _ _ _ _ _ _ (omega int_laws) (omega arith) (
      run_ops-Ahead (e.accumulated +ℤ k) (e.count + n) f (collect e).0 ops
        (collect-Ahead k n f e a))

  -- Collections lose nothing: the durations they report, with what the ledger still holds, are what
  -- a ledger that is never collected adds up, and so are the onsets, modulo 2^32; an excursion that
  -- is open at a collection keeps its beginning.
  pub collect_lossless :
      (e : Entry) (ops : List Op)
      → e.count < 2 ^ 32
      → let (e', rs) = run_ops e ops in
        let whole = run band floor e (samples ops) in
        (whole.accumulated ≡ e'.accumulated +ℤ durations rs)
        × (whole.count ≡ (e'.count + counts rs) % 2 ^ 32)
        × (whole.start_ts ≡ e'.start_ts)
  collect_lossless e ops lt =
      let a =
        run_ops-Ahead (pos 0) 0 e e ops
          (record { same_start = refl; time = omega int_laws; onsets = omega arith }) in
      (
        a.time ∙ ap (λ d. (run_ops e ops).0.accumulated +ℤ d) (add-zero _),
        omega arith,
        a.same_start,
      )
