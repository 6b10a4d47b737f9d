-- ===== src/Perfreport/Clients.antt =====
-- What one client's reports are while the calls of source/wei_perfreport.c for all clients interleave.
use wei.Base.{
  ℕ, zero, suc, ◌+◌, ◌-◌, ◌≤◌, ◌≡◌, refl, sym, ap, ◌∙◌, ◌⊎◌, inl, inr, Bool, true, false, not, ◌&&◌,
  Option, some, List, [], ◌∷◌, ◌++◌, arith, if◌then◌else◌, ltb, Bool-cases,
}
use mathlib.Core.Path.{subst}
use wei.Base.Mac.{Mac, same_mac, same_mac_eq, same_mac_iff}
use wei.Metric.{Metric}
use wei.Slots
use wei.Infer.Types.{Verdict, Result}
use wei.Rbus.{BusError, is_success}
use wei.Perfreport.{
  ClientState, states, VerdictName, verdict_name, same_verdict, warmup_intervals, should_emit,
  build_json, build_report, buf_max, Host, Report, Publisher, publish_tick,
}
use wei.Perfreport.Buffer.{IsCapacity, json_serialize-fits}
use wei.Perfreport.Table.{IsPublisher, publish_tick-IsPublisher}
use wei.Perfreport.Publish.{outcome, held, publish_tick-Published}
use wei.Perfreport.Events.{IsAdded, publish_tick-IsAdded}

-- One call of `wei_perfreport_publish_tick`, with what it meets.
pub record Call : Type 0 where
  pub host : Host
  pub mac : Mac
  pub result : Result
  pub metrics : Metric

-- An interval of one client: with the pillar disabled, with a verdict that cannot be delivered, and
-- with one that can.
pub data Interval : Type 0 where
  off : Interval
  blocked deliverable : Verdict → Interval

-- The verdicts that a client's intervals publish, from the warm-up intervals that are left and the
-- verdict that was published last.
unfoldable pub published : ℕ → Verdict → List Interval → List Verdict
published left was [] = []
published left was (off ∷ is) = published left was is
published (suc left) was (blocked v ∷ is) = published left was is
published (suc left) was (deliverable v ∷ is) = published left was is
published zero was (blocked v ∷ is) = published zero was is
published zero was (deliverable v ∷ is) =
    let quiet = published zero was is in
    let told = v ∷ published zero v is in if same_verdict v was then quiet else told

abbrev pub report_of : Call → Report
report_of c = build_report c.host c.mac c.result c.metrics

-- The bus is ready, the document is created, fits the largest buffer, and is taken by the bus.
abbrev pub is_deliverable : Call → Bool
is_deliverable c =
    c.host.bus_ready
    && c.host.created
    && c.host.fits (report_of c) buf_max
    && is_success (c.host.publish (report_of c))

abbrev pub interval_of : Call → Interval
interval_of c =
    if not c.host.enabled
    then off
    else if is_deliverable c
    then deliverable c.result.verdict
    else blocked c.result.verdict

-- Memory is there, and a document that fits a buffer fits every larger one.
pub record IsAllocating (host : Host) : Type 0 where
  pub malloc_ok : host.malloc_ok ≡ true
  pub realloc_ok : (n : ℕ) → host.realloc_ok n ≡ true
  pub fits_more : (doc : Report) (m n : ℕ) → m ≤ n → host.fits doc m ≡ true → host.fits doc n ≡ true

abbrev pub AllAllocating : List Call → Type 0
AllAllocating [] = Unit {0}
AllAllocating (c ∷ cs) = IsAllocating c.host × AllAllocating cs

-- The gate's step on a client's slot, with the verdict that it publishes, if any.
gate_step : ClientState → Interval → ClientState × List Verdict
gate_step s off = (s, [])
gate_step s (blocked v) =
    if ltb s.warmup_ticks_seen warmup_intervals
    then (record s { warmup_ticks_seen = s.warmup_ticks_seen + 1 }, [])
    else (s, [])
gate_step s (deliverable v) =
    if ltb s.warmup_ticks_seen warmup_intervals
    then (record s { warmup_ticks_seen = s.warmup_ticks_seen + 1 }, [])
    else if same_verdict v s.last_emitted_class
    then (s, [])
    else (record s { last_emitted_class = v }, v ∷ [])

published_nil : (left : ℕ) (was : Verdict) → published left was [] ≡ []
unfolding published
published_nil zero was = refl
published_nil (suc left) was = refl

published-gate_step :
    (s : ClientState) (i : Interval) (is : List Interval)
    → published (warmup_intervals - s.warmup_ticks_seen) s.last_emitted_class (i ∷ is) ≡ (
        let (s', told) = gate_step s i in
        told ++ published (warmup_intervals - s'.warmup_ticks_seen) s'.last_emitted_class is)
unfolding published gate_step
published-gate_step s off is = ground arith
published-gate_step s (blocked v) is = ground arith
published-gate_step s (deliverable v) is = ground arith

module _ (c : Call) where
  -- The events stay, or gain the report, as the step says.
  abbrev Told : List Verdict → List Report → List Report → Type 0
  Told told old new =
      ((told ≡ []) × (new ≡ old)) ⊎ ((told ≡ c.result.verdict ∷ []) × (new ≡ report_of c ∷ old))

  outcome-gate_step :
      (s : ClientState) (buf : Option ℕ) (events : List Report)
      → IsAllocating c.host
      → IsCapacity buf
      → let o = outcome c.host c.mac c.result c.metrics s buf events in
        (o.slot ≡ (gate_step s (interval_of c)).0)
        × Told (gate_step s (interval_of c)).1 events o.events
  unfolding should_emit build_json gate_step
  outcome-gate_step s buf events a cap =
      let prints =
        json_serialize-fits c.host (report_of c) buf a.malloc_ok a.realloc_ok
          (a.fits_more (report_of c)) cap in
      (ground (arith, prints), ground (arith, prints))

unfoldable pub run_calls : List Call → Publisher → Publisher
run_calls [] p = p
run_calls (c ∷ cs) p = run_calls cs (publish_tick c.host p c.mac c.result c.metrics).0

module _ (mac : Mac) where
  -- The client's intervals among the calls, and its verdicts among the events.
  abbrev pub intervals : List Call → List Interval
  intervals [] = []
  intervals (c ∷ cs) = if same_mac c.mac mac then interval_of c ∷ intervals cs else intervals cs

  abbrev pub sent : List Report → List VerdictName
  sent [] = []
  sent (r ∷ rs) = if same_mac r.client_mac mac then r.verdict ∷ sent rs else sent rs

  -- The events after some more verdicts, the newest first.
  abbrev pub onto : List VerdictName → List Verdict → List VerdictName
  onto names [] = names
  onto names (v ∷ vs) = onto (verdict_name v ∷ names) vs

  onto-append :
      (names : List VerdictName) (xs ys : List Verdict)
      → onto names (xs ++ ys) ≡ onto (onto names xs) ys
  onto-append names [] ys = refl
  onto-append names (x ∷ xs) ys = onto-append (verdict_name x ∷ names) xs ys

  module _ (c : Call) where
    unfoldable pub after_call : Publisher → Publisher
    after_call p = (publish_tick c.host p c.mac c.result c.metrics).0

    sent_own :
        (told : List Verdict) (old new : List Report)
        → same_mac c.mac mac ≡ true
        → Told c told old new
        → sent new ≡ onto (sent old) told
    unfolding build_report
    sent_own told old new own t = elim t [
      | inl (quiet, same) ↦ ap sent same ∙ ap (onto (sent old)) (sym quiet)
      | inr (loud, more) ↦ ap sent more ∙ (rw own (ap (onto (sent old)) (sym loud)))
    ]

    sent_other :
        (old new : List Report)
        → same_mac c.mac mac ≡ false
        → IsAdded c.host c.mac c.result c.metrics old new
        → sent new ≡ sent old
    unfolding build_report
    sent_other old new other t = elim t [
      | inl same ↦ ap sent same
      | inr more ↦ ap sent more ∙ (rw other refl)
    ]

    -- A call for another client leaves this one and its events alone.
    pub other_call :
        (p : Publisher)
        → same_mac c.mac mac ≡ false
        → (Slots.lookup states (after_call p).tbl mac ≡ Slots.lookup states p.tbl mac)
          × (sent (after_call p).events ≡ sent p.events)
    unfolding after_call
    other_call p other = (
      elim (publish_tick-Published c.host c.mac c.result c.metrics p) [
        | inl full ↦ ap (λ (r : Publisher × BusError). Slots.lookup states r.0.tbl mac) full.0
        | inr d ↦ d.slots mac ∙ (rw other refl)
      ],
      sent_other p.events _ other (publish_tick-IsAdded c.host c.mac c.result c.metrics p),
    )

    -- A call for this client is a step of its gate.
    own_call :
        (p : Publisher) (s : ClientState)
        → c.mac ≡ mac
        → IsAllocating c.host
        → IsPublisher p
        → Slots.lookup states p.tbl mac ≡ some s
        → let (s', told) = gate_step s (interval_of c) in
          (Slots.lookup states (after_call p).tbl mac ≡ some s')
          × (sent (after_call p).events ≡ onto (sent p.events) told)
    unfolding after_call
    own_call p s own a w known =
        let at_own = subst (λ (m : Mac). Slots.lookup states p.tbl m ≡ some s) (sym own) known in
        let mine : same_mac c.mac mac ≡ true = (same_mac_iff c.mac mac).1 own in
        let step = outcome-gate_step c s p.buf p.events a w.buffer in
        let o = λ (x : ClientState). outcome c.host c.mac c.result c.metrics x p.buf p.events in
        let start = ap (held c.host c.mac c.result c.metrics) at_own in
        elim (publish_tick-Published c.host c.mac c.result c.metrics p) [
          | inl full ↦ absurd (ground (arith, full.1, at_own))
          | inr d ↦ (
            d.slots mac
                ∙ (rw mine (ap (λ (x : ClientState). some (o x).slot) start ∙ ap some step.0)),
            ap sent (d.events ∙ ap (λ (x : ClientState). (o x).events) start)
                ∙ sent_own (gate_step s (interval_of c)).1 p.events (o s).events mine step.1,
          )
        ]

  -- While memory is there and a larger buffer takes every document that a smaller one takes,
  -- and from a well-formed table that has the client: whatever the calls for other clients
  -- between, and whichever calls find the pillar disabled, the bus not ready or the report
  -- refused, the reports of the client on the bus are those that its own intervals publish.
  -- After the enabled intervals that its warm-up has left, these are the verdicts of its
  -- enabled intervals that can be delivered and differ from the one published before, each once
  -- and in order.
  pub run_calls-published :
      (cs : List Call) (p : Publisher) (s : ClientState)
      → AllAllocating cs
      → IsPublisher p
      → Slots.lookup states p.tbl mac ≡ some s
      → sent (run_calls cs p).events
        ≡ onto
            (sent p.events)
            (published (warmup_intervals - s.warmup_ticks_seen) s.last_emitted_class (intervals cs))
  unfolding run_calls after_call
  run_calls-published [] p s a w known =
      ap (onto (sent p.events))
        (sym (published_nil (warmup_intervals - s.warmup_ticks_seen) s.last_emitted_class))
  run_calls-published (c ∷ cs) p s a w known =
      let w' = publish_tick-IsPublisher c.host c.mac c.result c.metrics p w in
      elim (Bool-cases (same_mac c.mac mac)) [
        | inl mine ↦
            let step = own_call c p s (same_mac_eq c.mac mac mine) a.0 w known in
            let (s', told) = gate_step s (interval_of c) in
            let rest = run_calls-published cs (after_call c p) s' a.1 w' step.0 in
            rw mine (
              rest
              ∙ ap
                  (λ names. onto names (
                    published (warmup_intervals - s'.warmup_ticks_seen) s'.last_emitted_class
                      (intervals cs)))
                  step.1
              ∙ sym (onto-append (sent p.events) told _)
              ∙ ap (onto (sent p.events))
                  (sym (published-gate_step s (interval_of c) (intervals cs))))
        | inr other ↦
            let step = other_call c p other in
            let rest = run_calls-published cs (after_call c p) s a.1 w' (step.0 ∙ known) in
            rw other (
              rest
              ∙ ap
                  (λ names. onto names (
                    published (warmup_intervals - s.warmup_ticks_seen) s.last_emitted_class
                      (intervals cs)))
                  step.1)
      ]
