-- ===== src/Perfreport/Publish.antt =====
-- What `wei_perfreport_publish_tick` does to the clients' slots and to the bus.
use wei.Base.{
  ℕ, zero, suc, ◌≡◌, refl, sym, ap, ◌∙◌, ◌⊎◌, inl, inr, Bool, true, false, not, Option, none, some,
  List, [], ◌∷◌, arith, if◌then◌else◌, get_or, get_or-get_elem?, get_elem?-set_self, set, length,
}
use mathlib.Core.Path.{subst}
use wei.Base.Mac.{Mac, same_mac, same_mac_eq}
use wei.Metric.{Metric}
use wei.Slots
use wei.Slots.Lookup.{scan_cases, Known, Fresh, lookup-Known, lookup-Fresh}
use wei.Infer.Types.{Verdict, smooth, Result}
use wei.Rbus.{BusError, success, general, is_success}
use wei.Perfreport.{
  ClientState, states, zero_state, added, found_state, find_or_add, should_emit, build_json, Host,
  Report, Publisher, emit, gated, publish_at, publish_tick,
}

-- The slot of the client and the events after the gate and the emit.
pub record Outcome : Type 0 where
  pub slot : ClientState
  pub buf : Option ℕ
  pub events : List Report
  pub rc : BusError

set-set : {A : Type 0} (xs : List A) (i : ℕ) (a b : A) → set (set xs i a) i b ≡ set xs i b
set-set [] i a b = refl
set-set (x ∷ xs) zero a b = refl
set-set (x ∷ xs) (suc i) a b = ap (◌∷◌ x) (set-set xs i a b)

-- The verdict that a client's next one is compared with.
abbrev pub baseline : Option ClientState → Verdict
baseline none = smooth
baseline (some s) = s.last_emitted_class

module _ (host : Host) (mac : Mac) (result : Result) (metrics : Metric) where
  -- The emit that is admitted, from the client's slot, the buffer and the events.
  abbrev pub emit_outcome : ClientState → Option ℕ → List Report → Outcome
  emit_outcome s buf events =
      if not host.bus_ready
      then record { slot = s; buf = buf; events = events; rc = general }
      else let (buf', doc) = build_json host mac result metrics buf in
        elim doc [
          | none ↦ record { slot = s; buf = buf'; events = events; rc = general }
          | some report ↦
              if is_success (host.publish report)
              then record {
                slot = record s { last_emitted_class = result.verdict };
                buf = buf';
                events = report ∷ events;
                rc = success;
              }
              else record { slot = s; buf = buf'; events = events; rc = host.publish report }
        ]

  abbrev pub outcome : ClientState → Option ℕ → List Report → Outcome
  outcome s buf events =
      let (s', admitted) = should_emit host.enabled s result.verdict in
      if admitted
      then emit_outcome s' buf events
      else record { slot = s'; buf = buf; events = events; rc = success }

  abbrev pub filed : List ClientState → ℕ → Outcome → Publisher × BusError
  filed tbl i o = (record { tbl = set tbl i o.slot; buf = o.buf; events = o.events }, o.rc)

  emit-filed :
      (tbl : List ClientState) (i : ℕ) (s : ClientState) (buf : Option ℕ) (events : List Report)
      → emit host (record { tbl = set tbl i s; buf = buf; events = events }) i s mac result metrics
        ≡ filed tbl i (emit_outcome s buf events)
  unfolding emit
  emit-filed tbl i s buf events =
      ground (arith, set-set tbl i s (record s { last_emitted_class = result.verdict }))

  pub gated-filed :
      (tbl : List ClientState) (i : ℕ) (buf : Option ℕ) (events : List Report)
      → gated host (record { tbl = tbl; buf = buf; events = events }) i mac result metrics
        ≡ filed tbl i (outcome (get_or tbl i zero_state) buf events)
  unfolding gated
  gated-filed tbl i buf events =
      go (should_emit host.enabled (get_or tbl i zero_state) result.verdict)
    where
      go :
          (g : ClientState × Bool)
          → (if g.1
              then emit host
                  (record { tbl = set tbl i g.0; buf = buf; events = events })
                  i
                  g.0
                  mac
                  result
                  metrics
              else (record { tbl = set tbl i g.0; buf = buf; events = events }, success))
            ≡ filed tbl i (
                if g.1
                then emit_outcome g.0 buf events
                else record { slot = g.0; buf = buf; events = events; rc = success })
      go (s', true) = emit-filed tbl i s' buf events
      go (s', false) = refl

  pub outcome_keeps :
      (s : ClientState) (buf : Option ℕ) (events : List Report)
      → ((outcome s buf events).slot.mac ≡ s.mac) × ((outcome s buf events).slot.in_use ≡ s.in_use)
  unfolding should_emit
  outcome_keeps s buf events = ground arith

  -- The slot that the client starts or goes on with.
  abbrev pub held : Option ClientState → ClientState
  held none = added mac
  held (some s) = s

  module _ (p : Publisher) where
    abbrev pub client_outcome : Outcome
    client_outcome = outcome (held (Slots.lookup states p.tbl mac)) p.buf p.events

    -- How the slots, the bus and the return value stand after a call that finds or admits the client.
    pub record Published (r : Publisher × BusError) : Type 0 where
      pub slots :
          (m : Mac)
          → Slots.lookup states r.0.tbl m
            ≡ (if same_mac mac m then some client_outcome.slot else Slots.lookup states p.tbl m)
      pub events : r.0.events ≡ client_outcome.events
      pub rc : r.1 ≡ client_outcome.rc

    slot_mac : client_outcome.slot.mac ≡ (held (Slots.lookup states p.tbl mac)).mac
    slot_mac = (outcome_keeps (held (Slots.lookup states p.tbl mac)) p.buf p.events).0

    slot_in_use : client_outcome.slot.in_use ≡ (held (Slots.lookup states p.tbl mac)).in_use
    slot_in_use = (outcome_keeps (held (Slots.lookup states p.tbl mac)) p.buf p.events).1

    -- The client's slot is written where the scan has found it or a place for it.
    Known-Published :
        (i : ℕ) (s : ClientState)
        → Known states p.tbl mac i s
        → Published (gated host p i mac result metrics)
    Known-Published i s k =
        subst Published
          (sym (
            gated-filed p.tbl i p.buf p.events
            ∙ ap (λ x. filed p.tbl i (outcome x p.buf p.events))
                (get_or-get_elem? p.tbl i s zero_state k.at ∙ (rw k.held refl))))
          known
      where
        known : Published (filed p.tbl i client_outcome)
        known = record {
          slots = λ m.
              lookup-Known states p.tbl mac i s client_outcome.slot m k
                (slot_mac ∙ (rw k.held k.same)) (slot_in_use ∙ (rw k.held k.live));
          events = refl;
          rc = refl;
        }

    Fresh-Published :
        (i : ℕ) (s : ClientState)
        → Fresh states p.tbl mac i s
        → Published (gated host (record p { tbl = set p.tbl i (added mac) }) i mac result metrics)
    Fresh-Published i s f =
        subst Published
          (sym (
            gated-filed (set p.tbl i (added mac)) i p.buf p.events
            ∙ ap (λ x. filed (set p.tbl i (added mac)) i (outcome x p.buf p.events))
                (get_or-get_elem? (set p.tbl i (added mac)) i (added mac) zero_state
                    (get_elem?-set_self p.tbl i (added mac) f.bound)
                  ∙ (rw f.missing refl))
            ∙ ap
                (λ t. (
                  record { tbl = t; buf = client_outcome.buf; events = client_outcome.events },
                  client_outcome.rc,
                ))
                (set-set p.tbl i (added mac) client_outcome.slot)))
          fresh
      where
        fresh : Published (filed p.tbl i client_outcome)
        fresh = record {
          slots = λ m.
              lookup-Fresh states p.tbl mac i s client_outcome.slot m f
                (slot_mac ∙ (rw f.missing refl)) (slot_in_use ∙ (rw f.missing refl));
          events = refl;
          rc = refl;
        }

    -- `wei_perfreport_publish_tick` returns success and does nothing if the client is unknown and all
    -- slots are in use. Otherwise the client's own slot, the bus and the return value become what the
    -- interval gives from that slot, zeroed if the client had none, from the shared buffer as earlier
    -- reports have left it and from the bus; and no other client's slot changes.
    pub publish_tick-Published :
        ((publish_tick host p mac result metrics ≡ (p, success))
          × (Slots.lookup states p.tbl mac ≡ none)
          × (Slots.free states p.tbl ≡ none))
        ⊎ Published (publish_tick host p mac result metrics)
    unfolding publish_tick find_or_add
    publish_tick-Published =
        scan_cases states p.tbl mac
          (λ f.
            ((publish_at host p mac result metrics (found_state p.tbl mac f) ≡ (p, success))
              × (Slots.lookup states p.tbl mac ≡ none)
              × (Slots.free states p.tbl ≡ none))
            ⊎ Published (publish_at host p mac result metrics (found_state p.tbl mac f)))
          (λ i s k. inr (Known-Published i s k)) (λ i s f. inr (Fresh-Published i s f))
          (λ f. inl (refl, f.missing, f.none_free))

    outcome_baseline :
        (s : ClientState) (buf : Option ℕ) (events : List Report)
        → length (outcome s buf events).events ≡ length events
        → (outcome s buf events).slot.last_emitted_class ≡ s.last_emitted_class
    unfolding should_emit
    outcome_baseline s buf events quiet = ground arith

    pub held_baseline : (o : Option ClientState) → (held o).last_emitted_class ≡ baseline o
    held_baseline none = refl
    held_baseline (some s) = refl

    Published-baseline :
        (r : Publisher × BusError)
        → Published r
        → length r.0.events ≡ length p.events
        → (m : Mac)
        → baseline (Slots.lookup states r.0.tbl m) ≡ baseline (Slots.lookup states p.tbl m)
    Published-baseline r d quiet m =
        ap baseline (d.slots m) ∙ go (same_mac mac m) (same_mac_eq mac m)
      where
        slot_same :
            client_outcome.slot.last_emitted_class ≡ baseline (Slots.lookup states p.tbl mac)
        slot_same =
            outcome_baseline (held (Slots.lookup states p.tbl mac)) p.buf p.events
              (ap length (sym d.events) ∙ quiet)
            ∙ held_baseline (Slots.lookup states p.tbl mac)

        go :
            (b : Bool)
            → (b ≡ true → mac ≡ m)
            → baseline (if b then some client_outcome.slot else Slots.lookup states p.tbl m)
              ≡ baseline (Slots.lookup states p.tbl m)
        go true same = slot_same ∙ (rw (same refl) refl)
        go false same = refl

    -- A call that publishes nothing leaves every client's baseline as it is, so that the client's next
    -- interval tries again: when the gate holds the report back, when the bus is not ready, when
    -- the document cannot be built, and when the publish function fails.
    pub publish_tick-retry :
        length (publish_tick host p mac result metrics).0.events ≡ length p.events
        → (m : Mac)
        → baseline (Slots.lookup states (publish_tick host p mac result metrics).0.tbl m)
          ≡ baseline (Slots.lookup states p.tbl m)
    publish_tick-retry quiet m = elim publish_tick-Published [
      | inl full ↦
          ap (λ (r : Publisher × BusError). baseline (Slots.lookup states r.0.tbl m)) full.0
      | inr d ↦ Published-baseline (publish_tick host p mac result metrics) d quiet m
    ]
