-- ===== src/Perfreport/Baseline.antt =====
-- What a client's slot remembers, against the reports of the client that the bus has.
use wei.Base.{
  ℕ, ◌≡◌, ◌≢◌, refl, sym, ap, ◌∙◌, ◌⊎◌, false, Option, none, some, zero, suc, replicate, List, [],
  ◌∷◌, arith, Bool-cases, inl, inr,
}
use mathlib.Core.Path.{subst}
use wei.Base.Mac.{Mac, same_mac, same_mac_eq, same_mac_refl}
use wei.Metric.{Metric}
use wei.Slots
use wei.Infer.Types.{Verdict, smooth, degraded, Result}
use wei.Rbus.{BusError}
use wei.Perfreport.{
  ClientState, zero_state, states, VerdictName, smooth_name, verdict_name, same_verdict,
  should_emit, build_json, build_report, Host, Report, Publisher, publish_tick,
}
use wei.Perfreport.Publish.{baseline, outcome, held, held_baseline, publish_tick-Published}
use wei.Perfreport.Events.{made}
use wei.Perfreport.Clients.{Call, sent, after_call, other_call}

-- The verdict of the newest report, SMOOTH before the first.
abbrev pub newest : List VerdictName → VerdictName
newest [] = smooth_name
newest (v ∷ vs) = v

-- No report has the verdict of the one before it, and the first is not SMOOTH.
abbrev pub Alternates : List VerdictName → Type 0
Alternates [] = Unit {0}
Alternates (v ∷ vs) = (v ≢ newest vs) × Alternates vs

-- The client's slot has the verdict of the client's newest report, and its reports alternate.
pub record IsFaithful (m : Mac) (p : Publisher) : Type 0 where
  pub remembered : newest (sent m p.events) ≡ verdict_name (baseline (Slots.lookup states p.tbl m))
  pub alternates : Alternates (sent m p.events)

pub unseen-lookup : (n : ℕ) (m : Mac) → Slots.lookup states (replicate n zero_state) m ≡ none
unfolding wei.Slots.lookup
unseen-lookup zero m = refl
unseen-lookup (suc n) m = unseen-lookup n m

verdict_name-ne : (v w : Verdict) → same_verdict v w ≡ false → verdict_name v ≢ verdict_name w
unfolding verdict_name
verdict_name-ne smooth smooth h = λ e. cc
verdict_name-ne smooth degraded h = λ e. cc
verdict_name-ne degraded smooth h = λ e. cc
verdict_name-ne degraded degraded h = λ e. cc

module _ (host : Host) (mac : Mac) (result : Result) (metrics : Metric) where
  -- A call leaves the events and the remembered verdict, or changes both.
  outcome_told :
      (s : ClientState) (buf : Option ℕ) (events : List Report)
      → let o = outcome host mac result metrics s buf events in
        ((o.events ≡ events) × (o.slot.last_emitted_class ≡ s.last_emitted_class))
        ⊎ ((o.events ≡ made host mac result metrics ∷ events)
            × (o.slot.last_emitted_class ≡ result.verdict)
            × (same_verdict result.verdict s.last_emitted_class ≡ false))
  unfolding should_emit build_json
  outcome_told s buf events = ground arith

  module _ (p : Publisher) where
    abbrev was : ClientState
    was = held host mac result metrics (Slots.lookup states p.tbl mac)

    was_baseline : was.last_emitted_class ≡ baseline (Slots.lookup states p.tbl mac)
    was_baseline = held_baseline host mac result metrics p (Slots.lookup states p.tbl mac)

    sent-made :
        (events : List Report)
        → sent mac (made host mac result metrics ∷ events)
          ≡ verdict_name result.verdict ∷ sent mac events
    unfolding build_report
    sent-made events = rw (same_mac_refl mac) refl

    -- The client's slot and the events after a call that finds or admits the client.
    told-IsFaithful :
        (p' : Publisher) (o : ClientState)
        → IsFaithful mac p
        → Slots.lookup states p'.tbl mac ≡ some o
        → ((p'.events ≡ p.events) × (o.last_emitted_class ≡ was.last_emitted_class))
          ⊎ ((p'.events ≡ made host mac result metrics ∷ p.events)
              × (o.last_emitted_class ≡ result.verdict)
              × (same_verdict result.verdict was.last_emitted_class ≡ false))
        → IsFaithful mac p'
    told-IsFaithful p' o w at t = elim t [
      | inl (quiet, same) ↦
          let names = ap (sent mac) quiet in
          record {
            remembered =
                ap newest names
                ∙ w.remembered
                ∙ ap verdict_name (sym (ap baseline at ∙ same ∙ was_baseline));
            alternates = subst Alternates (sym names) w.alternates;
          }
      | inr (more, now, differs) ↦
          let names = ap (sent mac) more ∙ sent-made p.events in
          let last = w.remembered ∙ ap verdict_name (sym was_baseline) in
          record {
            remembered = ap newest names ∙ ap verdict_name (sym (ap baseline at ∙ now));
            alternates = subst Alternates (sym names) (
              (λ e. verdict_name-ne result.verdict was.last_emitted_class differs (e ∙ last)),
              w.alternates,
            );
          }
    ]

    own-IsFaithful : IsFaithful mac p → IsFaithful mac (publish_tick host p mac result metrics).0
    own-IsFaithful w = elim (publish_tick-Published host mac result metrics p) [
      | inl full ↦ subst (λ (r : Publisher × BusError). IsFaithful mac r.0) (sym full.0) w
      | inr d ↦
          let o = outcome host mac result metrics was p.buf p.events in
          told-IsFaithful (publish_tick host p mac result metrics).0 o.slot w
            (d.slots mac ∙ (rw (same_mac_refl mac) refl))
            (elim (outcome_told was p.buf p.events) [
              | inl (quiet, same) ↦ inl (d.events ∙ quiet, same)
              | inr (more, now, differs) ↦ inr (d.events ∙ more, now, differs)
            ])
    ]

    -- A call, for whichever client, keeps a client's slot and its reports in step, whatever fails.
    pub publish_tick-IsFaithful :
        (m : Mac) → IsFaithful m p → IsFaithful m (publish_tick host p mac result metrics).0
    unfolding after_call
    publish_tick-IsFaithful m w = elim (Bool-cases (same_mac mac m)) [
      | inl mine ↦
          let e = same_mac_eq mac m mine in
          subst (λ (x : Mac). IsFaithful x (publish_tick host p mac result metrics).0) e
            (own-IsFaithful (subst (λ (x : Mac). IsFaithful x p) (sym e) w))
      | inr other ↦
          let c : Call = record { host = host; mac = mac; result = result; metrics = metrics } in
          let kept = other_call m c p other in
          record {
            remembered =
                ap newest kept.1 ∙ w.remembered ∙ ap (λ o. verdict_name (baseline o)) (sym kept.0);
            alternates = subst Alternates (sym kept.1) w.alternates;
          }
    ]
