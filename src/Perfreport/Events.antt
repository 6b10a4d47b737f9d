-- ===== src/Perfreport/Events.antt =====
-- What a call of `wei_perfreport_publish_tick` adds to the events on the bus.
use wei.Base.{ℕ, ◌≡◌, ap, ◌∙◌, ◌⊎◌, inl, inr, Option, List, ◌∷◌, arith}
use wei.Base.Mac.{Mac}
use wei.Metric.{Metric}
use wei.Slots
use wei.Infer.Types.{Result}
use wei.Rbus.{BusError}
use wei.Perfreport.{
  ClientState, states, should_emit, build_json, build_report, Host, Report, Publisher, publish_tick,
}
use wei.Perfreport.Publish.{outcome, held, publish_tick-Published}

module _ (host : Host) (mac : Mac) (result : Result) (metrics : Metric) where
  abbrev pub made : Report
  made = build_report host mac result metrics

  -- The events stay, or gain the client's report.
  abbrev pub IsAdded : List Report → List Report → Type 0
  IsAdded old new = (new ≡ old) ⊎ (new ≡ made ∷ old)

  outcome-IsAdded :
      (s : ClientState) (buf : Option ℕ) (events : List Report)
      → IsAdded events (outcome host mac result metrics s buf events).events
  unfolding should_emit build_json
  outcome-IsAdded s buf events = ground arith

  pub publish_tick-IsAdded :
      (p : Publisher) → IsAdded p.events (publish_tick host p mac result metrics).0.events
  publish_tick-IsAdded p = elim (publish_tick-Published host mac result metrics p) [
    | inl full ↦ inl (ap (λ (r : Publisher × BusError). r.0.events) full.0)
    | inr d ↦
        elim (outcome-IsAdded (held host mac result metrics (Slots.lookup states p.tbl mac)) p.buf
          p.events) [ inl same ↦ inl (d.events ∙ same) | inr more ↦ inr (d.events ∙ more) ]
  ]
