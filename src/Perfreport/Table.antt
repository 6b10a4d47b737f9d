-- ===== src/Perfreport/Table.antt =====
-- The static state of source/wei_perfreport.c over its calls.
use wei.Base.{
  ℕ, ◌≡◌, sym, ap, ◌∙◌, Option, some, List, arith, get_elem?, get_or-get_elem?, get_elem?-set_self,
  set, length, length-set,
}
use mathlib.Core.Path.{subst}
use wei.Base.Mac.{Mac}
use wei.Metric.{Metric}
use wei.Slots.Distinct.{Distinct, set_same-Distinct, set_fresh-Distinct}
use wei.Slots.Lookup.{scan_cases}
use wei.Infer.Types.{Result}
use wei.Rbus.{BusError}
use wei.Track.{max_clients}
use wei.Perfreport.{
  ClientState, states, zero_state, added, found_state, find_or_add, should_emit, build_json,
  build_report, Host, Report, Publisher, gated, publish_at, publish_tick,
}
use wei.Perfreport.Publish.{outcome, filed, gated-filed, outcome_keeps}
use wei.Perfreport.Buffer.{IsCapacity, json_serialize-IsCapacity}

-- 64 slots with distinct addresses, and a buffer of a size that it can have.
pub record IsPublisher (p : Publisher) : Type 0 where
  pub capacity : length p.tbl ≡ max_clients
  pub distinct : Distinct states p.tbl
  pub buffer : IsCapacity p.buf

module _ (host : Host) (mac : Mac) (result : Result) (metrics : Metric) where
  build_json-IsCapacity :
      (buf : Option ℕ) → IsCapacity buf → IsCapacity (build_json host mac result metrics buf).0
  unfolding build_json
  build_json-IsCapacity buf c =
      ground (arith, json_serialize-IsCapacity host (build_report host mac result metrics) buf c)

  -- A slot that keeps its client and its use.
  abbrev SameClient : ClientState → ClientState → Type 0
  SameClient s t = (t.mac ≡ s.mac) × (t.in_use ≡ s.in_use)

  set-IsPublisher :
      (p : Publisher) (i : ℕ) (s t : ClientState) (buf : Option ℕ) (events : List Report)
      → get_elem? p.tbl i ≡ some s
      → SameClient s t
      → IsCapacity buf
      → IsPublisher p
      → IsPublisher (record { tbl = set p.tbl i t; buf = buf; events = events })
  set-IsPublisher p i s t buf events at same c w = record {
    capacity = length-set p.tbl i t ∙ w.capacity;
    distinct =
        set_same-Distinct states p.tbl i s t at (λ live. (sym same.1 ∙ live, same.0)) w.distinct;
    buffer = c;
  }

  outcome-IsCapacity :
      (s : ClientState) (buf : Option ℕ) (events : List Report)
      → IsCapacity buf
      → IsCapacity (outcome host mac result metrics s buf events).buf
  unfolding should_emit
  outcome-IsCapacity s buf events c = let built = build_json-IsCapacity buf c in ground arith

  gated-IsPublisher :
      (p : Publisher) (i : ℕ) (s : ClientState)
      → get_elem? p.tbl i ≡ some s
      → IsPublisher p
      → IsPublisher (gated host p i mac result metrics).0
  gated-IsPublisher p i s at w =
      let held = get_or-get_elem? p.tbl i s zero_state at in
      let o = outcome host mac result metrics s p.buf p.events in
      subst (λ (r : Publisher × BusError). IsPublisher r.0)
        (sym (
          gated-filed host mac result metrics p.tbl i p.buf p.events
          ∙ ap
              (λ x.
                filed host mac result metrics p.tbl i
                  (outcome host mac result metrics x p.buf p.events))
              held))
        (set-IsPublisher p i s o.slot o.buf o.events at
          (outcome_keeps host mac result metrics s p.buf p.events)
          (outcome-IsCapacity s p.buf p.events w.buffer) w)

  -- A call keeps the 64 slots with distinct addresses, and the buffer's size.
  pub publish_tick-IsPublisher :
      (p : Publisher) → IsPublisher p → IsPublisher (publish_tick host p mac result metrics).0
  unfolding publish_tick find_or_add
  publish_tick-IsPublisher p w =
      scan_cases states p.tbl mac
        (λ f. IsPublisher (publish_at host p mac result metrics (found_state p.tbl mac f)).0)
        (λ i s k. gated-IsPublisher p i s k.at w)
        (λ i s f.
          gated-IsPublisher (record p { tbl = set p.tbl i (added mac) }) i (added mac)
            (get_elem?-set_self p.tbl i (added mac) f.bound)
            (record {
              capacity = length-set p.tbl i (added mac) ∙ w.capacity;
              distinct = set_fresh-Distinct states p.tbl i (added mac) f.absent w.distinct;
              buffer = w.buffer;
            }))
        (λ f. w)
