-- ===== src/Life.antt =====
-- source/wei_life.c and include/wei_life.h: the roster of attached stations, and the four detectors
-- that run over the excursion tracker at each interval. The guard that protects the roster and the
-- slot that events are delivered through are left out. What a tick reports is its result, which `report`
-- passes to the sink. A NULL slot is `none`.
pub mod Events
pub mod Ingest
pub mod Reports
pub mod Runs
pub mod Walk
pub mod Sinks
mod Examples
use wei.Base.{
  ℕ, suc, ◌+◌, ◌-◌, ◌%◌, ◌^◌, Bool, true, false, ◌&&◌, Option, none, some, List, [], ◌∷◌,
  if◌then◌else◌, ◌==◌, set, get_or, replicate, ◌++◌,
}
use wei.Base.Int.{ℤ, pos, neg, to_int32, is_zero}
use wei.Base.Mac.{Mac, zero_mac}
use wei.Metric.{Metric}
use wei.Double.{Double}
use wei.Scorer.{Sigmoid, score}
use wei.Slots
use wei.Slots.{Slotted}
use wei.Track
use wei.Track.{Entry, max_clients, zero_entry}
use wei.Infer.Types.{zero_metric}

pub data Event : Type 0 where
  assoc disassoc conn_change : Event

pub data LifeMetric : Type 0 where
  snr loss phy chanutil : LifeMetric

-- `wei_life_policy_t`.
pub record Policy : Type 0 where
  pub snr_floor : ℤ
  pub snr_dwell_ms : ℤ
  pub loss_ceiling : ℤ
  pub loss_dwell_ms : ℤ
  pub phy_floor : ℤ
  pub phy_dwell_ms : ℤ
  pub chanutil_ceiling : ℤ
  pub chanutil_dwell_ms : ℤ

abbrev pub default_policy : Policy
default_policy = record {
  snr_floor = pos 15;
  snr_dwell_ms = pos 15000;
  loss_ceiling = pos 10;
  loss_dwell_ms = pos 15000;
  phy_floor = pos 6000;
  phy_dwell_ms = pos 15000;
  chanutil_ceiling = pos 70;
  chanutil_dwell_ms = pos 15000;
}

-- `struct wei_life_ctx`.
pub record Ctx : Type 0 where
  pub mac : Mac
  pub sample : Metric
  pub snr_track : Entry
  pub loss_track : Entry
  pub phy_track : Entry
  pub chanutil_track : Entry

abbrev pub new_ctx : Mac → Ctx
new_ctx mac = record {
  mac = mac;
  sample = zero_metric;
  snr_track = zero_entry;
  loss_track = zero_entry;
  phy_track = zero_entry;
  chanutil_track = zero_entry;
}

-- `wei_life_excursion_t`.
pub record Excursion : Type 0 where
  pub mac : Mac
  pub metric : LifeMetric
  pub onset_count : ℕ
  pub duration_ms : ℤ

-- `wei_life_roster_t`; `active` is an `unsigned int`.
pub record Roster : Type 0 where
  pub slots : List (Option Ctx)
  pub active : ℕ
  pub policy : Policy

abbrev pub is_taken : Option Ctx → Bool
is_taken none = false
is_taken (some c) = true

abbrev pub mac_of : Option Ctx → Mac
mac_of none = zero_mac
mac_of (some c) = c.mac

abbrev pub stations : Slotted (Option Ctx)
stations = record { in_use = is_taken; key = mac_of }

-- A NULL policy is `none`.
unfoldable pub init : Option Policy → Roster
init none = record { slots = replicate max_clients none; active = 0; policy = default_policy }
init (some policy) = record { slots = replicate max_clients none; active = 0; policy = policy }

abbrev pub slot_of : Roster → Mac → Option ℕ
slot_of roster mac = Slots.find stations roster.slots mac

-- The new context in the first NULL slot, if `calloc` gives it.
abbrev pub attached : Bool → Roster → Mac → Option ℕ → Roster
attached alloc roster mac none = roster
attached alloc roster mac (some i) =
    if alloc
    then record roster {
      slots = set roster.slots i (some (new_ctx mac));
      active = (roster.active + 1) % 2 ^ 32;
    }
    else roster

unfoldable pub attach_station : Bool → Roster → Mac → Roster
attach_station alloc roster mac = elim (slot_of roster mac) [
  | some i ↦ roster
  | none ↦ attached alloc roster mac (Slots.free stations roster.slots)
]

unfoldable pub detach_station : Roster → Mac → Roster
detach_station roster mac = elim (slot_of roster mac) [
  | none ↦ roster
  | some i ↦ record roster {
    slots = set roster.slots i none;
    active = (roster.active + 2 ^ 32 - 1) % 2 ^ 32;
  }
]

-- The connection-change path only looks the station up.
unfoldable pub on_station_event : Bool → Roster → Event → Mac → Roster
unfolding attach_station detach_station
on_station_event alloc roster assoc mac = attach_station alloc roster mac
on_station_event alloc roster disassoc mac = detach_station roster mac
on_station_event alloc roster conn_change mac = roster

-- The context's sample is replaced.
abbrev pub with_sample : Metric → Option Ctx → Option Ctx
with_sample rec none = none
with_sample rec (some ctx) = some (record ctx { sample = rec })

abbrev pub ingested : Roster → Metric → Option ℕ → Roster
ingested roster rec none = roster
ingested roster rec (some i) = record roster {
  slots = set roster.slots i (with_sample rec (get_or roster.slots i none));
}

-- A sample of a station that is not in the roster is dropped.
unfoldable pub ingest_metric : Roster → Mac → Metric → Roster
ingest_metric roster mac rec = ingested roster rec (slot_of roster mac)

-- One detector: the tracker's entry afterwards, and the excursion if there was an onset or an end.
abbrev pub detect : Mac → LifeMetric → Entry → ℤ → ℤ → ℤ → ℤ → Entry × List Excursion
detect mac metric track value now band dwell =
    let (track', rec) = Track.collect (Track.tick track value now band dwell) in
    (
      track',
      if rec.count == 0 && is_zero rec.duration_ms
          then []
          else record {
            mac = mac;
            metric = metric;
            onset_count = rec.count;
            duration_ms = rec.duration_ms;
          }
            ∷ [],
    )

-- The four detectors, in order, on the freshest sample.
unfoldable pub eval_ctx : Policy → ℤ → Ctx → Ctx × List Excursion
unfolding to_int32
eval_ctx policy now ctx =
    let m = ctx.sample in
    let (t1, e1) =
      detect ctx.mac snr ctx.snr_track m.link_snr_db now policy.snr_floor policy.snr_dwell_ms in
    let (t2, e2) =
      detect ctx.mac loss ctx.loss_track (neg (to_int32 m.tx_err_frames)) now
        (neg policy.loss_ceiling) policy.loss_dwell_ms in
    let (t3, e3) =
      detect ctx.mac phy ctx.phy_track (to_int32 m.phy_rate_kbps) now policy.phy_floor
        policy.phy_dwell_ms in
    let (t4, e4) =
      detect ctx.mac chanutil ctx.chanutil_track (neg (pos m.chan_util_pct)) now
        (neg policy.chanutil_ceiling) policy.chanutil_dwell_ms in
    (
      record ctx { snr_track = t1; loss_track = t2; phy_track = t3; chanutil_track = t4 },
      e1 ++ e2 ++ e3 ++ e4,
    )

module _ {D : Type 0} (d : Double D) (q : Sigmoid D) where
  -- What the sink gets of one context: each excursion with the score of the sample.
  abbrev pub with_score : ℕ → List Excursion → List (Excursion × ℕ)
  with_score s [] = []
  with_score s (e ∷ es) = (e, s) ∷ with_score s es

  -- The walk over the roster, with what the sink gets, in order.
  unfoldable pub eval_slots :
      Policy → ℤ → List (Option Ctx) → List (Option Ctx) × List (Excursion × ℕ)
  unfolding eval_ctx
  eval_slots policy now [] = ([], [])
  eval_slots policy now (none ∷ slots) =
      let (slots', out) = eval_slots policy now slots in (none ∷ slots', out)
  eval_slots policy now (some ctx ∷ slots) =
      let (ctx', batch) = eval_ctx policy now ctx in
      let (slots', out) = eval_slots policy now slots in
      (some ctx' ∷ slots', with_score (score d q (some ctx.sample)) batch ++ out)

  -- `wei_life_report` of what is reported, in order, to the sink; NULL is `none`.
  abbrev pub report : {U : Type 0} → Option (Excursion → ℕ → U → U) → List (Excursion × ℕ) → U → U
  report none out user = user
  report (some deliver) [] user = user
  report (some deliver) ((e, s) ∷ out) user = report (some deliver) out (deliver e s user)

  unfoldable pub eval_station : Roster → ℤ → Roster × List (Excursion × ℕ)
  unfolding eval_slots
  eval_station roster now =
      let (slots, out) = eval_slots roster.policy now roster.slots in
      (record roster { slots = slots }, out)
