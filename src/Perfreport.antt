-- ===== src/Perfreport.antt =====
-- source/wei_perfreport.c: the report that each scored tick may publish. What the unit calls is a
-- `Host`: the pillar's enable, the bus, the allocator and cJSON's printer. The events that reach the
-- bus are a list, the newest first.
pub mod Gate
pub mod Buffer
pub mod Publish
pub mod Table
pub mod Events
pub mod Clients
pub mod Baseline
pub mod Examples
use wei.Base.{
  ℕ, zero, suc, ◌+◌, ◌*◌, Bool, true, false, not, ◌&&◌, Option, none, some, List, [], ◌∷◌,
  if◌then◌else◌, ltb, leb, get_or, set, replicate,
}
use wei.Base.Int.{ℤ}
use wei.Base.Mac.{Mac, zero_mac}
use wei.Metric.{Metric, State, Status}
use wei.Rbus.{BusError, success, general, is_success}
use wei.Slots.{Slotted, Found, hit, miss, scan}
use wei.Track.{max_clients}
use wei.Infer.Types.{
  Verdict, smooth, degraded, Contributor, none_of, snr, phy, pkt_err, chan_util, Result,
}

-- `wei_perfreport_client_state_t`.
pub record ClientState : Type 0 where
  pub mac : Mac
  pub in_use : Bool
  pub last_emitted_class : Verdict
  pub warmup_ticks_seen : ℕ

abbrev pub zero_state : ClientState
zero_state = record {
  mac = zero_mac;
  in_use = false;
  last_emitted_class = smooth;
  warmup_ticks_seen = 0;
}

abbrev pub states : Slotted ClientState
states = record { in_use = λ s. s.in_use; key = λ s. s.mac }

-- A slot admitted for a client: zeroed, with its address.
abbrev pub added : Mac → ClientState
added mac = record zero_state { mac = mac; in_use = true }

abbrev pub found_state : List ClientState → Mac → Found → List ClientState × Option ℕ
found_state tbl mac (hit i) = (tbl, some i)
found_state tbl mac (miss none) = (tbl, none)
found_state tbl mac (miss (some i)) = (set tbl i (added mac), some i)

-- The table afterwards and the client's index; none when the table is full.
unfoldable pub find_or_add : List ClientState → Mac → List ClientState × Option ℕ
find_or_add tbl mac = found_state tbl mac (scan states tbl mac 0 none)

abbrev pub same_verdict : Verdict → Verdict → Bool
same_verdict smooth smooth = true
same_verdict smooth degraded = false
same_verdict degraded smooth = false
same_verdict degraded degraded = true

abbrev pub warmup_intervals : ℕ
warmup_intervals = 3

-- The gate, with the pillar's enable; only the warm-up count changes.
unfoldable pub should_emit : Bool → ClientState → Verdict → ClientState × Bool
should_emit enabled s current =
    if not enabled
    then (s, false)
    else if ltb s.warmup_ticks_seen warmup_intervals
    then (record s { warmup_ticks_seen = s.warmup_ticks_seen + 1 }, false)
    else (s, not (same_verdict current s.last_emitted_class))

-- The names that a report carries.
pub data VerdictName : Type 0 where
  smooth_name degraded_name : VerdictName

pub data ContributorName : Type 0 where
  none_name snr_name phy_rate_name pkt_err_name chan_util_name : ContributorName

unfoldable pub verdict_name : Verdict → VerdictName
verdict_name smooth = smooth_name
verdict_name degraded = degraded_name

unfoldable pub contributor_name : Contributor → ContributorName
contributor_name none_of = none_name
contributor_name snr = snr_name
contributor_name phy = phy_rate_name
contributor_name pkt_err = pkt_err_name
contributor_name chan_util = chan_util_name

-- The members of the cJSON document, in the order in which they are added.
pub data Member : Type 0 where
  of_client_mac of_report_time of_score of_verdict of_dominant of_snr_db of_phy_rate_kbps : Member
  of_pkt_err_pct of_chan_util_pct of_activity_state of_status : Member

-- What the calls that add the members are given, and the members that the document has: a call that
-- fails is ignored, and its member is missing. `report_time` is what `get_formatted_time` gives.
pub record Report : Type 0 where
  pub client_mac : Mac
  pub report_time : ℕ
  pub score : ℕ
  pub verdict : VerdictName
  pub dominant : ContributorName
  pub snr_db : ℤ
  pub phy_rate_kbps : ℕ
  pub pkt_err_pct : ℕ
  pub chan_util_pct : ℕ
  pub activity_state : State
  pub status : Status
  pub has : Member → Bool

pub record Host : Type 0 where
  -- `weid_rfc_connperf_enabled()`.
  pub enabled : Bool
  -- The handle, the descriptor and its publish function are there.
  pub bus_ready : Bool
  -- `cJSON_CreateObject()` gives a document; `malloc` and `realloc` of a size give memory.
  pub created : Bool
  -- `cJSON_AddStringToObject` and `cJSON_AddNumberToObject` add a member.
  pub adds : Member → Bool
  pub malloc_ok : Bool
  pub realloc_ok : ℕ → Bool
  -- `cJSON_PrintPreallocated` into a buffer of a size.
  pub fits : Report → ℕ → Bool
  pub time : ℕ
  -- The return value of the publish function.
  pub publish : Report → BusError

abbrev pub buf_init : ℕ
buf_init = 512

abbrev pub buf_max : ℕ
buf_max = 2048

-- The next capacity of the buffer.
abbrev pub grown : ℕ → ℕ
grown cap = if ltb buf_max (cap * 2) then buf_max else cap * 2

-- How the printing loop ends: with the document in the buffer, without it, or not in the turns given.
pub data Printing : Type 0 where
  printed refused looping : Printing

abbrev pub is_printed : Printing → Bool
is_printed printed = true
is_printed refused = false
is_printed looping = false

-- The loop from a buffer of a capacity, with as many turns as the first argument says: the buffer's
-- capacity afterwards, and how the loop ends.
unfoldable pub print_from : ℕ → Host → Report → ℕ → ℕ × Printing
print_from zero host doc cap = (cap, looping)
print_from (suc fuel) host doc cap =
    let rest = print_from fuel host doc (grown cap) in
    if host.fits doc cap
    then (cap, printed)
    else if leb buf_max cap
    then (cap, refused)
    else if host.realloc_ok (grown cap)
    then rest
    else (cap, refused)

-- A NULL buffer is `none`. Three turns take 512 to the ceiling of 2048.
unfoldable pub json_serialize : Host → Report → Option ℕ → Option ℕ × Bool
unfolding print_from
json_serialize host doc none =
    if host.malloc_ok
    then (let (cap, how) = print_from 3 host doc buf_init in (some cap, is_printed how))
    else (none, false)
json_serialize host doc (some cap) =
    let (cap', how) = print_from 3 host doc cap in (some cap', is_printed how)

unfoldable pub build_report : Host → Mac → Result → Metric → Report
unfolding verdict_name contributor_name
build_report host mac result metrics = record {
  client_mac = mac;
  report_time = host.time;
  score = result.score;
  verdict = verdict_name result.verdict;
  dominant = contributor_name result.dominant;
  snr_db = metrics.link_snr_db;
  phy_rate_kbps = metrics.phy_rate_kbps;
  pkt_err_pct = result.pkt_err_pct;
  chan_util_pct = metrics.chan_util_pct;
  activity_state = metrics.activity_state;
  status = metrics.status;
  has = host.adds;
}

-- The report, if the document is made and printed, and the buffer afterwards.
unfoldable pub build_json : Host → Mac → Result → Metric → Option ℕ → Option ℕ × Option Report
unfolding json_serialize build_report
build_json host mac result metrics buf =
    if host.created
    then (let doc = build_report host mac result metrics in
        let (buf', done) = json_serialize host doc buf in (buf', if done then some doc else none))
    else (buf, none)

-- The unit's static state, and the events published so far.
pub record Publisher : Type 0 where
  pub tbl : List ClientState
  pub buf : Option ℕ
  pub events : List Report

-- What follows the gate: the report is built, published and, if that succeeds, becomes the client's
-- baseline.
unfoldable pub emit :
    Host → Publisher → ℕ → ClientState → Mac → Result → Metric → Publisher × BusError
unfolding build_json
emit host pub_state i s mac result metrics =
    if not host.bus_ready
    then (pub_state, general)
    else let (buf, doc) = build_json host mac result metrics pub_state.buf in
      elim doc [
        | none ↦ (record pub_state { buf = buf }, general)
        | some report ↦
            if is_success (host.publish report)
            then (
              record pub_state {
                tbl = set pub_state.tbl i (record s { last_emitted_class = result.verdict });
                buf = buf;
                events = report ∷ pub_state.events;
              },
              success,
            )
            else (record pub_state { buf = buf }, host.publish report)
      ]

-- The gate on the client's entry, and the emit that it admits.
unfoldable pub gated : Host → Publisher → ℕ → Mac → Result → Metric → Publisher × BusError
unfolding should_emit emit
gated host pub_state i mac result metrics =
    let (s, admitted) =
      should_emit host.enabled (get_or pub_state.tbl i zero_state) result.verdict in
    let pub_state' = record pub_state { tbl = set pub_state.tbl i s } in
    if admitted then emit host pub_state' i s mac result metrics else (pub_state', success)

abbrev pub publish_at :
    Host → Publisher → Mac → Result → Metric → List ClientState × Option ℕ → Publisher × BusError
publish_at host pub_state mac result metrics (tbl, none) = (pub_state, success)
publish_at host pub_state mac result metrics (tbl, some i) =
    gated host (record pub_state { tbl = tbl }) i mac result metrics

-- `wei_perfreport_publish_tick`, of arguments that are not NULL.
unfoldable pub publish_tick : Host → Publisher → Mac → Result → Metric → Publisher × BusError
unfolding gated find_or_add
publish_tick host pub_state mac result metrics =
    publish_at host pub_state mac result metrics (find_or_add pub_state.tbl mac)
