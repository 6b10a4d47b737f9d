-- ===== src/Wire.antt =====
-- source/weid_wire.c and include/weid_receiver.h: the datagrams of the link-quality sender, and what
-- they stage into the engine. A datagram is the list of its bytes. `stats_arg_t`, its size and how its
-- bytes are read belong to the sender's header: they are the parameter `Layout`, with the order of the
-- two bytes of a `uint16_t`.
pub mod Frame
pub mod Range
pub mod Messages
pub mod Examples
use wei.Base.{
  ℕ, zero, suc, ◌+◌, ◌-◌, ◌*◌, ◌/◌, ◌%◌, ◌^◌, Bool, true, false, not, List, [], ◌∷◌, if◌then◌else◌,
  ltb, ◌==◌, length, get_or, take, Option, some, none,
}
use wei.Base.Int.{ℤ, pos, negsuc, to_int32, ltb_ℤ, pos_part}
use wei.Base.Mac.{Mac}
use wei.Metric.{Metric, active, idle, ok, version_number}
use wei.Double.{Double}
use wei.Infer.Types.{Policy}
use wei.Infer.Engine.{Engine, create, stage_record}

-- The fields of `stats_arg_t` that are read.
pub record Stats : Type 0 where
  pub mac : Mac
  pub is_active : Bool
  pub snr : ℤ
  pub last_data_uplink_rate : ℤ
  pub packets_sent : ℤ
  pub errors_sent : ℤ
  pub channel_utilization : ℤ

pub record Layout : Type 0 where
  pub entry_size : ℕ
  pub decode : List ℕ → Stats
  pub load16 : ℕ → ℕ → ℕ

-- `(uint32_t)` of an integer.
abbrev pub u32_of : ℤ → ℕ
u32_of (pos n) = n % 2 ^ 32
u32_of (negsuc n) = 2 ^ 32 - 1 - n % 2 ^ 32

-- The clamp of the channel utilisation into 0 to 100.
abbrev pub clamp_util : ℤ → ℕ
clamp_util v = if ltb_ℤ v (pos 0) then 0 else if ltb_ℤ (pos 100) v then 100 else pos_part v

unfoldable pub map_record : Stats → Metric
unfolding to_int32
map_record s = record {
  version = version_number;
  activity_state = if s.is_active then active else idle;
  status = ok;
  link_snr_db = to_int32 (u32_of s.snr);
  phy_rate_kbps = (u32_of s.last_data_uplink_rate * 1000) % 2 ^ 32;
  tx_frames = u32_of s.packets_sent;
  tx_err_frames = u32_of s.errors_sent;
  chan_util_pct = clamp_util s.channel_utilization;
}

-- `weid_tlv_t`: five fields in six bytes, then the value.
pub record Tlv : Type 0 where
  pub type_byte : ℕ
  pub version : ℕ
  pub elem_size : ℕ
  pub len : ℕ
  pub value : List ℕ

abbrev pub wire_version : ℕ
wire_version = 1

abbrev pub periodic_stats : ℕ
periodic_stats = 1

abbrev pub header_size : ℕ
header_size = 6

abbrev pub drop : {A : Type 0} → ℕ → List A → List A
drop zero xs = xs
drop (suc n) [] = []
drop (suc n) (x ∷ xs) = drop n xs

abbrev pub tlv_of : Layout → List ℕ → Tlv
tlv_of l bytes = record {
  type_byte = get_or bytes 0 0;
  version = get_or bytes 1 0;
  elem_size = l.load16 (get_or bytes 2 0) (get_or bytes 3 0);
  len = l.load16 (get_or bytes 4 0) (get_or bytes 5 0);
  value = drop header_size bytes;
}

module _ {D : Type 0} (d : Double D) (l : Layout) (clock : ℕ → ℤ) where
  -- The loop over the entries, the first argument counting those that are left and `i` those before;
  -- the engine reads the clock for each.
  unfoldable pub stage_entries : ℕ → ℕ → List ℕ → Engine D → Engine D
  unfolding map_record
  stage_entries zero i bytes eng = eng
  stage_entries (suc n) i bytes eng =
      let entry = l.decode (take l.entry_size bytes) in
      stage_entries n (suc i) (drop l.entry_size bytes)
        (stage_record d eng entry.mac (map_record entry) (clock i))

  -- `weid_on_datagram`. The guards are in the code's order.
  unfoldable pub on_datagram : List ℕ → Engine D → Engine D
  unfolding stage_entries
  on_datagram bytes eng =
      let tlv = tlv_of l bytes in
      let payload_len = length bytes - header_size in
      if ltb (length bytes) header_size
      then eng
      else if not (tlv.version == wire_version)
      then eng
      else if not (tlv.len == payload_len)
      then eng
      else if not (tlv.type_byte == periodic_stats)
      then eng
      else if not (tlv.elem_size == l.entry_size)
      then eng
      else if not (payload_len % l.entry_size == 0)
      then eng
      else stage_entries (payload_len / l.entry_size) 0 tlv.value eng

-- `weid_wire_default_policy`, with the tick of 5 s.
abbrev pub default_policy : Policy
default_policy = record {
  tput_var_band = pos 25;
  tput_floor_ms = pos 10000;
  latency_score_band = 40;
  latency_sustain_ticks = 3;
  video_degrade_band = 50;
}

-- `weid_ctx_t`; a pointer that is NULL is `none`, and the poll loop is known by its presence.
pub record Context (D : Type 0) : Type 0 where
  pub poll : Bool
  pub engine : Option (Engine D)

-- `weid_wire_init`, with what the allocation of the engine and `wei_poll_create` give, and the context
-- before; the return value is 0 exactly for `true`.
unfoldable pub wire_init : {D : Type 0} → Double D → Bool → Bool → Context D → Context D × Bool
unfolding create
wire_init d alloc bound ctx = elim (create d alloc (some default_policy)) [
  | none ↦ (record ctx { engine = none }, false)
  | some eng ↦
      if bound
      then (record { poll = true; engine = some eng }, true)
      else (record { poll = false; engine = none }, false)
]

unfoldable pub wire_deinit : {D : Type 0} → Context D → Context D
wire_deinit ctx = record { poll = false; engine = none }
