-- ===== src/Wire/Range.antt =====
-- What the records mapped from a datagram hold, whatever its bytes.
use wei.Base.{ℕ, zero, suc, ◌^◌, ◌≤◌, ◌<◌, Bool, true, false, List, arith, if◌then◌else◌, take}
use wei.Base.Int.{ℤ, pos, negsuc, to_int32}
use wei.Double.{Double, IsIeee}
use wei.Infer.Engine.{Engine}
use wei.Infer.Engine.Range.{IsMapped, AllInRange, stage_record-AllInRange}
use wei.Wire.{
  Stats, Layout, u32_of, clamp_util, map_record, drop, tlv_of, stage_entries, on_datagram,
}
use wei.Wire.Frame.{guarded, is_whole, entries_of}

u32_of-lt : (a : ℤ) → u32_of a < 2 ^ 32
u32_of-lt (pos n) = omega arith
u32_of-lt (negsuc n) = omega arith

clamp_util-le : (v : ℤ) → clamp_util v ≤ 100
clamp_util-le v = ground arith

-- The record of any entry is within its C types, and its channel utilisation is a percentage.
pub map_record-IsMapped : (s : Stats) → IsMapped (map_record s)
unfolding map_record to_int32
map_record-IsMapped s = record {
  typed = record {
    snr_low = ground (arith, u32_of-lt s.snr);
    snr_high = ground (arith, u32_of-lt s.snr);
    phy = omega arith;
    frames = u32_of-lt s.packets_sent;
    errors = u32_of-lt s.errors_sent;
    util = omega (arith, clamp_util-le s.channel_utilization);
  };
  util = clamp_util-le s.channel_utilization;
}

module _ {D : Type 0} (d : Double D) (laws : IsIeee d) (l : Layout) (clock : ℕ → ℤ) where
  stage_entries-AllInRange :
      (n i : ℕ) (bytes : List ℕ) (eng : Engine D)
      → AllInRange d laws eng.rows
      → AllInRange d laws (stage_entries d l clock n i bytes eng).rows
  unfolding stage_entries
  stage_entries-AllInRange zero i bytes eng w = w
  stage_entries-AllInRange (suc n) i bytes eng w =
      let entry = l.decode (take l.entry_size bytes) in
      stage_entries-AllInRange n (suc i) (drop l.entry_size bytes) _ (
        stage_record-AllInRange d laws eng entry.mac (map_record entry) (clock i)
          (map_record-IsMapped entry) w)

  pub on_datagram-AllInRange :
      (bytes : List ℕ) (eng : Engine D)
      → AllInRange d laws eng.rows
      → AllInRange d laws (on_datagram d l clock bytes eng).rows
  on_datagram-AllInRange bytes eng w =
      rw (guarded d l clock bytes eng) (go (is_whole d l clock bytes))
    where
      go : (b : Bool) → AllInRange d laws (if b then entries_of d l clock bytes eng else eng).rows
      go true = stage_entries-AllInRange _ 0 (tlv_of l bytes).value eng w
      go false = w
