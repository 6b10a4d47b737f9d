-- ===== src/Wire/Examples.antt =====
-- Datagrams of a sender whose entries have eight bytes.
use wei.Base.{
  ℕ, ◌+◌, ◌*◌, ◌/◌, ◌%◌, ◌^◌, ◌<◌, ◌≡◌, refl, true, List, [], ◌∷◌, arith, take, get_or, replicate,
}
use wei.Base.Int.{ℤ, pos}
use wei.Double.Fixed.{fixed}
use wei.Track
use wei.Track.{max_clients}
use wei.Infer.Engine.{Engine, zero_row}
use wei.Wire.{Layout, default_policy, on_datagram}
use wei.Wire.Frame.{frame, stage_all, on_datagram-frame, on_datagram-truncated}

-- The address, the SNR and the activity; little-endian counts.
abbrev pub layout : Layout
layout = record {
  entry_size = 8;
  decode = λ bytes. record {
    mac = take 6 bytes;
    is_active = true;
    snr = pos (get_or bytes 6 0);
    last_data_uplink_rate = pos (get_or bytes 7 0);
    packets_sent = pos 100;
    errors_sent = pos 1;
    channel_utilization = pos (get_or bytes 7 0);
  };
  load16 = λ lo hi. lo + 256 * hi;
}

abbrev low : ℕ → ℕ
low n = n % 256

abbrev high : ℕ → ℕ
high n = n / 256

abbrev clock : ℕ → ℤ
clock i = pos (1000 + i)

abbrev pub engine : Engine ℤ
engine = record {
  rows = replicate max_clients (zero_row fixed);
  count = 0;
  tracker = replicate max_clients Track.zero_entry;
  policy = default_policy;
}

abbrev stations : List (List ℕ)
stations = (2 ∷ 0 ∷ 0 ∷ 0 ∷ 0 ∷ 1 ∷ 30 ∷ 200 ∷ []) ∷ (2 ∷ 0 ∷ 0 ∷ 0 ∷ 0 ∷ 2 ∷ 12 ∷ 50 ∷ []) ∷ []

loads : (n : ℕ) → n < 2 ^ 16 → low n + 256 * high n ≡ n
loads n h = omega arith

on_datagram-frame_example :
    on_datagram fixed layout clock (frame fixed layout clock low high stations) engine
    ≡ stage_all fixed layout clock 0 stations engine
on_datagram-frame_example =
    on_datagram-frame fixed layout clock low high loads stations engine (omega arith) (omega arith)
      (refl, (refl, tt)) (omega arith)

on_datagram-truncated_example :
    on_datagram fixed layout clock (take 15 (frame fixed layout clock low high stations)) engine
    ≡ engine
on_datagram-truncated_example =
    on_datagram-truncated fixed layout clock low high loads stations engine 15 (omega arith)
      (omega arith)
