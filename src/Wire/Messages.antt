-- ===== src/Wire/Messages.antt =====
-- The message types of include/weid_receiver.h, of which the daemon takes one.
use wei.Base.{ℕ, ◌≡◌, ◌≢◌, refl, ap, ◌∙◌, false, List, arith, if◌then◌else◌, get_or}
use wei.Base.Int.{ℤ}
use wei.Double.{Double}
use wei.Infer.Engine.{Engine}
use wei.Wire.{Layout, on_datagram}
use wei.Wire.Frame.{guarded, is_whole, entries_of}

pub data Message : Type 0 where
  periodic_stats disconnect rapid_disconnect caffinity_event start_metrics stop_metrics : Message
  register_sta unregister_sta reinit_metrics set_max_snr set_score_params : Message

abbrev pub type_byte : Message → ℕ
type_byte periodic_stats = 1
type_byte disconnect = 2
type_byte rapid_disconnect = 3
type_byte caffinity_event = 4
type_byte start_metrics = 5
type_byte stop_metrics = 6
type_byte register_sta = 7
type_byte unregister_sta = 8
type_byte reinit_metrics = 9
type_byte set_max_snr = 10
type_byte set_score_params = 11

type_byte-ne : (m : Message) → m ≢ periodic_stats → type_byte m ≢ 1
type_byte-ne periodic_stats ne = absurd (ne refl)
type_byte-ne disconnect ne = omega arith
type_byte-ne rapid_disconnect ne = omega arith
type_byte-ne caffinity_event ne = omega arith
type_byte-ne start_metrics ne = omega arith
type_byte-ne stop_metrics ne = omega arith
type_byte-ne register_sta ne = omega arith
type_byte-ne unregister_sta ne = omega arith
type_byte-ne reinit_metrics ne = omega arith
type_byte-ne set_max_snr ne = omega arith
type_byte-ne set_score_params ne = omega arith

module _ {D : Type 0} (d : Double D) (l : Layout) (clock : ℕ → ℤ) where
  -- A datagram of any message of the sender but the periodic statistics leaves the engine as it is,
  -- whatever else it holds.
  pub on_datagram-other :
      (m : Message) (bytes : List ℕ) (eng : Engine D)
      → m ≢ periodic_stats
      → get_or bytes 0 0 ≡ type_byte m
      → on_datagram d l clock bytes eng ≡ eng
  on_datagram-other m bytes eng ne is_m =
      let other : is_whole d l clock bytes ≡ false = ground (arith, type_byte-ne m ne, is_m) in
      guarded d l clock bytes eng
      ∙ ap (λ b. if b then entries_of d l clock bytes eng else eng) other
