-- ===== src/Witness/Signals.antt =====
-- Tests of the glitch filter, and of signals and lists of devices on the wire.
use Prim.Native.Nat.{min}
use rose_esp.Prelude.{
  ℕ, ◌+◌, ◌*◌, ◌/◌, ◌≤◌, ◌≡◌, refl, arith, true, false, List, [], ◌∷◌, ◌++◌, map, length,
}
use rose_esp.Prelude.Int.{ℤ, pos}
use rose_esp.Prelude.Result.{ok}
use rose_esp.Struct.{Bytes, pack, encode, unsigned, signed, le_bytes, unpack, fields, decode, of_le}
use rose_esp.Protocol.Events.Loops.{
  read_edges, edge_from_bytes, read_devices, gpio_signal_captured_from_bytes,
}
use rose_esp.Protocol.Events.Loops.Laws.{read_devices_total, read_edges-enough}
use rose_esp.Protocol.Commands.Signals.{CmdGpioSignalTx, signal_bytes, gpio_signal_tx_to_bytes}
use rose_esp.Protocol.Commands.Laws.{
  edge_of, captured_format, gpio_signal_captured_from_bytes_lem, length-gpio_signal_tx_to_bytes,
}
use rose_esp.Client.Resolution.{Edge, merge_loop, reverse_onto, apply_resolution}
use rose_esp.Client.Resolution.Totals.{total, has_wide, apply_resolution-eq, apply_resolution-total}
use rose_esp.Witness.Data.{four_zeros}

abbrev signal : List Edge
signal = (pos 1, pos 30) ∷ (pos 0, pos 2) ∷ (pos 1, pos 40) ∷ []

apply_resolution-eq_example :
    apply_resolution signal (pos 20) ≡ reverse_onto (merge_loop (pos 20) signal [] (pos 0)).0 []
apply_resolution-eq_example = apply_resolution-eq signal (pos 20) (omega arith)

apply_resolution-total_example :
    (has_wide (pos 20) signal ≡ true → total (apply_resolution signal (pos 20)) ≡ total signal)
    × (has_wide (pos 20) signal ≡ false → apply_resolution signal (pos 20) ≡ [])
apply_resolution-total_example = apply_resolution-total signal (pos 20) (omega arith)

abbrev header_bytes : Bytes
header_bytes = 7 ∷ 0 ∷ 5 ∷ 1 ∷ 0 ∷ 9 ∷ 0 ∷ 0 ∷ 0 ∷ 0 ∷ 0 ∷ 0 ∷ 0 ∷ []

abbrev edge_bytes : Bytes
edge_bytes = 1 ∷ 30 ∷ 0 ∷ 0 ∷ 0 ∷ []

header_packed : pack captured_format (pos 7 ∷ pos 5 ∷ pos 1 ∷ pos 9 ∷ []) ≡ ok header_bytes
unfolding pack encode unsigned signed le_bytes
header_packed = refl

edge_packed : signal_bytes ((pos 1, pos 30) ∷ []) ≡ ok edge_bytes
unfolding signal_bytes pack encode unsigned le_bytes
edge_packed = refl

gpio_signal_captured_from_bytes_lem_example :
    gpio_signal_captured_from_bytes (header_bytes ++ (edge_bytes ++ 3 ∷ []))
    ≡ ok (record {
      cmd_id = pos 7;
      gpio = pos 5;
      edge_count = pos 1;
      timestamp_us = pos 9;
      edges = map edge_of ((pos 1, pos 30) ∷ []);
    })
gpio_signal_captured_from_bytes_lem_example =
    gpio_signal_captured_from_bytes_lem (pos 7) (pos 5) (pos 9) ((pos 1, pos 30) ∷ []) (3 ∷ [])
      header_packed edge_packed

abbrev device_bytes : Bytes
device_bytes = 1 ∷ 2 ∷ 3 ∷ 4 ∷ 5 ∷ 6 ∷ 200 ∷ 9 ∷ []

read_devices_total_example :
    (devices : List (Bytes × ℤ)) × (read_devices 3 device_bytes ≡ ok devices)
    × (length devices ≡ min 3 (length device_bytes / 7))
read_devices_total_example = read_devices_total 3 device_bytes

edges_read : read_edges 1 edge_bytes ≡ ok (edge_of (pos 1, pos 30) ∷ [])
unfolding read_edges edge_from_bytes unpack fields decode of_le
edges_read = refl

read_edges-enough_example :
    (length (edge_of (pos 1, pos 30) ∷ []) ≡ 1) × (5 * 1 ≤ length edge_bytes)
read_edges-enough_example = read_edges-enough 1 edge_bytes edges_read

abbrev transmission : CmdGpioSignalTx ℕ
transmission = record {
  gpio = pos 5;
  signal_len = pos 1;
  delay_us = pos 0;
  carrier_hz = pos 38000;
  duty_cycle = 0;
  repeat = pos 1;
  repeat_gap_us = pos 0;
  signal_data = (pos 1, pos 30) ∷ [];
}

abbrev transmission_bytes : Bytes
transmission_bytes =
    5 ∷ 1 ∷ 0 ∷ 0 ∷ 0 ∷ 0 ∷ 0 ∷ 0x70 ∷ 0x94 ∷ 0 ∷ 0 ∷ 0 ∷ 0 ∷ 0 ∷ 0 ∷ 1 ∷ 0 ∷ 0 ∷ 0 ∷ 0 ∷ 0 ∷ 1 ∷ 30
    ∷ 0 ∷ 0 ∷ 0 ∷ []

transmission_written : gpio_signal_tx_to_bytes four_zeros transmission ≡ ok transmission_bytes
unfolding gpio_signal_tx_to_bytes signal_bytes pack encode unsigned le_bytes
transmission_written = refl

length-gpio_signal_tx_to_bytes_example :
    length transmission_bytes ≡ 21 + 5 * length transmission.signal_data
length-gpio_signal_tx_to_bytes_example =
    length-gpio_signal_tx_to_bytes four_zeros transmission (λ x b h. ground arith)
      transmission_written
