-- ===== src/Protocol/Events/Parse/Opcode.antt =====
-- The class of a parsed event is the one of its opcode.
use Prim.Native.String.{String}
use rose_esp.Prelude.{
  ℕ, ◌≡◌, refl, Option, none, some, [], ◌∷◌, ◌==◌, ==_iff, if◌then◌else◌, ap, sym, Bool-cases, inl,
  inr,
}
use rose_esp.Prelude.Result.{Result, ok, err}
use mathlib.Core.Path.{subst}
use rose_esp.Struct.{Bytes}
use rose_esp.Protocol.Frame.{MessageFrame}
use rose_esp.Protocol.Opcodes.{
  event_cmd_ack, event_gpio_value, event_gpio_edge, event_adc_value, event_gpio_signal_captured,
  event_uart_rx, event_thread_response, event_sync_response, event_port_status,
  event_ble_pairing_enabled, event_ble_pairing_disabled, event_ble_in_range_list,
  event_ble_device_in_range, event_ble_device_out_of_range, event_ble_rssi, event_heartbeat,
  event_uart_status, event_gpio_status, event_ble_status, event_error,
}
use rose_esp.Protocol.Events.{
  Event, cmd_ack, gpio_value, gpio_edge, adc_value, gpio_signal_captured, uart_rx, thread_response,
  sync_response, port_status, ble_pairing_enabled, ble_pairing_disabled, ble_in_range_list,
  ble_device_in_range, ble_device_out_of_range, ble_rssi, heartbeat, uart_status, gpio_status,
  ble_status, error,
}
use rose_esp.Protocol.Events.Parse.{caught, parse_opcode, parse_payload, parse_event}

-- The opcode that announces an object of a class.
abbrev pub opcode_of : Event → ℕ
opcode_of (cmd_ack _) = event_cmd_ack
opcode_of (gpio_value _) = event_gpio_value
opcode_of (gpio_edge _) = event_gpio_edge
opcode_of (adc_value _) = event_adc_value
opcode_of (gpio_signal_captured _) = event_gpio_signal_captured
opcode_of (uart_rx _) = event_uart_rx
opcode_of (thread_response _) = event_thread_response
opcode_of (sync_response _) = event_sync_response
opcode_of (port_status _) = event_port_status
opcode_of (ble_pairing_enabled _) = event_ble_pairing_enabled
opcode_of (ble_pairing_disabled _) = event_ble_pairing_disabled
opcode_of (ble_in_range_list _) = event_ble_in_range_list
opcode_of (ble_device_in_range _) = event_ble_device_in_range
opcode_of (ble_device_out_of_range _) = event_ble_device_out_of_range
opcode_of (ble_rssi _) = event_ble_rssi
opcode_of (heartbeat _) = event_heartbeat
opcode_of (uart_status _) = event_uart_status
opcode_of (gpio_status _) = event_gpio_status
opcode_of (ble_status _) = event_ble_status
opcode_of (error _) = event_error

-- The event, if there is one, is of the opcode's class.
data Announced (opcode : ℕ) : Option Event → Type 0 where
  unparsed : Announced opcode none
  parsed : (e : Event) → opcode_of e ≡ opcode → Announced opcode (some e)

Announced-some : {opcode : ℕ} {e : Event} → Announced opcode (some e) → opcode_of e ≡ opcode
Announced-some (parsed e h) = h

caught-Announced :
    {A : Type 0} (opcode : ℕ) (make : A → Event) (r : Result A)
    → ((a : A) → opcode_of (make a) ≡ opcode)
    → Announced opcode (caught make r)
unfolding caught
caught-Announced opcode make (ok a) h = parsed (make a) (h a)
caught-Announced opcode make (err e) h = unparsed

-- One test of the chain.
infixr 20 ◌▹◌
◌▹◌ :
    {opcode k : ℕ} {x y : Option Event}
    → Announced k x
    → Announced opcode y
    → Announced opcode (if opcode == k then x else y)
◌▹◌ {opcode} {k} {x} h rest = elim (Bool-cases (opcode == k)) [
  | inl e ↦ rw e (subst (λ n. Announced n x) (sym ((==_iff opcode k).0 e)) h)
  | inr e ↦ rw e rest
]

module _ (decode_utf8 : Bytes → String) where
  parse_opcode-Announced :
      (opcode : ℕ) (bytes : Bytes) → Announced opcode (parse_opcode decode_utf8 opcode bytes)
  unfolding parse_opcode
  parse_opcode-Announced opcode bytes =
      caught-Announced _ _ _ (λ _. refl)
      ▹ caught-Announced _ _ _ (λ _. refl)
      ▹ caught-Announced _ _ _ (λ _. refl)
      ▹ caught-Announced _ _ _ (λ _. refl)
      ▹ caught-Announced _ _ _ (λ _. refl)
      ▹ caught-Announced _ _ _ (λ _. refl)
      ▹ caught-Announced _ _ _ (λ _. refl)
      ▹ caught-Announced _ _ _ (λ _. refl)
      ▹ caught-Announced _ _ _ (λ _. refl)
      ▹ caught-Announced _ _ _ (λ _. refl)
      ▹ caught-Announced _ _ _ (λ _. refl)
      ▹ caught-Announced _ _ _ (λ _. refl)
      ▹ caught-Announced _ _ _ (λ _. refl)
      ▹ caught-Announced _ _ _ (λ _. refl)
      ▹ caught-Announced _ _ _ (λ _. refl)
      ▹ caught-Announced _ _ _ (λ _. refl)
      ▹ caught-Announced _ _ _ (λ _. refl)
      ▹ caught-Announced _ _ _ (λ _. refl)
      ▹ caught-Announced _ _ _ (λ _. refl)
      ▹ caught-Announced _ _ _ (λ _. refl)
      ▹ unparsed

  announced_payload :
      (payload : Bytes) {e : Event}
      → parse_payload decode_utf8 payload ≡ some e
      → (rest : Bytes) × (payload ≡ opcode_of e ∷ rest)
  unfolding parse_payload
  announced_payload [] h = cc
  announced_payload (opcode ∷ rest) h =
      let announced = rw h at (parse_opcode-Announced opcode rest) in
      (rest, ap (λ k. k ∷ rest) (sym (Announced-some announced)))

  -- A payload that parses begins with the opcode of the event's class.
  pub parse_event-opcode :
      (frame : MessageFrame) {e : Event}
      → parse_event decode_utf8 frame ≡ some e
      → (rest : Bytes) × (frame.payload ≡ opcode_of e ∷ rest)
  unfolding parse_event
  parse_event-opcode frame h = announced_payload frame.payload h
