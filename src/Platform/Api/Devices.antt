-- ===== src/Platform/Api/Devices.antt =====
-- The endpoints of platform/src/api/uart.py, and those of platform/src/api/ble.py that reach the
-- device or keep the devices' names. The table of names is a dict; its times are left out.
-- `from_hex` is `bytes.fromhex` after the two `replace`.
use Prim.Native.String.{String}
use text.Mathlib.Text.{◌==◌ as str_eq}
use rose_esp.Prelude.{
  ℕ, ◌==◌, Bool, true, not, Option, none, some, List, [], ◌∷◌, length, if◌then◌else◌,
}
use rose_esp.Prelude.Int.{ℤ}
use rose_esp.Prelude.Eq.{string_eq}
use rose_esp.Prelude.Dict.{Dict, put, remove}
use rose_esp.Prelude.Result.{Result}
use rose_esp.Struct.{Bytes}
use rose_esp.Platform.Service
use rose_esp.Platform.Errors.{Answer, answer, raised}
use rose_esp.Platform.Api.{
  Web, Api, pure, fail, ◌>>=◌, call, connected, ensure_some, done, asked, check_capability,
  unhandled_if,
}

-- `raw[::-1]`
abbrev pub reversed : Bytes → Bytes → Bytes
reversed [] acc = acc
reversed (b ∷ bs) acc = reversed bs (b ∷ acc)

module _ {C : Type 0} (decode_utf8 : Bytes → String) (capabilities : Dict String Bool) where
  unfoldable pub uart_config : ℤ → ℤ → ℤ → ℤ → ℤ → ℤ → ℤ → Api C (ℤ × ℤ)
  uart_config uart_id baudrate tx_gpio rx_gpio data_bits parity stop_bits = do
    _ ← check_capability capabilities "uart"
    _ ← connected
    _ ← done (
        Service.uart_config decode_utf8 uart_id baudrate tx_gpio rx_gpio data_bits parity stop_bits)
    pure (uart_id, baudrate)

  module _ (b64decode : String → Result Bytes) (encode : String → String → Result Bytes) where
    -- The data of the request: an absent text is an empty one.
    unfoldable pub requested_data : String → String → String → Api C Bytes
    requested_data data_base64 data_ encoding w =
        if not (str_eq data_base64 "")
        then (unhandled_if (b64decode data_base64), w)
        else if not (str_eq data_ "")
        then (unhandled_if (encode data_ encoding), w)
        else fail 400 w

    unfoldable pub uart_send : ℤ → String → String → String → Api C (ℤ × ℕ)
    uart_send uart_id data_base64 data_ encoding = do
      _ ← check_capability capabilities "uart"
      _ ← connected
      bytes ← requested_data data_base64 data_ encoding
      _ ← done (Service.uart_send decode_utf8 uart_id bytes)
      pure (uart_id, length bytes)

  unfoldable pub uart_read : ℤ → ℕ → Api C (ℤ × Bytes)
  uart_read uart_id length_ = do
    _ ← check_capability capabilities "uart"
    _ ← connected
    received ← asked (Service.uart_read decode_utf8 uart_id length_)
    pure (uart_id, received)

  unfoldable pub ble_enable_pairing : ℤ → Api C (Bytes × ℤ)
  ble_enable_pairing timeout_s = do
    _ ← check_capability capabilities "ble"
    _ ← connected
    pin ← asked (Service.ble_enable_pairing decode_utf8 timeout_s)
    pure (pin, timeout_s)

  unfoldable pub ble_disable_pairing : Api C Bool
  ble_disable_pairing = do
    _ ← check_capability capabilities "ble"
    _ ← connected
    _ ← done (Service.ble_disable_pairing decode_utf8)
    pure true

  -- The service returns a list in any case, so the check passes.
  unfoldable pub ble_get_in_range : Api C (List (String × ℤ))
  ble_get_in_range = do
    _ ← check_capability capabilities "ble"
    _ ← connected
    found ← call (Service.ble_get_in_range decode_utf8)
    ensure_some (some found)

  unfoldable pub ble_start_scan : ℤ → Api C Bool
  ble_start_scan interval_s = do
    _ ← check_capability capabilities "ble"
    _ ← connected
    _ ← done (Service.ble_start_scan decode_utf8 interval_s)
    pure true

  unfoldable pub ble_stop_scan : Api C Bool
  ble_stop_scan = do
    _ ← check_capability capabilities "ble"
    _ ← connected
    _ ← done (Service.ble_stop_scan decode_utf8)
    pure true

  module _ (from_hex : String → Option Bytes) where
    abbrev pub device_mac : String → Api C Bytes
    device_mac mac = elim (from_hex mac) [
      | none ↦ fail 422
      | some raw ↦ if length raw == 6 then pure (reversed raw []) else fail 422
    ]

    -- The endpoint up to the device's answer; then the name is deleted, as by
    -- `delete_ble_device_name`.
    unfoldable pub delete_bond : String → Api C (Unit {0})
    delete_bond mac = do
      _ ← check_capability capabilities "ble"
      _ ← connected
      raw ← device_mac mac
      done (Service.ble_delete_bond decode_utf8 raw)

    abbrev pub deleted :
        String
        → Dict String String
        → Answer (Unit {0}) × Web C
        → Answer String × Dict String String × Web C
    deleted mac names (answer done_, w) = (answer mac, remove names mac, w)
    deleted mac names (raised r, w) = (raised r, names, w)

    unfoldable pub delete_ble_paired_device :
        String → Dict String String → Web C → Answer String × Dict String String × Web C
    delete_ble_paired_device mac names w = deleted mac names (delete_bond mac w)

-- The endpoints on the names alone.
unfoldable pub list_ble_device_names : Dict String String → List (String × String)
list_ble_device_names names = names

unfoldable pub set_ble_device_name : String → String → Dict String String → Dict String String
set_ble_device_name mac name names = put names mac name

unfoldable pub delete_ble_device_name : String → Dict String String → Dict String String
delete_ble_device_name mac names = remove names mac
