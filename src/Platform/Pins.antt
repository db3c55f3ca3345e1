-- ===== src/Platform/Pins.antt =====
-- The states of pins and UARTs that the platform keeps: platform/src/api/pins.py and the messages to
-- a new socket in `websocket_endpoint` of platform/src/main.py. A table is a dict from its primary
-- key, and a commit is the new table; the times of the rows are left out.
use Prim.Native.String.{String}
use rose_esp.Prelude.{Bool, true, false, Option, none, some, List, [], ◌∷◌, map}
use rose_esp.Prelude.Int.{ℤ, pos}
use rose_esp.Prelude.Eq.{string_eq, int_eq}
use rose_esp.Prelude.Dict.{Dict, get, put, remove}
use rose_esp.Platform.Values.{Record}

pub record PinLock : Type 0 where
  pub locked : Bool
  pub expected_mode : Option ℤ
  pub expected_value : Option ℤ
  pub pull : Option ℤ
  pub edge : Option ℤ

pub record UartConfig : Type 0 where
  pub baudrate : ℤ
  pub tx_gpio : ℤ
  pub rx_gpio : ℤ
  pub data_bits : ℤ
  pub parity : ℤ
  pub stop_bits : ℤ

pub record Tables : Type 0 where
  pub pin_locks : Dict ℤ PinLock
  pub uart_configs : Dict ℤ UartConfig

-- A new row, with the columns' defaults.
abbrev pub new_lock : PinLock
new_lock = record {
  locked = false;
  expected_mode = none;
  expected_value = none;
  pull = some (pos 0);
  edge = some (pos 0);
}

-- The row of a pin, if there is one, or a new one.
abbrev pub row_of : Tables → ℤ → PinLock
row_of t gpio = elim (get t.pin_locks gpio) [ none ↦ new_lock | some row ↦ row ]

-- A body's `get(key, default)`; a value may be none.
abbrev pub Body : Type 0
Body = Dict String (Option ℤ)

abbrev pub body_get : Body → String → Option ℤ → Option ℤ
body_get body key default = elim (get body key) [ none ↦ default | some v ↦ v ]

-- `body.get(key, default)` for a UART, whose columns are numbers.
abbrev pub number_or : Dict String ℤ → String → ℤ → ℤ
number_or body key default = elim (get body key) [ none ↦ default | some v ↦ v ]

unfoldable pub lock_pin : ℤ → Tables → Tables
lock_pin gpio t = record t {
  pin_locks = put t.pin_locks gpio (record (row_of t gpio) { locked = true });
}

unfoldable pub unlock_pin : ℤ → Tables → Tables
unlock_pin gpio t = elim (get t.pin_locks gpio) [
  | none ↦ t
  | some row ↦ record t {
    pin_locks =
        put t.pin_locks gpio
          (record row { locked = false; expected_mode = none; expected_value = none });
  }
]

-- `save_expected_state` reads nothing and saves nothing.
unfoldable pub save_expected_state : ℤ → Tables → Tables
save_expected_state gpio t = t

unfoldable pub set_expected_state : ℤ → Body → Tables → Tables
set_expected_state gpio body t = record t {
  pin_locks = put t.pin_locks gpio (record (row_of t gpio) {
    expected_mode = body_get body "expected_mode" none;
    expected_value = body_get body "expected_value" none;
    pull = body_get body "pull" (some (pos 0));
    edge = body_get body "edge" (some (pos 0));
  });
}

unfoldable pub save_uart_config : ℤ → Dict String ℤ → Tables → Tables
save_uart_config uart_id body t =
    let row : UartConfig = record {
      baudrate = number_or body "baudrate" (pos 115200);
      tx_gpio = number_or body "tx_gpio" (pos 1);
      rx_gpio = number_or body "rx_gpio" (pos 3);
      data_bits = number_or body "data_bits" (pos 8);
      parity = number_or body "parity" (pos 0);
      stop_bits = number_or body "stop_bits" (pos 1);
    } in
    record t { uart_configs = put t.uart_configs uart_id row }

unfoldable pub delete_uart_config : ℤ → Tables → Tables
delete_uart_config uart_id t = record t { uart_configs = remove t.uart_configs uart_id }

-- `get_locks`: both tables.
unfoldable pub get_locks : Tables → Dict ℤ PinLock × Dict ℤ UartConfig
get_locks t = (t.pin_locks, t.uart_configs)

-- What a new socket is sent before its first message, and whether a synchronisation is started.
pub data Greeting (D : Type 0) : Type 0 where
  hardware_config : D → Greeting D
  connection_change : Bool → Greeting D
  expected_state : List (ℤ × Bool × Option ℤ × Option ℤ) → List (ℤ × ℤ × ℤ × ℤ) → Greeting D
  device_state : Dict ℤ Record → Greeting D

module _ {D : Type 0} where
  abbrev pub only_if : Bool → Greeting D → List (Greeting D) → List (Greeting D)
  only_if true greeting rest = greeting ∷ rest
  only_if false greeting rest = rest

  abbrev pub unless_empty :
      {A B : Type 0} → List A → List B → Greeting D → List (Greeting D) → List (Greeting D)
  unless_empty [] [] greeting rest = rest
  unless_empty _ _ greeting rest = greeting ∷ rest

  unfoldable pub greetings : D → Bool → Tables → Dict ℤ Record → List (Greeting D)
  greetings config connected t gpio_cache =
      let gpios = map (λ r. (r.0, r.1.locked, r.1.expected_mode, r.1.expected_value)) t.pin_locks in
      let uarts = map (λ r. (r.0, r.1.baudrate, r.1.tx_gpio, r.1.rx_gpio)) t.uart_configs in
      hardware_config config
      ∷ connection_change connected
      ∷ unless_empty gpios uarts (expected_state gpios uarts)
          (unless_empty gpio_cache gpio_cache (device_state gpio_cache) [])
