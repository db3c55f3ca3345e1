-- ===== src/Protocol/Commands.antt =====
-- The command structures of bridge/src/protocol.py and what they write. The commands with no
-- field write no byte.
pub mod Signals
pub mod Laws
use rose_esp.Prelude.{ℕ, ◌-◌, ◌%◌, ◌^◌, List, [], ◌∷◌, ◌++◌, length, ◌==◌, if◌then◌else◌}
use rose_esp.Prelude.Int.{ℤ, pos, negsuc}
use rose_esp.Prelude.Result.{Result, ok, err, struct_error, value_error, ◌>>=◌}
use rose_esp.Struct.{Bytes, Format, u8, u16, u32, pack, unpack}

pub record CmdGpioConfig : Type 0 where
  pub gpio : ℤ
  pub mode : ℤ
  pub pull : ℤ
  pub edge : ℤ

unfoldable pub gpio_config_to_bytes : CmdGpioConfig → Result Bytes
gpio_config_to_bytes c = pack (u8 ∷ u8 ∷ u8 ∷ u8 ∷ []) (c.gpio ∷ c.mode ∷ c.pull ∷ c.edge ∷ [])

unfoldable pub gpio_config_from_bytes : Bytes → Result CmdGpioConfig
gpio_config_from_bytes bytes = unpack (u8 ∷ u8 ∷ u8 ∷ u8 ∷ []) bytes >>= λ vs. elim vs [
  | gpio ∷ mode ∷ pull ∷ edge ∷ [] ↦
      ok (record { gpio = gpio; mode = mode; pull = pull; edge = edge })
  | _ ↦ err struct_error
]

pub record CmdGpioSet : Type 0 where
  pub gpio : ℤ
  pub value : ℤ

unfoldable pub gpio_set_to_bytes : CmdGpioSet → Result Bytes
gpio_set_to_bytes c = pack (u8 ∷ u8 ∷ []) (c.gpio ∷ c.value ∷ [])

pub record CmdGpioGet : Type 0 where
  pub gpio : ℤ

unfoldable pub gpio_get_to_bytes : CmdGpioGet → Result Bytes
gpio_get_to_bytes c = pack (u8 ∷ []) (c.gpio ∷ [])

pub record CmdAdcSample : Type 0 where
  pub gpio : ℤ
  pub samples : ℤ

unfoldable pub adc_sample_to_bytes : CmdAdcSample → Result Bytes
adc_sample_to_bytes c = pack (u8 ∷ u8 ∷ []) (c.gpio ∷ c.samples ∷ [])

pub record CmdGpioSignalRx : Type 0 where
  pub gpio : ℤ
  pub timeout_us : ℤ
  pub max_edges : ℤ

unfoldable pub gpio_signal_rx_to_bytes : CmdGpioSignalRx → Result Bytes
gpio_signal_rx_to_bytes c = pack (u8 ∷ u32 ∷ u16 ∷ []) (c.gpio ∷ c.timeout_us ∷ c.max_edges ∷ [])

pub record CmdUartConfig : Type 0 where
  pub uart_id : ℤ
  pub baudrate : ℤ
  pub data_bits : ℤ
  pub parity : ℤ
  pub stop_bits : ℤ
  pub tx_gpio : ℤ
  pub rx_gpio : ℤ

unfoldable pub uart_config_to_bytes : CmdUartConfig → Result Bytes
uart_config_to_bytes c =
    pack (u8 ∷ u32 ∷ u8 ∷ u8 ∷ u8 ∷ u8 ∷ u8 ∷ [])
      (c.uart_id ∷ c.baudrate ∷ c.data_bits ∷ c.parity ∷ c.stop_bits ∷ c.tx_gpio ∷ c.rx_gpio ∷ [])

pub record CmdUartRead : Type 0 where
  pub uart_id : ℤ
  pub length : ℤ

unfoldable pub uart_read_to_bytes : CmdUartRead → Result Bytes
uart_read_to_bytes c = pack (u8 ∷ u16 ∷ []) (c.uart_id ∷ c.length ∷ [])

pub record CmdPortBind : Type 0 where
  pub resource_type : ℤ
  pub id : ℤ
  pub owner_id : ℤ

unfoldable pub port_bind_to_bytes : CmdPortBind → Result Bytes
port_bind_to_bytes c = pack (u8 ∷ u8 ∷ u16 ∷ []) (c.resource_type ∷ c.id ∷ c.owner_id ∷ [])

pub record CmdPortUnbind : Type 0 where
  pub resource_type : ℤ
  pub id : ℤ

unfoldable pub port_unbind_to_bytes : CmdPortUnbind → Result Bytes
port_unbind_to_bytes c = pack (u8 ∷ u8 ∷ []) (c.resource_type ∷ c.id ∷ [])

pub record CmdPortStatus : Type 0 where
  pub resource_type : ℤ
  pub id : ℤ

unfoldable pub port_status_to_bytes : CmdPortStatus → Result Bytes
port_status_to_bytes c = pack (u8 ∷ u8 ∷ []) (c.resource_type ∷ c.id ∷ [])

pub record CmdSyn : Type 0 where
  pub correlation_id : ℤ
  pub stage : ℤ

unfoldable pub syn_to_bytes : CmdSyn → Result Bytes
syn_to_bytes c = pack (u32 ∷ u8 ∷ []) (c.correlation_id ∷ c.stage ∷ [])

pub record CmdBleEnablePairing : Type 0 where
  pub timeout_s : ℤ

unfoldable pub ble_enable_pairing_to_bytes : CmdBleEnablePairing → Result Bytes
ble_enable_pairing_to_bytes c = pack (u32 ∷ []) (c.timeout_s ∷ [])

pub record CmdBleDisablePairing : Type 0 where
  pub reason : ℤ

unfoldable pub ble_disable_pairing_to_bytes : CmdBleDisablePairing → Result Bytes
ble_disable_pairing_to_bytes c = pack (u8 ∷ []) (c.reason ∷ [])

pub record CmdBleStartScan : Type 0 where
  pub interval_s : ℤ

unfoldable pub ble_start_scan_to_bytes : CmdBleStartScan → Result Bytes
ble_start_scan_to_bytes c = pack (u32 ∷ []) (c.interval_s ∷ [])

pub record CmdUartSend : Type 0 where
  pub uart_id : ℤ
  pub length : ℤ
  pub content : Bytes

unfoldable pub uart_send_to_bytes : CmdUartSend → Result Bytes
uart_send_to_bytes c =
    pack (u8 ∷ u16 ∷ []) (c.uart_id ∷ c.length ∷ []) >>= λ header. ok (header ++ c.content)

pub record CmdThreadPassthrough : Type 0 where
  pub device_id : ℤ
  pub payload_len : ℤ
  pub correlation_id : ℤ
  pub payload : Bytes

unfoldable pub thread_passthrough_to_bytes : CmdThreadPassthrough → Result Bytes
thread_passthrough_to_bytes c =
    pack (u16 ∷ u16 ∷ u32 ∷ []) (c.device_id ∷ c.payload_len ∷ c.correlation_id ∷ []) >>= λ header.
    ok (header ++ c.payload)

-- `v & 0xFFFFFFFF`, which Python computes on two's complement.
abbrev pub mask_u32 : ℤ → ℤ
mask_u32 (pos n) = pos (n % 2 ^ 32)
mask_u32 (negsuc n) = pos (2 ^ 32 - 1 - n % 2 ^ 32)

pub record CmdHeartbeat : Type 0 where
  pub timestamp : ℤ

unfoldable pub heartbeat_to_bytes : CmdHeartbeat → Result Bytes
heartbeat_to_bytes c = pack (u32 ∷ []) (mask_u32 c.timestamp ∷ [])

pub record CmdBleDeleteBond : Type 0 where
  pub device_mac : Bytes

unfoldable pub ble_delete_bond_to_bytes : CmdBleDeleteBond → Result Bytes
ble_delete_bond_to_bytes c = if length c.device_mac == 6 then ok c.device_mac else err value_error

-- `CmdSyncRequest`, `CmdBleGetInRange` and `CmdBleStopScan`.
abbrev pub sync_request_to_bytes : Result Bytes
sync_request_to_bytes = ok []

abbrev pub ble_get_in_range_to_bytes : Result Bytes
ble_get_in_range_to_bytes = ok []

abbrev pub ble_stop_scan_to_bytes : Result Bytes
ble_stop_scan_to_bytes = ok []
