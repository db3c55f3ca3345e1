-- ===== src/Protocol/Events.antt =====
-- The event structures of bridge/src/protocol.py. The children read them from bytes.
pub mod Reads
pub mod Loops
pub mod Parse
use Prim.Native.String.{String}
use rose_esp.Prelude.{List}
use rose_esp.Prelude.Int.{ℤ}
use rose_esp.Struct.{Bytes}

pub record SignalEdge : Type 0 where
  pub level : ℤ
  pub duration_us : ℤ

pub record EventCmdAck : Type 0 where
  pub cmd_id : ℤ
  pub status : ℤ
  pub error_code : ℤ
  pub correlation_id : ℤ

pub record EventGpioValue : Type 0 where
  pub cmd_id : ℤ
  pub gpio : ℤ
  pub value : ℤ
  pub timestamp_us : ℤ

pub record EventGpioEdge : Type 0 where
  pub gpio : ℤ
  pub edge_type : ℤ
  pub timestamp_us : ℤ

pub record EventAdcValue : Type 0 where
  pub cmd_id : ℤ
  pub gpio : ℤ
  pub value : ℤ
  pub timestamp_us : ℤ

pub record EventGpioSignalCaptured : Type 0 where
  pub cmd_id : ℤ
  pub gpio : ℤ
  pub edge_count : ℤ
  pub timestamp_us : ℤ
  pub edges : List SignalEdge

pub record EventUartRx : Type 0 where
  pub uart_id : ℤ
  pub length : ℤ
  pub timestamp_us : ℤ
  pub received : Bytes

pub record EventThreadResponse : Type 0 where
  pub device_id : ℤ
  pub payload_len : ℤ
  pub correlation_id : ℤ
  pub timestamp_us : ℤ
  pub payload : Bytes

pub record EventSyncResponse : Type 0 where
  pub cmd_id : ℤ
  pub session_version : ℤ
  pub pending_cmd_count : ℤ
  pub pending_thread_count : ℤ
  pub port_status_count : ℤ

pub record EventPortStatus : Type 0 where
  pub resource_type : ℤ
  pub id : ℤ
  pub mode : ℤ
  pub owner : ℤ
  pub in_use : ℤ
  pub value : ℤ

pub record EventBlePairingEnabled : Type 0 where
  pub cmd_id : ℤ
  pub pin_code : Bytes
  pub timeout_s : ℤ

pub record EventBlePairingDisabled : Type 0 where
  pub reason : ℤ

pub record EventBleInRangeList : Type 0 where
  pub cmd_id : ℤ
  pub device_count : ℤ
  pub devices : List (Bytes × ℤ)

pub record EventBleDeviceInRange : Type 0 where
  pub device_mac : Bytes
  pub rssi : ℤ

pub record EventBleDeviceOutOfRange : Type 0 where
  pub device_mac : Bytes
  pub reason : ℤ

pub record EventBleRssi : Type 0 where
  pub device_mac : Bytes
  pub rssi : ℤ
  pub timestamp_us : ℤ

pub record EventHeartbeat : Type 0 where
  pub timestamp : ℤ
  pub connection_state : ℤ

pub record EventError : Type 0 where
  pub cmd_id : ℤ
  pub err_code : ℤ
  pub message : String

pub record EventUartStatus : Type 0 where
  pub uart_id : ℤ
  pub baudrate : ℤ
  pub data_bits : ℤ
  pub parity : ℤ
  pub stop_bits : ℤ
  pub tx_gpio : ℤ
  pub rx_gpio : ℤ
  pub in_use : ℤ
  pub owner : ℤ

pub record EventGpioStatus : Type 0 where
  pub gpio : ℤ
  pub mode : ℤ
  pub pull : ℤ
  pub edge : ℤ
  pub value : ℤ
  pub in_use : ℤ
  pub owner : ℤ
  pub adc_raw : ℤ
  pub adc_mv : ℤ

pub record EventBleStatus : Type 0 where
  pub pairing_enabled : ℤ
  pub scan_enabled : ℤ
  pub device_count : ℤ
  pub pairing_timeout_s : ℤ

-- An object of one of these classes: `isinstance` is the constructor.
pub data Event : Type 0 where
  cmd_ack : EventCmdAck → Event
  gpio_value : EventGpioValue → Event
  gpio_edge : EventGpioEdge → Event
  adc_value : EventAdcValue → Event
  gpio_signal_captured : EventGpioSignalCaptured → Event
  uart_rx : EventUartRx → Event
  thread_response : EventThreadResponse → Event
  sync_response : EventSyncResponse → Event
  port_status : EventPortStatus → Event
  ble_pairing_enabled : EventBlePairingEnabled → Event
  ble_pairing_disabled : EventBlePairingDisabled → Event
  ble_in_range_list : EventBleInRangeList → Event
  ble_device_in_range : EventBleDeviceInRange → Event
  ble_device_out_of_range : EventBleDeviceOutOfRange → Event
  ble_rssi : EventBleRssi → Event
  heartbeat : EventHeartbeat → Event
  error : EventError → Event
  uart_status : EventUartStatus → Event
  gpio_status : EventGpioStatus → Event
  ble_status : EventBleStatus → Event
