-- ===== src/Platform/Monitor.antt =====
-- The loop of `_monitor_bridge` in platform/src/main.py. One turn sees what the rest of the platform
-- holds at that time; times are in microseconds. A broadcast is the message given to the manager.
pub mod Changes
use rose_esp.Prelude.{
  Bool, true, false, ◌&&◌, not, Option, none, some, List, [], ◌∷◌, ℕ, suc, if◌then◌else◌,
}
use rose_esp.Prelude.Int.{ℤ, pos, ltb_ℤ, ◌+ℤ◌}

pub data Message (D : Type 0) : Type 0 where
  connection_change : Bool → ℤ → Message D
  hardware_config : D → ℤ → Message D

-- What a turn finds: `bridge_service.is_connected()`, `_last_heartbeat_time`, `time.time()`, and
-- the hardware's configuration, `None` where its loading raises.
pub record Observation (D : Type 0) : Type 0 where
  pub is_connected : Bool
  pub last_heartbeat_time : ℤ
  pub now : ℤ
  pub config : Option D

-- The local variable, what was broadcast, the last first, and how often `_sync_device_state` began.
pub record Monitor (D : Type 0) : Type 0 where
  pub was_connected : Bool
  pub broadcasts : List (Message D)
  pub synced : ℕ

-- 35 s
abbrev pub heartbeat_timeout : ℤ
heartbeat_timeout = pos 35000000

module _ {D : Type 0} where
  abbrev pub start : Monitor D
  start = record { was_connected = false; broadcasts = []; synced = 0 }

  -- `connected` after the test for a heartbeat's timeout.
  unfoldable pub is_alive : Observation D → Bool
  is_alive o =
      o.is_connected
      && not (
          ltb_ℤ (pos 0) o.last_heartbeat_time
          && ltb_ℤ (o.last_heartbeat_time +ℤ heartbeat_timeout) o.now)

  abbrev pub announce : Message D → Monitor D → Monitor D
  announce message m = record m { broadcasts = message ∷ m.broadcasts }

  -- What follows a new connection; if the configuration does not load, the loop logs the exception.
  unfoldable pub welcome : Observation D → Monitor D → Monitor D
  welcome o m = elim o.config [
    | none ↦ m
    | some config ↦ record (announce (hardware_config config o.now) m) { synced = suc m.synced }
  ]

  -- One turn of the loop.
  unfoldable pub turn : Observation D → Monitor D → Monitor D
  turn o m =
      let connected = is_alive o in
      if same connected m.was_connected
      then m
      else let changed =
          announce (connection_change connected o.now) (record m { was_connected = connected }) in
        if connected then welcome o changed else changed
    where
      same : Bool → Bool → Bool
      same true b = b
      same false b = not b

  unfoldable pub monitor : List (Observation D) → Monitor D → Monitor D
  monitor [] m = m
  monitor (o ∷ observations) m = monitor observations (turn o m)
