-- ===== src/Lib.antt =====
-- The Python code of ROSE. The bridge (bridge/src) drives an ESP32 over TCP: frames with a checksum,
-- the server that cuts the byte stream into frames, the handler that sorts the events and lets
-- callers wait for them, the dispatcher that numbers and sends commands, and the client on top. The
-- platform (platform/src) is a web service over the bridge's client. The integration for Home
-- Assistant (custom_components/rose) uses the platform.
--
-- How the parts interact. The server's receiving thread calls `EventHandler.handle_event` on each
-- event frame; callers' threads send a command through `CommandDispatcher`, which writes a frame
-- through `IoTAgentServer.send_command`, and then poll the handler for the answer. The platform's
-- service calls the client's methods, for the endpoints of the web interface, for the commands over
-- a WebSocket and for the steps of custom commands; the events that the handler gives to its
-- callbacks become dicts, update the platform's caches and are broadcast to the WebSockets.
--
-- Where what is modelled:
--   * Prelude: shared names, Python's `int` (Int), exceptions (Result) and `dict` (Dict).
--   * Struct: Python's `struct.pack` and `struct.unpack`, little endian, with what is out of range
--     raised; Struct/Laws has the round trips that the wire formats use.
--   * Protocol, for bridge/src/protocol.py: Opcodes, Crc (the loop of `calculate_crc`), Frame
--     (`MessageFrame`), Commands and Commands/Signals (`Cmd….to_bytes`), Events (the classes),
--     Events/Reads and Events/Loops (`Event….from_bytes`), and Events/Parse for `_parse_event` of
--     bridge/src/events.py.
--   * Server, for bridge/src/server.py: Stream is the inner loop of `_client_handler`, Connection
--     the state and each section under the lock.
--   * Handler, for `EventHandler` of bridge/src/events.py: one function for each locked section
--     and each waiting loop; Handler/Queues is the dict of lists that both of its tables are.
--   * Dispatcher, for bridge/src/commands.py: ids, frames, sending; Dispatcher/Commands has one
--     function for each command.
--   * Client, for bridge/src/client.py: Resolution is the glitch filter, Session the state with the
--     UART listeners and `_check_ack`, Readings and Operations the commands.
--   * Platform, for platform/src: Values and Events (the conversion of events) and Service (the
--     wrappers) are services/bridge_service.py; Updates and Cache are `_on_bridge_event`, Monitor
--     the loop of `_monitor_bridge` and Sockets the commands of `_handle_ws_command`, with
--     Sockets/Registry for who may run them, of main.py; Access is security.py, Schemas
--     models/schemas.py, Manager ws/manager.py, Errors api/errors.py; Api has the endpoints of
--     api/system.py and api/port.py, Api/Gpio, Api/Signals and Api/Devices those of api/gpio.py,
--     api/signal.py, api/uart.py and api/ble.py; Executor and Executor/Steps are
--     services/cmd_executor.py, Commands db/crud.py and api/custom_cmd.py, and Pins api/pins.py.
--   * Integration, for custom_components/rose: Dht11 is protocols/dht11.py, Tcl protocols/tcl.py,
--     Climate climate.py, Presence ble_state.py and coordinator.py, Requests client.py,
--     Controls switch.py and light.py, and Groups device_groups.py, const.py and
--     `async_remove_config_entry_device` of __init__.py.
--   * Witness: tests, which apply the theorems to concrete values.
--
-- Parameters, for code that is not in the repository: `decode_utf8` (bytes.decode with
-- replacement), `pack_float` (struct.pack of a float), `strip_lower` (str.strip and str.lower),
-- `tenths` and `negate` (arithmetic on floats), the records `Floats` of Integration/Tcl (comparison
-- and rounding of floats) and `Library` of Platform/Access, Platform/Sockets and Platform/Executor
-- (ipaddress, Pydantic, base 64, `str.encode`), the hardware configuration, the environment, the
-- server's event callback, what `bind` and `sendall` answer, and what frames arrive when. The only
-- assumptions on them are named: `Quiet` (the callback never raises, as `handle_event`, which
-- catches every exception, does not), `FourBytes` (a packed float has four bytes) and `IsFloats`
-- (16.0 is below 31.0, and rounding keeps the order and these two numbers).
--
-- Threads: every locked section is a function of the state, and `Reach` of Handler/Interleaving and
-- of Server/Connection/Laws is every order of these sections. A timeout is the number of polls that
-- it leaves room for, with the frames that arrive during each.
--
-- Bounds and fuel: the framing loop gets as much fuel as the buffer has bytes, which is enough,
-- since every round takes a byte at least (Server/Stream/Rounds). All other loops are structural.
--
-- Not modelled: sockets, threads and time themselves, logging, the texts of error messages, the web
-- framework and the database, the sensors, numbers and dialogs of the Home Assistant
-- integration, the console, and the firmware, which is in C.
pub mod Prelude
pub mod Struct
pub mod Protocol
pub mod Server
pub mod Handler
pub mod Dispatcher
pub mod Client
pub mod Integration
pub mod Platform
mod Witness
