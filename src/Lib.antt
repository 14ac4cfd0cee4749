-- ===== src/Lib.antt =====
-- Montray UI: the desktop client that watches Montray Servers (cmd/montray-ui).
--
-- The client runs one task for each configured server. A plain server has a connection loop, which
-- dials a WebSocket, decodes what it receives and reconnects with a growing delay. A server behind
-- a tunnel has a supervisor, which runs the tunnel process and, inside it, the same connection
-- loop. All of them send events to one reducer, which keeps the state, tells the runtime whether
-- anything changed, and asks for notifications and for snoozes to be stored. The window and the
-- tray show a snapshot of that state.
--
-- Base holds the shared names: tests on numbers, texts as lists of bytes, instants in nanoseconds,
-- results with `?` as a bind, decimal numbers, and maps as key-ordered association lists.
--
-- Domain models cmd/montray-ui/src/domain:
--   Domain/Model and Domain/Snapshot: model.rs (`AppState`, `AppState::new`, `snapshot`,
--   `overall_state`).
--   Domain/Event: event.rs and effect.rs. Domain/Lifecycle: the order in which the events of one
--   server come.
--   Domain/Reducer: reducer.rs, one function for each event of `Reducer::reduce`. A handler returns
--   the state with its transition; Internal has the incidents that the client raises itself. The
--   other modules below it hold its properties: Changed, Snoozing,
--   Outage, RootCause, Silence, WellFormed, Isolation, Staleness.
-- Config models cmd/montray-ui/src/config.rs: the records, Config/Address (`validate_host_port`, and
--   `split_host_port` of network/client.rs), Config/Validate (`validate` and its parts).
-- Network models cmd/montray-ui/src/network:
--   Network/Protocol: protocol.rs (`decode_text_message`).
--   Network/Client: client.rs. Request is `ConnectionSetup::request`; Session is the inner loop of
--   `run_connection_loop_with_options`, one moment for each turn; Reconnect is its outer loop, one
--   round for each turn.
--   Network/Tunnel: tunnel.rs. Command is `CommandSpec`; Supervisor is `run_with_spec`, one
--   generation for each process.
--   Network/Probe, Network/Tail and Network/Capture: `ProbeMatcher`, `TailBuffer` and
--   `capture_output` of tunnel.rs.
-- Runtime models cmd/montray-ui/src/runtime.rs: Runtime/Pump is one pass of the loop of `run_async`
--   for each event; Runtime/Snoozes is what follows a write of the snoozes; Runtime/Log is
--   `EventLogState` and `log_details`.
-- Persistence models cmd/montray-ui/src/persistence.rs: the state file, `replace_snoozes`,
--   `decoded_snoozes` and `Store::update`. Persistence/Store is `load`, `save` and the transactions
--   on the file system; Persistence/Import is `default_state_path` with its import of former state.
-- Geometry models cmd/montray-ui/src/window_geometry.rs: the window's placement over hiding, showing
--   and the events of the window manager.
-- Projection models a part of cmd/montray-ui/src/ui/projection.rs: Rows is `update_rows_in_place`,
--   Ages has `heartbeat_status`, `duration` and `format_relative`.
-- Tray models cmd/montray-ui/src/tray.rs: Flash is `TrayFlashController`, Icons the composition of
--   pictures, where `for_range` stands for a loop over a range.
-- Notifications models cmd/montray-ui/src/notification.rs: the bounded queue, its worker, one turn
--   for each move of a thread, and the shutdown.
-- Files is the file system that the following parts run on, with a monad for `?`: a map from paths
--   to files, links and directories, and a host that makes any call fail at any moment. Directories
--   that are made with their parents stay when a later call fails. Files/Keeps has the rules by
--   which a relation between the files before and after goes through an action.
-- Setup models cmd/montray-ui/src/setup.rs: Quoting is `desktop_exec_argument` and `shell_argument`,
--   with readers of both forms; Entry the desktop entries; Install `install_file` and the backup;
--   Execute `execute_with`, with what it may write over in Execute/Kept and Execute/Preserved and
--   its backup in Execute/Copies, Backed, Targets and Reinstalled; Autostart `set_autostart`; Migrate
--   the migration from Salmon Watch, with the copying of the configuration in Migrate/Config and
--   Migrate/Copying.
-- BearerToken models cmd/montray-ui/src/bearer_token.rs; Network/Client/Token is the reader of the
--   token's file in network/client.rs.
-- Examples holds tests and the properties at concrete inputs.
--
-- Tasks that wait for the world are functions of a script: what each wait, each attempt, each frame
-- and each send to the channel gives. The scripts are arbitrary, so they cover every interleaving of
-- the shutdown, the timeouts, the process and the closing of the channel that the code can see. A
-- loop takes one entry of its script per turn, and so needs no fuel; a script that ends stands for a
-- loop that still runs. The digits of a number are produced with as much fuel as the number, which is
-- more than it has digits.
--
-- Parameters stand for what the program calls: serde_json and the RFC 3339 parser (`Wire`), the
-- formatter of times, the URL parser and the header check of the crate `http`, the text of errors,
-- and the test for a loopback IP address; also the picture's
-- floating-point test for a sample point, the JSON of the state file and of a
-- path, random bytes and digests, the user's directories, and the check of a configuration file.
--
-- The file system is a map by path. Links are followed at the end of a path only, forty at most;
-- `create_dir_all` puts a directory at each path to its own where nothing is, one call after the
-- other, but a file can be put where no directory was made; the temporary directory of a backup has
-- a new name. Permissions are not kept, and no other program changes files during a run. A path that a caller hands in has no slash at its end.
--
-- Not modelled: reading the configuration's YAML and certificates, sockets and process signals,
-- which are calls of libraries and of the operating system; the start and the end of the runtime's
-- thread; the look-up of the user's directories in setup.rs; the making of the rows, the window and
-- the command line of cmd/montray-ui/src; and the servers and the former client, which are in other
-- languages.
pub mod Base
pub mod Domain
pub mod Config
pub mod Network
pub mod Runtime
pub mod Persistence
pub mod Geometry
pub mod Projection
pub mod Tray
pub mod Notifications
pub mod Files
pub mod Setup
pub mod BearerToken
pub mod Examples
