-- ===== src/Daemon/Control.antt =====
-- src/daemon/control.rs: the commands of the control socket and their answers. What serde makes of
-- the derived types is a parameter. Connections are handled by tasks of their own; a command is
-- handled in one step.
pub mod Connection
use nic_autoswitch.Common.{
  ℕ, Bool, true, false, ◌||◌, Option, none, some, List, [], ◌∷◌, if◌then◌else◌, Text, bytes, ◌==◌,
  Text-eq, ℕ-eq, Map,
}
use nic_autoswitch.Error.{
  io, json, Message, invalid_command, configuration_reloaded, shutdown_requested, reload_failed,
  connection_broken, not_serialized, Result, ok, err,
}
use nic_autoswitch.Daemon.Json.{Json}

pub data ControlCommand : Type 0 where
  status list_routes reload shutdown : ControlCommand

-- The source calls the last field `data`.
pub record ControlResponse : Type 0 where
  pub success : Bool
  pub message : Option Message
  pub payload : Option Json

abbrev pub success_response : Option Json → ControlResponse
success_response payload = record { success = true; message = none; payload = payload }

abbrev pub success_with_message : Message → ControlResponse
success_with_message m = record { success = true; message = some m; payload = none }

abbrev pub error_response : Message → ControlResponse
error_response m = record { success = false; message = some m; payload = none }

pub record DaemonStatus : Type 0 where
  pub version : Text
  pub state : Text
  pub uptime_secs : ℕ
  pub active_routes : ℕ

-- The trait, for an implementor `S`; an operation that takes `&self` and writes to it gives the new
-- one.
pub record ControlState (S : Type 0) : Type 0 where
  pub get_status : S → DaemonStatus
  pub get_active_routes : S → Map Text Json
  pub reload_config : S → Result (Unit {0}) × S
  pub is_shutdown_requested : S → Bool
  pub request_shutdown : S → S

pub record MockControlState : Type 0 where
  pub mock_status : DaemonStatus
  pub shutdown_flag : Bool

-- `version` is that of the package.
unfoldable pub new_mock : (version : Text) → MockControlState
new_mock version = record {
  mock_status = record {
    version = version;
    state = bytes "Running";
    uptime_secs = 0;
    active_routes = 0;
  };
  shutdown_flag = false;
}

abbrev pub mock_control : ControlState MockControlState
mock_control = record {
  get_status = λ s. s.mock_status;
  get_active_routes = λ s. [];
  reload_config = λ s. (ok tt, s);
  is_shutdown_requested = λ s. s.shutdown_flag;
  request_shutdown = λ s. record s { shutdown_flag = true };
}

-- What serde_json and the derived implementations do; `none` is an error.
pub record Serde : Type 0 where
  pub command_to_string : ControlCommand → Option Text
  pub command_from_str : Text → Option ControlCommand
  pub response_to_string : ControlResponse → Option Text
  pub response_from_str : Text → Option ControlResponse
  pub status_to_value : DaemonStatus → Option Json
  pub routes_to_value : Map Text Json → Option Json
  -- `from_value` at the types `String` and `Value`
  pub string_from_value : Json → Option Text
  pub value_from_value : Json → Option Json

abbrev pub or_null : Option Json → Json
or_null none = Json.null
or_null (some v) = v

-- An item of the stream of lines of a connection, and whether the answer to it can be written.
pub data Incoming : Type 0 where
  line : Text → (written : Bool) → Incoming
  unreadable_line : Incoming

module _ (serde : Serde) {S : Type 0} (cs : ControlState S) where
  abbrev pub reload_response : Result (Unit {0}) → ControlResponse
  reload_response (ok _) = success_with_message configuration_reloaded
  reload_response (err e) = error_response (reload_failed e)

  unfoldable pub handle_command : ControlCommand → S → ControlResponse × S
  handle_command status s =
      (success_response (some (or_null (serde.status_to_value (cs.get_status s)))), s)
  handle_command list_routes s =
      (success_response (some (or_null (serde.routes_to_value (cs.get_active_routes s)))), s)
  handle_command reload s = let (r, s') = cs.reload_config s in (reload_response r, s')
  handle_command shutdown s = (success_with_message shutdown_requested, cs.request_shutdown s)

  -- The response to one line.
  unfoldable pub answer_line : Text → S → ControlResponse × S
  unfolding handle_command
  answer_line text s = elim (serde.command_from_str text) [
    | some command ↦ handle_command command s
    | none ↦ (error_response invalid_command, s)
  ]

  -- An answer is written, unless it cannot be serialized or the socket is broken.
  abbrev pub deliver :
      (written : Bool)
      → Option Text
      → Result (Unit {0}) × List Text × S
      → S
      → Result (Unit {0}) × List Text × S
  deliver written none later s = (err (json not_serialized), [], s)
  deliver false (some text) later s = (err (io connection_broken), [], s)
  deliver true (some text) later s = let (r, sent, s') = later in (r, text ∷ sent, s')

  -- The result, the lines that were sent, and the state.
  unfoldable pub handle_connection : List Incoming → S → Result (Unit {0}) × List Text × S
  unfolding answer_line
  handle_connection [] s = (ok tt, [], s)
  handle_connection (unreadable_line ∷ l) s = (err (io connection_broken), [], s)
  handle_connection (line text written ∷ l) s =
      let (response, s') = answer_line text s in
      deliver written (serde.response_to_string response) (handle_connection l s') s'

-- `peer` is the user of the peer, where the system tells it.
unfoldable pub check_peer_cred : (euid : ℕ) → (peer : Option ℕ) → Bool
check_peer_cred euid none = false
check_peer_cred euid (some peer_uid) = peer_uid == euid || peer_uid == 0

pub record ControlServer (S : Type 0) : Type 0 where
  pub socket_path : Text
  pub control_state : S
  pub shutdown : Bool
  -- a permit that `notify_one` left
  pub notified : Bool

unfoldable pub new_server : {S : Type 0} → Text → S → ControlServer S
new_server path s = record {
  socket_path = path;
  control_state = s;
  shutdown = false;
  notified = false;
}

unfoldable pub stop_server : {S : Type 0} → ControlServer S → ControlServer S
stop_server server = record server { shutdown = true; notified = true }

-- What the loop of `start` waits for. A connection has its peer and its lines; the flag of the server
-- is read after each turn.
pub data Arrival : Type 0 where
  connection : (peer : Option ℕ) → List Incoming → Arrival
  accept_failed : Arrival
  notification : Arrival

-- The connections that get a task; the loop ends at a notification or once the flag is set.
unfoldable pub accept_loop : (euid : ℕ) → List (Arrival × Bool) → List (List Incoming)
unfolding check_peer_cred
accept_loop euid [] = []
accept_loop euid ((connection peer lines, flag) ∷ l) =
    let later = accept_loop euid l in
    let after_turn = if flag then [] else later in
    if check_peer_cred euid peer then lines ∷ after_turn else later
accept_loop euid ((accept_failed, flag) ∷ l) =
    let later = accept_loop euid l in if flag then [] else later
accept_loop euid ((notification, flag) ∷ l) = []
