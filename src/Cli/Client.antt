-- ===== src/Cli/Client.antt =====
-- src/cli/client.rs: a client sends one command on a connection and reads one line. What the socket
-- does is a parameter.
use nic_autoswitch.Common.{
  ℕ, Bool, true, false, Option, none, some, if◌then◌else◌, Text, bytes, Text-eq, ℕ-eq,
}
use nic_autoswitch.Error.{
  io, invalid_input, json, Message, connection_broken, not_serialized, not_parsed,
  daemon_not_running, unknown_error, Result, ok, err,
}
use nic_autoswitch.Daemon.Json.{Json}
use nic_autoswitch.Daemon.Control.{
  ControlCommand, ControlResponse, status, list_routes, reload, shutdown, Serde, or_null,
}

pub record DaemonClient : Type 0 where
  pub socket_path : Text
  pub timeout_secs : ℕ

abbrev pub default_socket_path : Text
default_socket_path = bytes "/run/nic-autoswitch/control.sock"

unfoldable pub new_client : Text → DaemonClient
new_client path = record { socket_path = path; timeout_secs = 5 }

unfoldable pub default_client : DaemonClient
unfolding new_client
default_client = new_client default_socket_path

unfoldable pub with_timeout : ℕ → DaemonClient → DaemonClient
with_timeout secs c = record c { timeout_secs = secs }

-- `absent` is an error of kind `NotFound` or `ConnectionRefused`.
pub data Connect : Type 0 where
  connected absent connect_failed : Connect

pub record Socket : Type 0 where
  pub connect : Connect
  pub timeouts_set : Bool
  pub written : Text → Bool
  -- The line read after a text was sent; at the end of the stream it is empty, and `none` is an error.
  pub reply : Text → Option Text

abbrev or_io {ℓ} : {A : Type ℓ} → Bool → Result A → Result A
or_io true r = r
or_io false r = err (io connection_broken)

abbrev or_message : Option Message → Message
or_message none = unknown_error
or_message (some m) = m

module _ (serde : Serde) where
  -- What a response means to the caller, by the `from_value` of the type that it asks for.
  unfoldable pub outcome {ℓ} : {A : Type ℓ} → (Json → Option A) → ControlResponse → Result A
  outcome from response =
      if response.success
      then elim (from (or_null response.payload)) [
        | some a ↦ ok a
        | none ↦ err (invalid_input not_parsed)
      ]
      else err (invalid_input (or_message response.message))

  abbrev pub read_response {ℓ} : {A : Type ℓ} → (Json → Option A) → Option Text → Result A
  read_response from none = err (io connection_broken)
  read_response from (some text) = elim (serde.response_from_str text) [
    | none ↦ err (json not_parsed)
    | some response ↦ outcome from response
  ]

  -- The command is written and the answer read.
  abbrev pub exchange {ℓ} : {A : Type ℓ} → (Json → Option A) → Socket → Option Text → Result A
  exchange from socket none = err (json not_serialized)
  exchange from socket (some text) =
      or_io (socket.written text) (read_response from (socket.reply text))

  unfoldable pub send_command {ℓ} :
      {A : Type ℓ} → (Json → Option A) → Socket → ControlCommand → Result A
  unfolding outcome
  send_command from socket command = elim socket.connect [
    | absent ↦ err (invalid_input daemon_not_running)
    | connect_failed ↦ err (io connection_broken)
    | connected ↦ or_io socket.timeouts_set (exchange from socket (serde.command_to_string command))
  ]

  unfoldable pub get_status : Socket → Result Json
  unfolding send_command
  get_status socket = send_command serde.value_from_value socket status

  unfoldable pub get_routes : Socket → Result Json
  unfolding send_command
  get_routes socket = send_command serde.value_from_value socket list_routes

  unfoldable pub reload_config : Socket → Result Text
  unfolding send_command
  reload_config socket = send_command serde.string_from_value socket reload

  unfoldable pub shutdown_daemon : Socket → Result Text
  unfolding send_command
  shutdown_daemon socket = send_command serde.string_from_value socket shutdown

unfoldable pub is_daemon_running : Socket → Bool
is_daemon_running socket = elim socket.connect [ connected ↦ true | _ ↦ false ]
