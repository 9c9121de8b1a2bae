-- ===== src/Cli/Commands.antt =====
-- src/cli/commands.rs and src/cli/main.rs: what the commands print, and the exit code.
use nic_autoswitch.Common.{
  ℕ, Bool, true, false, Option, none, some, List, [], ◌∷◌, ◌++◌, if◌then◌else◌, Text, bytes,
  Text-eq, ℕ-eq,
}
use nic_autoswitch.Error.{Result, ok, err, ◌>>=◌}
use nic_autoswitch.Daemon.Json.{Json, Fields, get_value}
use nic_autoswitch.Daemon.Control.{Serde}
use nic_autoswitch.Cli.Client.{
  DaemonClient, new_client, default_client, Socket, get_status, get_routes, reload_config,
  shutdown_daemon, is_daemon_running,
}

pub data Output : Type 0 where
  formatted state_line version_line : Json → Output
  message_line : Text → Output
  no_active_routes daemon_running daemon_not_up : Output

pub data Commands : Type 0 where
  show_status show_routes reloads shuts_down ping : Commands

abbrev optional_line : (Json → Output) → Option Json → List Output
optional_line f none = []
optional_line f (some v) = f v ∷ []

-- Null, or an object with no entries.
abbrev pub is_blank : Json → Bool
is_blank Json.null = true
is_blank (Json.object Fields.no_fields) = true
is_blank _ = false

abbrev details : Result Json → List Output
details (err e) = []
details (ok v) =
    optional_line state_line (get_value (bytes "state") v)
    ++ optional_line version_line (get_value (bytes "version") v)

module _ (serde : Serde) where
  unfoldable pub print_status : Socket → Result (List Output)
  unfolding get_status
  print_status socket = do v ← get_status serde socket; ok (formatted v ∷ [])

  unfoldable pub print_routes : Socket → Result (List Output)
  unfolding get_routes
  print_routes socket = do
    v ← get_routes serde socket
    ok ((if is_blank v then no_active_routes else formatted v) ∷ [])

  unfoldable pub print_reload : Socket → Result (List Output)
  unfolding reload_config
  print_reload socket = do m ← reload_config serde socket; ok (message_line m ∷ [])

  unfoldable pub print_shutdown : Socket → Result (List Output)
  unfolding shutdown_daemon
  print_shutdown socket = do m ← shutdown_daemon serde socket; ok (message_line m ∷ [])

  -- The first connection only tells that the daemon runs; a second one asks for the status.
  unfoldable pub check_daemon : (first second : Socket) → Result (List Output)
  unfolding is_daemon_running get_status get_value
  check_daemon first second = ok (
      if is_daemon_running first
      then daemon_running ∷ details (get_status serde second)
      else daemon_not_up ∷ [])

  unfoldable pub execute : Commands → (first second : Socket) → Result (List Output)
  unfolding print_status print_routes print_reload print_shutdown check_daemon
  execute show_status first second = print_status first
  execute show_routes first second = print_routes first
  execute reloads first second = print_reload first
  execute shuts_down first second = print_shutdown first
  execute ping first second = check_daemon first second

abbrev pub exit_code {ℓ} : {A : Type ℓ} → Result A → ℕ
exit_code (ok _) = 0
exit_code (err e) = 1

pub record CommandExecutor : Type 0 where
  pub client : DaemonClient

unfoldable pub new_executor : CommandExecutor
unfolding default_client
new_executor = record { client = default_client }

unfoldable pub with_socket_path : Text → CommandExecutor
unfolding new_client
with_socket_path path = record { client = new_client path }

-- `main`: the exit code, with what is printed. `sockets` are the connections that a client gets.
unfoldable pub main :
    Serde
    → (sockets : DaemonClient → Socket × Socket) → (socket_path : Text) → Commands
    → ℕ × Result (List Output)
unfolding with_socket_path execute
main serde sockets socket_path command =
    let executor = with_socket_path socket_path in
    let (first, second) = sockets executor.client in
    let result = execute serde command first second in (exit_code result, result)
