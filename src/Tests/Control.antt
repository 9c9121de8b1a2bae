-- ===== src/Tests/Control.antt =====
-- src/daemon/control.rs and src/cli/client.rs: a server whose texts name the commands.
use nic_autoswitch.Common.{
  ◌≡◌, refl, ◌≢◌, false, Option, none, some, List, [], ◌∷◌, if◌then◌else◌, Text, bytes, ◌==◌,
  Text-discrete, Text-eq, ℕ-eq,
}
use nic_autoswitch.Error.{configuration_reloaded, ok}
use nic_autoswitch.Daemon.Json.{Json}
use nic_autoswitch.Daemon.Control.{
  reload, ControlResponse, success_with_message, MockControlState, mock_control, Serde,
  handle_command, handle_connection,
}
use nic_autoswitch.Daemon.Control.Connection.{
  dialogue, texts, written_lines, commands, handle_connection_refines,
}
use nic_autoswitch.Cli.Client.{send_command}
use nic_autoswitch.Cli.Served.{served, Carries, IsOrder, order_fails}

abbrev reload_text : Text
reload_text = bytes "\"Reload\""

abbrev good_text : Text
good_text = bytes "{\"success\":true}"

abbrev bad_text : Text
bad_text = bytes "{\"success\":false}"

abbrev reloaded : ControlResponse
reloaded = success_with_message configuration_reloaded

abbrev text_of : ControlResponse → Text
text_of r = if r.success then good_text else bad_text

abbrev text_from : Json → Option Text
text_from (Json.string t) = some t
text_from _ = none

-- Reads the command and the answer of a reload, and nothing else.
abbrev sample_serde : Serde
sample_serde = record {
  command_to_string = λ c. some reload_text;
  command_from_str = λ t. if t == reload_text then some reload else none;
  response_to_string = λ r. some (text_of r);
  response_from_str = λ t. if t == good_text then some reloaded else none;
  status_to_value = λ s. none;
  routes_to_value = λ m. none;
  string_from_value = text_from;
  value_from_value = λ v. some v;
}

abbrev sample_mock : MockControlState
sample_mock = record {
  mock_status = record {
    version = bytes "0.1.0";
    state = bytes "Running";
    uptime_secs = 0;
    active_routes = 0;
  };
  shutdown_flag = false;
}

abbrev two_lines : List Text
two_lines = reload_text ∷ bytes "hello" ∷ []

handle_connection_refines_example :
    handle_connection sample_serde mock_control
      (written_lines sample_serde mock_control two_lines)
      sample_mock
    ≡ (
      ok tt,
      texts sample_serde mock_control text_of
          (dialogue sample_serde mock_control
            (commands sample_serde mock_control two_lines)
            sample_mock).0,
      (dialogue sample_serde mock_control
          (commands sample_serde mock_control two_lines)
          sample_mock).1,
    )
handle_connection_refines_example =
    handle_connection_refines sample_serde mock_control text_of two_lines sample_mock (λ r. refl)

reload-Carries :
    Carries sample_serde mock_control reload
      (handle_command sample_serde mock_control reload sample_mock).0
unfolding handle_command Text-discrete
reload-Carries = record {
  command_text = reload_text;
  response_text = good_text;
  command_written = refl;
  command_read = refl;
  response_written = refl;
  response_read = refl;
}

order_fails_example :
    send_command sample_serde text_from (served sample_serde mock_control sample_mock) reload
    ≢ ok good_text
order_fails_example =
    order_fails sample_serde mock_control reload sample_mock good_text IsOrder.reloads refl
      reload-Carries
