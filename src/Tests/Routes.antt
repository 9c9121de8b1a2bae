-- ===== src/Tests/Routes.antt =====
-- src/cli/commands.rs: the command `routes`, for a service with one active route.
use nic_autoswitch.Common.{
  ◌≡◌, refl, ◌↔◌, Option, none, some, [], ◌∷◌, Text, bytes, Map, Text-eq, ℕ-eq, Text-discrete, ◌==◌,
  if◌then◌else◌,
}
use nic_autoswitch.Error.{ok}
use nic_autoswitch.Daemon.Json.{Json, Fields, no_fields, one_field}
use nic_autoswitch.Daemon.Control.{
  list_routes, ControlResponse, success_response, Serde, handle_command,
}
use nic_autoswitch.Config.Loader.{malformed}
use nic_autoswitch.Engine.Executor.{ActiveRoute}
use nic_autoswitch.Engine.Dispatcher.{active_routes}
use nic_autoswitch.Daemon.Service.{DaemonService, service_control}
use nic_autoswitch.Cli.Commands.{no_active_routes, print_routes}
use nic_autoswitch.Cli.Served.{served, Carries}
use nic_autoswitch.Cli.Routes.{RoutesLaws, print_routes_iff}
use nic_autoswitch.Tests.Samples.{sample_dispatcher, eth0}
use nic_autoswitch.Tests.Service.{sample_service}

abbrev fields_of : Map Text Json → Fields
fields_of [] = no_fields
fields_of ((name, v) ∷ m) = one_field name v (fields_of m)

abbrev interface_value : ActiveRoute → Option Json
interface_value r = some (Json.string r.interface)

abbrev routes_text : Text
routes_text = bytes "\"ListRoutes\""

abbrev answer_text : Text
answer_text = bytes "{\"success\":true,\"data\":{\"office\":\"eth0\"}}"

abbrev answer : ControlResponse
answer =
    success_response (some (Json.object (one_field (bytes "office") (Json.string eth0) no_fields)))

-- Reads the command and the answer of this exchange, and nothing else.
abbrev routes_serde : Serde
routes_serde = record {
  command_to_string = λ c. some routes_text;
  command_from_str = λ t. if t == routes_text then some list_routes else none;
  response_to_string = λ r. some answer_text;
  response_from_str = λ t. if t == answer_text then some answer else none;
  status_to_value = λ s. none;
  routes_to_value = λ m. some (Json.object (fields_of m));
  string_from_value = λ v. none;
  value_from_value = λ v. some v;
}

abbrev routes_laws : RoutesLaws routes_serde
routes_laws = record {
  empty_map = refl;
  other_map = λ name v m. (name, v, fields_of m, refl);
  value_same = λ v. refl;
}

abbrev one_route_service : DaemonService
one_route_service = record sample_service { dispatcher = sample_dispatcher }

routes-Carries :
    let cs = service_control (bytes "0.1.0") interface_value 5 malformed malformed in
    Carries routes_serde cs list_routes
      (handle_command routes_serde cs list_routes one_route_service).0
unfolding handle_command service_control Text-discrete
routes-Carries = record {
  command_text = routes_text;
  response_text = answer_text;
  command_written = refl;
  command_read = refl;
  response_written = refl;
  response_read = refl;
}

print_routes_iff_example :
    (print_routes routes_serde (
        served routes_serde
          (service_control (bytes "0.1.0") interface_value 5 malformed malformed)
          one_route_service)
      ≡ ok (no_active_routes ∷ []))
    ↔ (active_routes sample_dispatcher ≡ [])
print_routes_iff_example =
    print_routes_iff routes_serde routes_laws (bytes "0.1.0") interface_value 5 malformed malformed
      one_route_service routes-Carries
