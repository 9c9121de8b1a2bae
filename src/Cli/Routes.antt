-- ===== src/Cli/Routes.antt =====
-- src/cli/commands.rs, src/daemon/control.rs and src/daemon/service.rs together: the command `routes`.
use nic_autoswitch.Common.{
  ℕ, ◌≡◌, ◌↔◌, refl, ◌∙◌, Option, some, List, if◌then◌else◌, [], ◌∷◌, Text, Map, Text-eq, ℕ-eq,
}
use nic_autoswitch.Error.{Result, ok}
use nic_autoswitch.Config.Loader.{FileRead}
use nic_autoswitch.Daemon.Json.{Json, Fields, one_field, no_fields}
use nic_autoswitch.Daemon.Control.{list_routes, ControlState, Serde, or_null, handle_command}
use nic_autoswitch.Engine.Executor.{ActiveRoute}
use nic_autoswitch.Engine.Dispatcher.{active_routes}
use nic_autoswitch.Daemon.Service.{DaemonService, routes_to_json, service_control}
use nic_autoswitch.Cli.Client.{outcome, get_routes}
use nic_autoswitch.Cli.Commands.{Output, formatted, no_active_routes, is_blank, print_routes}
use nic_autoswitch.Cli.Served.{served, Carries, send_command_refines}

-- What serde_json documents of maps and values: a map is written as an object with its entries, and a
-- value is read as itself.
pub record RoutesLaws (serde : Serde) : Type 0 where
  pub empty_map : serde.routes_to_value [] ≡ some (Json.object no_fields)
  pub other_map :
      (name : Text) (v : Json) (m : Map Text Json)
      → (key : Text) × (w : Json) × (rest : Fields) × (serde.routes_to_value ((name, v) ∷ m)
          ≡ some (Json.object (one_field key w rest)))
  pub value_same : (v : Json) → serde.value_from_value v ≡ some v

module _ (serde : Serde) (laws : RoutesLaws serde) (version : Text)
    (to_value : ActiveRoute → Option Json) (now : ℕ) (first second : FileRead)
    (s : DaemonService) where
  abbrev pub control : ControlState DaemonService
  control = service_control version to_value now first second

  -- The value that the daemon makes of a table of routes.
  abbrev written : Map Text ActiveRoute → Json
  written m = or_null (serde.routes_to_value (routes_to_json to_value m))

  abbrev shown : Json → Output
  shown v = if is_blank v then no_active_routes else formatted v

  shown_iff :
      (m : Map Text ActiveRoute)
      → (◌≡◌ {A = Result (List Output)} (ok (shown (written m) ∷ [])) (ok (no_active_routes ∷ [])))
        ↔ (m ≡ [])
  shown_iff [] = (λ h. refl, λ h. rw (laws.empty_map) refl)
  shown_iff ((name, r) ∷ m) =
      let (key, w, rest, e) =
        laws.other_map name (or_null (to_value r)) (routes_to_json to_value m) in
      (λ h. let h' = rw e at h in cc, λ h. cc)

  got :
      Carries serde control list_routes (handle_command serde control list_routes s).0
      → get_routes serde (served serde control s) ≡ ok (written (active_routes s.dispatcher))
  unfolding get_routes handle_command service_control outcome
  got carried =
      send_command_refines serde control serde.value_from_value list_routes s carried
      ∙ rw (laws.value_same (written (active_routes s.dispatcher))) refl

  -- Under the laws of serde_json for maps, and if the texts of the command and of the answer are read
  -- as what was written: the command `routes` tells that there are no active routes exactly if the
  -- dispatcher of the service records none.
  pub print_routes_iff :
      Carries serde control list_routes (handle_command serde control list_routes s).0
      → (print_routes serde (served serde control s) ≡ ok (no_active_routes ∷ []))
        ↔ (active_routes s.dispatcher ≡ [])
  unfolding print_routes
  print_routes_iff carried = rw (got carried) (shown_iff (active_routes s.dispatcher))
