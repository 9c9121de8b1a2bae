-- ===== src/Tests/Dispatcher.antt =====
-- src/engine/dispatcher.rs: events for a dispatcher with one active route.
use mathlib.Core.List.{Memᴰ}
use mathlib.Core.Option.{some-injective}
use nic_autoswitch.Common.{
  ◌≡◌, refl, ap, ◌⊎◌, none, [], arith, Text, bytes, Text-discrete, Text-eq, ℕ-eq, get, values,
}
use nic_autoswitch.Config.{Config, validate_rule}
use nic_autoswitch.Router.Rules
use nic_autoswitch.Engine.Executor.Tracking.{entry}
use nic_autoswitch.Engine.Dispatcher.{
  EventDispatcher, update_config, active_routes, rules_map, apply_default_rules,
  handle_interface_down,
}
use nic_autoswitch.Engine.Dispatcher.Down.{
  NotVia, handle_interface_down-keeps, DownFails, handle_interface_down-removes,
}
use nic_autoswitch.Engine.Dispatcher.Forgotten.{handle_interface_down-update_config}
use nic_autoswitch.Engine.Dispatcher.Defaults.{IsActive, apply_default_rules-activates}
use nic_autoswitch.Tests.Samples.{
  sample_net, sample_netlink, eth0, wlan0, office_rule, sample_config, sample_executor,
  sample_dispatcher,
}
use nic_autoswitch.Tests.Executor.{sample-IsTracked}

abbrev office : Text
office = bytes "office"

NotVia-wlan0 : NotVia wlan0 office (active_routes sample_dispatcher)
unfolding active_routes get Text-discrete
NotVia-wlan0 a e via =
    let same : eth0 ≡ a.interface = ap (λ x. x.interface) (some-injective _ a e) in
    ground (arith, same, via)

handle_interface_down-keeps_example :
    get office
      (active_routes (handle_interface_down sample_net sample_netlink wlan0 sample_dispatcher 0).1)
    ≡ get office (active_routes sample_dispatcher)
handle_interface_down-keeps_example =
    handle_interface_down-keeps sample_net sample_netlink wlan0 office sample_dispatcher 0
      sample-IsTracked NotVia-wlan0

handle_interface_down-removes_example :
    (get office
        (active_routes (handle_interface_down sample_net sample_netlink eth0 sample_dispatcher 0).1)
      ≡ none)
    ⊎ DownFails sample_net sample_netlink eth0 office_rule 100 sample_dispatcher 0
unfolding active_routes rules_map get
handle_interface_down-removes_example =
    handle_interface_down-removes sample_net sample_netlink eth0 office_rule (entry office_rule 100)
      sample_dispatcher 0 refl refl refl

-- A configuration without the rule that is active.
abbrev no_rules : Config
no_rules = record sample_config { wifi_profiles = []; routing = record { default_rules = [] } }

handle_interface_down-update_config_example :
    get office (
      active_routes
        (handle_interface_down sample_net sample_netlink eth0
          (update_config no_rules sample_dispatcher)
          0).1)
    ≡ get office (active_routes sample_dispatcher)
unfolding rules_map get values
handle_interface_down-update_config_example =
    handle_interface_down-update_config sample_net sample_netlink eth0 office no_rules
      sample_dispatcher 0 refl

abbrev idle_dispatcher : EventDispatcher
idle_dispatcher = record sample_dispatcher {
  executor = record sample_executor { active_routes = [] };
}

apply_default_rules-activates_example :
    IsActive sample_net sample_netlink office
      (active_routes (apply_default_rules sample_net sample_netlink eth0 idle_dispatcher 0).1)
unfolding Rules.validate_rule validate_rule Rules.apply_rule
apply_default_rules-activates_example =
    apply_default_rules-activates sample_net sample_netlink eth0 idle_dispatcher 0 office_rule
      (Memᴰ.head refl) (λ k. refl)
