-- ===== src/Tests/Backed.antt =====
-- src/engine: active routes and their entries in a kernel.
use nic_autoswitch.Common.{
  ◌≡◌, refl, ◌≢◌, false, none, some, [], ◌∷◌, arith, bytes, Text-discrete, Text-eq, ℕ-eq, get,
}
use nic_autoswitch.Tests.Samples.{
  sample_net, vpn0, office_rule, sample_manager, eth0_info, sample_dispatcher,
}
use nic_autoswitch.Common.{
  Text-discrete, none, ◌≡◌, refl, ◌≢◌, false, some, [], ◌∷◌, arith, bytes, Text-eq, ℕ-eq, get,
}
use nic_autoswitch.Ip.{IpNetwork, IpAddr-eq, IpNetwork-eq}
use nic_autoswitch.Config.{RouteRule, RouteRule-eq}
use nic_autoswitch.Config
use nic_autoswitch.Tests.Stored.{Stored, stored_netlink, stored_laws, stored_grow}
use nic_autoswitch.Router.Manager.{resolve_interface_index}
use nic_autoswitch.Router.Rules
use nic_autoswitch.Monitor.Events.{NetworkEvent}
use nic_autoswitch.Engine.Executor.{RuleExecutor, apply_rule, remove_rule}
use nic_autoswitch.Engine.Executor.Tracking.{entry}
use nic_autoswitch.Engine.Executor.Backed.{IsBacked}
use nic_autoswitch.Engine.Executor.Partial.{apply_rule_partial}
use nic_autoswitch.Error.{err, route, interface_not_found}
use nic_autoswitch.Router.Manager.{rule_request, add_policy_rule, add_route}
use nic_autoswitch.Engine.Executor.Shared.{remove_rule_shared}
use nic_autoswitch.Engine.Dispatcher.{
  EventDispatcher, active_routes, handle_events, apply_initial_state,
}
use nic_autoswitch.Engine.Dispatcher.Names.{rules_of}
use nic_autoswitch.Engine.Dispatcher.Backed.{startup-IsBacked}
use nic_autoswitch.Tests.Samples.{
  vpn0, sample_net, office_rule, sample_manager, eth0_info, sample_dispatcher,
}
use nic_autoswitch.Tests.Repeat.{small_netlink, small_laws, small_undo}

abbrev fresh_executor : RuleExecutor
fresh_executor = record { route_manager = sample_manager; active_routes = [] }

abbrev fresh_dispatcher : EventDispatcher
fresh_dispatcher = record sample_dispatcher { executor = fresh_executor }

abbrev joined : NetworkEvent
joined = NetworkEvent.wifi_connected (bytes "wlan0") (bytes "home")

-- A kernel with no entries.
abbrev bare : Stored
bare = (λ m. false, λ m. false)

startup-IsBacked_example :
    let (_, d, k) =
      apply_initial_state sample_net stored_netlink (eth0_info ∷ []) fresh_dispatcher bare in
    let (d', k') = handle_events sample_net stored_netlink (joined ∷ []) d k in
    IsBacked sample_net stored_netlink stored_laws (rules_of fresh_dispatcher.config) d'.executor k'
unfolding active_routes
startup-IsBacked_example =
    startup-IsBacked sample_net stored_netlink stored_laws stored_grow (eth0_info ∷ [])
      (joined ∷ []) fresh_dispatcher bare refl refl (tt, tt)

abbrev lab_rule : RouteRule
lab_rule = record office_rule { name = bytes "lab" }

other_name : bytes "office" ≢ bytes "lab"
other_name h = cc

remove_rule_shared_example :
    let (_, x1, k1) =
      apply_rule sample_net small_netlink office_rule 0 100 fresh_executor (false, false) in
    let (_, x2, k2) = apply_rule sample_net small_netlink lab_rule 0 100 x1 k1 in
    let (_, x3, k3) = remove_rule sample_net small_netlink office_rule 100 x2 k2 in
    (small_laws.HasRule (rule_request (some (IpNetwork.v4 167772160 8)) none 100 100) k3 → ⊥)
    × (get (bytes "lab") x3.active_routes ≡ some (entry lab_rule 100))
unfolding Rules.get_destination Rules.validate_rule Config.validate_rule resolve_interface_index
remove_rule_shared_example =
    remove_rule_shared sample_net small_netlink small_laws small_undo office_rule lab_rule
      (IpNetwork.v4 167772160 8) 100 2 fresh_executor (false, false) refl refl (omega arith)
      (refl, refl, refl, refl, refl, refl) (refl, refl, refl) refl other_name

-- 10.0.0.0/8 via an interface that is not there
abbrev vpn_rule : RouteRule
vpn_rule = record office_rule { route_via = record { interface = vpn0 } }

apply_rule_partial_example :
    ((apply_rule sample_net stored_netlink vpn_rule 0 100 fresh_executor bare).0
      ≡ err (route (interface_not_found vpn0)))
    × ((apply_rule sample_net stored_netlink vpn_rule 0 100 fresh_executor bare).1 ≡ fresh_executor)
    × stored_laws.HasRule
        (rule_request (some (IpNetwork.v4 167772160 8)) none 100 100)
        (apply_rule sample_net stored_netlink vpn_rule 0 100 fresh_executor bare).2
unfolding Rules.get_destination Rules.validate_rule Config.validate_rule add_policy_rule add_route
    Text-discrete
apply_rule_partial_example =
    apply_rule_partial sample_net stored_netlink stored_laws stored_grow vpn_rule
      (IpNetwork.v4 167772160 8) 0 100 fresh_executor bare (route (interface_not_found vpn0)) refl
      refl refl refl refl
