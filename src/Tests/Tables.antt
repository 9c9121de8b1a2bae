-- ===== src/Tests/Tables.antt =====
-- src/engine/dispatcher.rs: an evening of events, and a known network that is joined and left.
use mathlib.Core.List.{Memᴰ}
use nic_autoswitch.Common.{
  refl, some, List, [], ◌∷◌, arith, bytes, Text-discrete, Text-eq, ℕ-eq, get,
}
use nic_autoswitch.Config.{validate_rule, WifiProfile}
use nic_autoswitch.Router.Rules
use nic_autoswitch.Engine.Dispatcher.{active_routes, handle_wifi_connected, handle_events}
use nic_autoswitch.Engine.Dispatcher.Indices.{IsInjective}
use nic_autoswitch.Engine.Dispatcher.Tables.{handle_events-IsInjective}
use nic_autoswitch.Engine.Dispatcher.Defaults.{IsActive}
use nic_autoswitch.Engine.Dispatcher.Stays.{handle_wifi_connected-stays}
use nic_autoswitch.Monitor.Events.{NetworkEvent}
use nic_autoswitch.Tests.Samples.{
  sample_net, sample_netlink, wlan0, vpn0, host_rule, sample_dispatcher,
}
use nic_autoswitch.Tests.Indices.{sample-IsInjective, sample-IsBelow}

abbrev at_home : NetworkEvent
at_home = NetworkEvent.wifi_connected vpn0 (bytes "home")

handle_events-IsInjective_example :
    IsInjective
      (handle_events sample_net sample_netlink
        (at_home ∷ [])
        sample_dispatcher
        0).0.interface_indices
handle_events-IsInjective_example =
    handle_events-IsInjective sample_net sample_netlink (at_home ∷ []) sample_dispatcher 0
      (sample-IsInjective, sample-IsBelow) (omega arith)

abbrev home_profile : WifiProfile
home_profile = record { interface = wlan0; rules = host_rule ∷ [] }

abbrev left_and_joined : List NetworkEvent
left_and_joined =
    NetworkEvent.wifi_disconnected wlan0 (some (bytes "home"))
    ∷ NetworkEvent.wifi_connected wlan0 (bytes "cafe")
    ∷ []

handle_wifi_connected-stays_example :
    let (_, d1, k1) =
      handle_wifi_connected sample_net sample_netlink wlan0 (bytes "home") sample_dispatcher 0 in
    IsActive sample_net sample_netlink
      (bytes "host")
      (active_routes (handle_events sample_net sample_netlink left_and_joined d1 k1).0)
unfolding get Text-discrete Rules.validate_rule validate_rule Rules.apply_rule
handle_wifi_connected-stays_example =
    handle_wifi_connected-stays sample_net sample_netlink wlan0 (bytes "home") home_profile
      sample_dispatcher 0 host_rule left_and_joined refl (Memᴰ.head refl) (λ k. refl) (tt, (tt, tt))
