-- ===== src/Tests/Names.antt =====
-- src/engine/dispatcher.rs: the rules of the sample configuration, and two profiles that share a name.
use mathlib.Core.List.{Memᴰ, Permᴰ}
use nic_autoswitch.Common.{
  ◌≡◌, refl, ◌≢◌, true, some, [], ◌∷◌, Text, bytes, Text-discrete, Text-eq, ℕ-eq, values, get,
}
use nic_autoswitch.Ip.{IpNetwork, IpAddr-eq, IpNetwork-eq}
use nic_autoswitch.Config.{MatchOn, RouteRule, RouteRule-eq, WifiProfile}
use nic_autoswitch.Engine.Executor.{ActiveRoute}
use nic_autoswitch.Engine.Dispatcher.{EventDispatcher, rules_map, handle_interface_down}
use nic_autoswitch.Engine.Dispatcher.Names.{Distinct, rules_map-order}
use nic_autoswitch.Engine.Dispatcher.Unordered.{effect, handle_interface_down-unordered}
use nic_autoswitch.Tests.Flush.{two_routes}
use nic_autoswitch.Tests.Samples.{
  sample_net, wlan0, office_rule, host_rule, sample_config, sample_executor, sample_dispatcher,
}

-- 192.168.0.0/16, under the name that another network has for a host
abbrev cafe_rule : RouteRule
cafe_rule = record host_rule { match_on = MatchOn.cidr (IpNetwork.v4 3232235520 16) }

abbrev profile : RouteRule → WifiProfile
profile r = record { interface = wlan0; rules = r ∷ [] }

rules_map-order_example :
    (get (bytes "host") (
        rules_map (record sample_config {
          wifi_profiles =
              (bytes "home", profile host_rule) ∷ (bytes "cafe", profile cafe_rule) ∷ [];
        }))
      ≡ some cafe_rule)
    × (get (bytes "host") (
          rules_map (record sample_config {
            wifi_profiles =
                (bytes "cafe", profile cafe_rule) ∷ (bytes "home", profile host_rule) ∷ [];
          }))
        ≡ some host_rule)
unfolding Text-discrete
rules_map-order_example =
    rules_map-order (bytes "host") (bytes "home") (bytes "cafe") (profile host_rule)
      (profile cafe_rule) sample_config host_rule cafe_rule refl refl

-- A second network with a rule of its own, both active where the interface goes down.
abbrev guest_rule : RouteRule
guest_rule = record cafe_rule { name = bytes "guest" }

abbrev home : Text × WifiProfile
home = (bytes "home", profile host_rule)

abbrev guest : Text × WifiProfile
guest = (bytes "guest", profile guest_rule)

abbrev on_wlan0 : RouteRule → Text × ActiveRoute
on_wlan0 r = (r.name, record { rule_name = r.name; interface = wlan0; table_id = 101 })

abbrev two_networks : EventDispatcher
two_networks = record sample_dispatcher {
  config = record sample_config { wifi_profiles = home ∷ guest ∷ [] };
  executor = record sample_executor {
    active_routes = on_wlan0 guest_rule ∷ on_wlan0 host_rule ∷ [];
  };
}

not_office : (s : RouteRule) → Memᴰ s (host_rule ∷ guest_rule ∷ []) → s.name ≢ office_rule.name
not_office s (Memᴰ.head e) h = let h' = rw e at h in cc
not_office s (Memᴰ.tail (Memᴰ.head e)) h = let h' = rw e at h in cc
not_office s (Memᴰ.tail (Memᴰ.tail m)) h = elim m [ ]

not_host : (s : RouteRule) → Memᴰ s (guest_rule ∷ []) → s.name ≢ host_rule.name
not_host s (Memᴰ.head e) h = let h' = rw e at h in cc
not_host s (Memᴰ.tail m) h = elim m [ ]

none_after : (s : RouteRule) → Memᴰ s [] → s.name ≢ guest_rule.name
none_after s m = elim m [ ]

three_names : Distinct (office_rule ∷ host_rule ∷ guest_rule ∷ [])
three_names = (not_office, (not_host, (none_after, tt)))

handle_interface_down-unordered_example :
    effect (
      handle_interface_down sample_net two_routes wlan0
        (record two_networks {
          config = record two_networks.config { wifi_profiles = guest ∷ home ∷ [] };
        })
        (true, true))
    ≡ effect (handle_interface_down sample_net two_routes wlan0 two_networks (true, true))
unfolding values
handle_interface_down-unordered_example =
    handle_interface_down-unordered sample_net two_routes wlan0 two_networks (true, true)
      (guest ∷ home ∷ []) three_names (Permᴰ.swap refl refl)
