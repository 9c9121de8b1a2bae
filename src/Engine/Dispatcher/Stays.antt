-- ===== src/Engine/Dispatcher/Stays.antt =====
-- src/engine/dispatcher.rs: the rules of a profile once its network is left.
use mathlib.Core.List.{Memᴰ}
use nic_autoswitch.Common.{◌≡◌, some, List, Text, Text-eq, ℕ-eq, get}
use nic_autoswitch.Ip.{IpCrate}
use nic_autoswitch.Config.{RouteRule, WifiProfile}
use nic_autoswitch.Router.Kernel.{Netlink}
use nic_autoswitch.Monitor.Events.{NetworkEvent}
use nic_autoswitch.Engine.Dispatcher.State.{
  EventDispatcher, get_table_id_for_interface, active_routes,
}
use nic_autoswitch.Engine.Dispatcher.Handle.{handle_wifi_connected, handle_events}
use nic_autoswitch.Engine.Dispatcher.Defaults.{IsApplicable, IsActive}
use nic_autoswitch.Engine.Dispatcher.Removing.{MayAll}
use nic_autoswitch.Engine.Dispatcher.Keeps.{keep_events_if}
use nic_autoswitch.Engine.Dispatcher.Wifi.{apply_rule-IsActive, handle_wifi_connected-activates}

module _ (net : IpCrate) {K : Type 0} (nl : Netlink K) where
  handle_events-IsActive :
      (es : List NetworkEvent) (d : EventDispatcher) (k : K) (n : Text)
      → MayAll ⊥ es
      → IsActive net nl n (active_routes d)
      → IsActive net nl n (active_routes (handle_events net nl es d k).0)
  unfolding active_routes
  handle_events-IsActive es d k n may h =
      keep_events_if net nl (λ x _. IsActive net nl n x.active_routes)
        (λ r t x k h. apply_rule-IsActive net nl r t x k n h) ⊥ (λ no. absurd no) es d k may h

  -- After a connection to a network with a profile, every rule of the profile that can be applied in
  -- the table of the interface is active, and stays so after any events among which no interface goes
  -- down or away, be it that the network is left or another one joined.
  pub handle_wifi_connected-stays :
      (i ssid : Text) (p : WifiProfile) (d : EventDispatcher) (k : K) (r : RouteRule)
      (es : List NetworkEvent)
      → get ssid d.config.wifi_profiles ≡ some p
      → Memᴰ r p.rules
      → IsApplicable net nl d.executor r (get_table_id_for_interface i d).0
      → MayAll ⊥ es
      → let (_, d1, k1) = handle_wifi_connected net nl i ssid d k in
        IsActive net nl r.name (active_routes (handle_events net nl es d1 k1).0)
  handle_wifi_connected-stays i ssid p d k r es found m h may =
      let (o, d1, k1) = handle_wifi_connected net nl i ssid d k in
      handle_events-IsActive es d1 k1 r.name may
        (handle_wifi_connected-activates net nl i ssid p d k r found m h)
