-- ===== src/Engine/Dispatcher/Initial.antt =====
-- src/engine/dispatcher.rs: the default rules at the start of the daemon.
use mathlib.Core.List.{Memᴰ}
use nic_autoswitch.Common.{◌≡◌, List, [], ◌∷◌, Text, Text-eq, ℕ-eq}
use nic_autoswitch.Ip.{IpCrate}
use nic_autoswitch.Config.{RouteRule}
use nic_autoswitch.Router.Kernel.{Netlink}
use nic_autoswitch.Monitor.State.{InterfaceInfo}
use nic_autoswitch.Engine.Dispatcher.State.{
  EventDispatcher, get_table_id_for_interface, active_routes,
}
use nic_autoswitch.Engine.Dispatcher.Apply.{apply_default_rules}
use nic_autoswitch.Engine.Dispatcher.Handle.{
  cleanup_stale_tables, update_all, qualifying, apply_for_each, apply_initial_state,
}
use nic_autoswitch.Engine.Dispatcher.Defaults.{
  apply_default_rules-keeps, apply_default_rules-activates, IsApplicable, IsActive,
}

module _ (net : IpCrate) {K : Type 0} (nl : Netlink K) where
  -- The dispatcher that knows the interfaces that were listed.
  abbrev pub informed : List InterfaceInfo → EventDispatcher → EventDispatcher
  informed l d = record d { network_state = update_all net nl l d.network_state }

  stays_for_each :
      (names : List Text) (d : EventDispatcher) (k : K) (n : Text)
      → IsActive net nl n (active_routes d)
      → IsActive net nl n (active_routes (apply_for_each net nl names d k).0)
  unfolding apply_for_each
  stays_for_each [] d k n h = h
  stays_for_each (name ∷ names) d k n (a, h) =
      let (o, d', k') = apply_default_rules net nl name d k in
      stays_for_each names d' k' n (a, apply_default_rules-keeps net nl name n d k a h)

  -- After the start on some interfaces, of which the first that is up and configured is `name`, every
  -- default rule that can be applied in the table of `name` is active.
  pub apply_initial_state-activates :
      (l : List InterfaceInfo) (d : EventDispatcher) (k : K) (name : Text) (names : List Text)
      (r : RouteRule)
      → qualifying net nl l (informed l d) ≡ name ∷ names
      → Memᴰ r d.config.routing.default_rules
      → IsApplicable net nl d.executor r (get_table_id_for_interface name (informed l d)).0
      → IsActive net nl r.name (active_routes (apply_initial_state net nl l d k).1)
  unfolding apply_initial_state apply_for_each
  apply_initial_state-activates l d k name names r first m h =
      let known = informed l d in
      let k' = cleanup_stale_tables net nl known k in
      let (o, d'', k'') = apply_default_rules net nl name known k' in
      rw first (
        stays_for_each names d'' k'' r.name
          (apply_default_rules-activates net nl name known k' r m h))
