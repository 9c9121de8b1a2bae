-- ===== src/Engine/Dispatcher/Handle.antt =====
-- src/engine/dispatcher.rs: the event handlers and the start of the daemon.
use nic_autoswitch.Common.{
  ℕ, zero, suc, ◌+◌, Bool, false, not, ◌&&◌, Option, none, some, List, [], ◌∷◌, if◌then◌else◌, Text,
  Text-discrete, Text-eq, ℕ-eq, get, insert, remove, contains_key,
}
use nic_autoswitch.Error.{Result, ok, err}
use nic_autoswitch.Ip.{IpCrate}
use nic_autoswitch.Monitor.Events.{
  InterfaceChange, up, down, added, removed, NetworkEvent, interface,
}
use nic_autoswitch.Monitor.State.{
  NetworkState, InterfaceInfo, get_interface, apply_event, update_interface,
}
use nic_autoswitch.Router.Kernel.{Netlink}
use nic_autoswitch.Router.Manager.{RouteManager, flush_table_complete}
use nic_autoswitch.Router.Manager
use nic_autoswitch.Engine.Dispatcher.State.{is_running, EventDispatcher}
use nic_autoswitch.Engine.Dispatcher.Apply.{
  apply_default_rules, apply_rules_for_interface, handle_interface_down,
}

-- Whether an interface that came up gets the default rules: it is known and up, and has no SSID.
unfoldable pub should_apply : Text → EventDispatcher → Bool
unfolding get_interface get Text-discrete
should_apply interface d = elim (get_interface interface d.network_state) [
  | none ↦ false
  | some info ↦ info.is_up && not (contains_key interface d.current_ssids)
]

module _ (net : IpCrate) {K : Type 0} (nl : Netlink K) where
  unfoldable pub handle_interface_change :
      Text → InterfaceChange → EventDispatcher → K → Result (Unit {0}) × EventDispatcher × K
  unfolding handle_interface_down should_apply apply_default_rules
  handle_interface_change interface down d k = handle_interface_down net nl interface d k
  handle_interface_change interface removed d k = handle_interface_down net nl interface d k
  handle_interface_change interface up d k =
      if should_apply interface d then apply_default_rules net nl interface d k else (ok tt, d, k)
  handle_interface_change interface added d k = (ok tt, d, k)

  unfoldable pub handle_wifi_connected :
      (interface ssid : Text) → EventDispatcher → K → Result (Unit {0}) × EventDispatcher × K
  unfolding apply_rules_for_interface insert Text-discrete
  handle_wifi_connected interface ssid d k =
      apply_rules_for_interface net nl interface (some ssid)
        (record d { current_ssids = insert interface ssid d.current_ssids }) k

  unfoldable pub handle_wifi_disconnected :
      Text → Option Text → EventDispatcher → K → Result (Unit {0}) × EventDispatcher × K
  unfolding apply_default_rules remove Text-discrete
  handle_wifi_disconnected interface last_ssid d k =
      apply_default_rules net nl interface
        (record d { current_ssids = remove interface d.current_ssids }) k

  unfoldable pub handle_address_change :
      Text → EventDispatcher → K → Result (Unit {0}) × EventDispatcher × K
  unfolding apply_rules_for_interface get Text-discrete
  handle_address_change interface d k =
      apply_rules_for_interface net nl interface (get interface d.current_ssids) d k

  -- the `match` of `handle_event`
  unfoldable pub process_event :
      NetworkEvent → EventDispatcher → K → Result (Unit {0}) × EventDispatcher × K
  unfolding handle_interface_change handle_wifi_connected handle_wifi_disconnected
      handle_address_change
  process_event (NetworkEvent.interface_changed i change) d k = handle_interface_change i change d k
  process_event (NetworkEvent.wifi_connected i ssid) d k = handle_wifi_connected i ssid d k
  process_event (NetworkEvent.wifi_disconnected i last) d k = handle_wifi_disconnected i last d k
  process_event (NetworkEvent.address_changed i new old) d k = handle_address_change i d k
  process_event (NetworkEvent.route_changed i destination gateway new) d k = (ok tt, d, k)

  abbrev pub process_if :
      Result (Unit {0})
      → NetworkEvent
      → EventDispatcher
      → K
      → Result (Unit {0}) × EventDispatcher × K
  process_if (ok _) event d k = process_event event d k
  process_if (err e) event d k = (err e, d, k)

  unfoldable pub handle_event :
      NetworkEvent → EventDispatcher → K → Result (Unit {0}) × EventDispatcher × K
  unfolding apply_event process_event
  handle_event event d k =
      let (applied, network_state) = apply_event event d.network_state in
      let handled = process_if applied event (record d { network_state = network_state }) k in
      if is_running d.state then handled else (ok tt, d, k)

  -- src/daemon/service.rs, `for event in events` of `poll_network_changes`: an error is logged only
  unfoldable pub handle_events : List NetworkEvent → EventDispatcher → K → EventDispatcher × K
  unfolding handle_event
  handle_events [] d k = (d, k)
  handle_events (e ∷ es) d k = let (_, d', k') = handle_event e d k in handle_events es d' k'

  abbrev pub max_interfaces : ℕ
  max_interfaces = 32

  -- the loop of `cleanup_stale_tables`; counts and failures are logged only
  unfoldable pub flush_tables : RouteManager → (base : ℕ) → (rounds idx : ℕ) → K → K
  unfolding flush_table_complete
  flush_tables rm base zero idx k = k
  flush_tables rm base (suc rounds) idx k =
      let (_, k') = flush_table_complete nl rm (base + idx) k in
      let (_, k'') = flush_table_complete nl rm (200 + idx) k' in
      flush_tables rm base rounds (suc idx) k''

  unfoldable pub cleanup_stale_tables : EventDispatcher → K → K
  unfolding flush_tables Manager.table_id_v4
  cleanup_stale_tables d k =
      let rm = d.executor.route_manager in
      flush_tables rm (Manager.table_id_v4 rm 0) max_interfaces 0 k

  unfoldable pub update_all : List InterfaceInfo → NetworkState → NetworkState
  unfolding update_interface insert Text-discrete
  update_all [] s = s
  update_all (i ∷ l) s = update_all l (update_interface i s)

  -- The names of the interfaces that are up and configured.
  unfoldable pub qualifying : List InterfaceInfo → EventDispatcher → List Text
  unfolding get Text-discrete
  qualifying [] d = []
  qualifying (i ∷ l) d =
      let rest = qualifying l d in
      if i.is_up && contains_key i.name d.config.interfaces then i.name ∷ rest else rest

  unfoldable pub apply_for_each : List Text → EventDispatcher → K → EventDispatcher × K
  unfolding apply_default_rules
  apply_for_each [] d k = (d, k)
  apply_for_each (name ∷ names) d k =
      let (_, d', k') = apply_default_rules net nl name d k in apply_for_each names d' k'

  unfoldable pub apply_initial_state :
      List InterfaceInfo → EventDispatcher → K → Result (Unit {0}) × EventDispatcher × K
  unfolding update_all cleanup_stale_tables qualifying apply_for_each
  apply_initial_state interfaces d k =
      let known = record d { network_state = update_all interfaces d.network_state } in
      let (d', k') =
        apply_for_each (qualifying interfaces known) known (cleanup_stale_tables known k) in
      (ok tt, d', k')
