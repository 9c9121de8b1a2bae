-- ===== src/Engine/Dispatcher/Fixed.antt =====
-- src/engine/dispatcher.rs: no event changes the configuration of the dispatcher or whether it runs.
use nic_autoswitch.Common.{
  ℕ, ◌≡◌, refl, ◌∙◌, inl, inr, true, Option, some, List, [], ◌∷◌, Bool-cases, Option-cases, Text,
  Text-eq, ℕ-eq, get, insert, remove,
}
use nic_autoswitch.Error.{Result, ok, err}
use nic_autoswitch.Ip.{IpCrate}
use nic_autoswitch.Config.{RouteRule, RouteRule-eq}
use nic_autoswitch.Router.Kernel.{Netlink}
use nic_autoswitch.Monitor.Events.{InterfaceChange, up, down, added, removed, NetworkEvent}
use nic_autoswitch.Monitor.State.{InterfaceInfo}
use nic_autoswitch.Engine.Dispatcher.State.{
  is_running, EventDispatcher, start, index_of_interface, get_table_id_for_interface,
}
use nic_autoswitch.Engine.Dispatcher.Apply.{
  apply_some, apply_default_rules, ignore_count, profile_of, apply_rules_for_interface,
  handle_interface_down,
}
use nic_autoswitch.Engine.Dispatcher.Handle.{
  should_apply, handle_interface_change, process_event, process_if, handle_event, handle_events,
  cleanup_stale_tables, update_all, qualifying, apply_for_each, apply_initial_state,
}

pub record IsSame (d d' : EventDispatcher) : Type 0 where
  pub config : d'.config ≡ d.config
  pub state : d'.state ≡ d.state

abbrev unchanged : (d : EventDispatcher) → IsSame d d
unchanged d = record { config = refl; state = refl }

IsSame-trans : (a b c : EventDispatcher) → IsSame a b → IsSame b c → IsSame a c
IsSame-trans a b c h h' = record { config = h'.config ∙ h.config; state = h'.state ∙ h.state }

table_same : (i : Text) (d : EventDispatcher) → IsSame d (get_table_id_for_interface i d).1
unfolding get_table_id_for_interface index_of_interface
table_same i d = elim (Option-cases (get i d.interface_indices)) [
  | inl missing ↦ rw (missing, index_of_interface) (record { config = refl; state = refl })
  | inr (n, found) ↦ rw (found, index_of_interface) (unchanged d)
]

-- A dispatcher that was started runs, and keeps its configuration and its executor.
pub start_lem :
    (d : EventDispatcher)
    → (is_running (start d).state ≡ true)
      × ((start d).config ≡ d.config)
      × ((start d).executor ≡ d.executor)
unfolding start
start_lem d = elim (Bool-cases (is_running d.state)) [
  | inl on ↦ rw on (on, refl, refl)
  | inr off ↦ rw off (refl, refl, refl)
]

module _ (net : IpCrate) {K : Type 0} (nl : Netlink K) where
  abbrev Same : EventDispatcher → Result (Unit {0}) × EventDispatcher × K → Type 0
  Same d o = IsSame d o.1

  pub defaults-Same :
      (i : Text) (d : EventDispatcher) (k : K) → Same d (apply_default_rules net nl i d k)
  unfolding apply_default_rules
  defaults-Same i d k = some_rules d.config.routing.default_rules
    where
      some_rules : (rs : List RouteRule) → Same d (apply_some net nl rs i d k)
      some_rules [] = unchanged d
      some_rules (r ∷ rs) = let h = table_same i d in record { config = h.config; state = h.state }

  ignored-Same :
      (d : EventDispatcher) (o : Result ℕ × EventDispatcher × K)
      → IsSame d o.1
      → Same d (ignore_count net nl o)
  ignored-Same d (ok c, d', k) h = h
  ignored-Same d (err f, d', k) h = h

  interface-Same :
      (i : Text) (ssid : Option Text) (d : EventDispatcher) (k : K)
      → Same d (apply_rules_for_interface net nl i ssid d k)
  unfolding apply_rules_for_interface
  interface-Same i ssid d k = elim (Option-cases (profile_of net nl ssid d)) [
    | inl missing ↦ rw (missing, apply_rules_for_interface) (defaults-Same i d k)
    | inr (p, found) ↦
        let h = table_same i d in
        rw (found, apply_rules_for_interface)
          (ignored-Same d _ (record { config = h.config; state = h.state }))
  ]

  change-Same :
      (i : Text) (c : InterfaceChange) (d : EventDispatcher) (k : K)
      → Same d (handle_interface_change net nl i c d k)
  unfolding handle_interface_change handle_interface_down
  change-Same i down d k = record { config = refl; state = refl }
  change-Same i removed d k = record { config = refl; state = refl }
  change-Same i added d k = unchanged d
  change-Same i up d k = elim (Bool-cases (should_apply i d)) [
    | inl apply ↦ rw apply (defaults-Same i d k)
    | inr skip ↦ rw skip (unchanged d)
  ]

  -- The record of the SSIDs, or of the network, is another.
  process-Same :
      (e : NetworkEvent) (d : EventDispatcher) (k : K) → Same d (process_event net nl e d k)
  unfolding process_event
  process-Same (NetworkEvent.interface_changed i c) d k = change-Same i c d k
  process-Same (NetworkEvent.wifi_connected i ssid) d k =
      let h =
        interface-Same i (some ssid) (record d { current_ssids = insert i ssid d.current_ssids })
          k in
      record { config = h.config; state = h.state }
  process-Same (NetworkEvent.wifi_disconnected i last) d k =
      let h = defaults-Same i (record d { current_ssids = remove i d.current_ssids }) k in
      record { config = h.config; state = h.state }
  process-Same (NetworkEvent.address_changed i new old) d k =
      interface-Same i (get i d.current_ssids) d k
  process-Same (NetworkEvent.route_changed i n g b) d k = unchanged d

  applied-Same :
      (applied : Result (Unit {0})) (e : NetworkEvent) (d d' : EventDispatcher) (k : K)
      → IsSame d d'
      → Same d (process_if net nl applied e d' k)
  applied-Same (ok x) e d d' k h = IsSame-trans d d' _ h (process-Same e d' k)
  applied-Same (err x) e d d' k h = h

  pub event-Same :
      (e : NetworkEvent) (d : EventDispatcher) (k : K) → Same d (handle_event net nl e d k)
  unfolding handle_event
  event-Same e d k = elim (Bool-cases (is_running d.state)) [
    | inl on ↦ rw on (applied-Same _ e d _ k (record { config = refl; state = refl }))
    | inr off ↦ rw off (unchanged d)
  ]

  pub events_same :
      (es : List NetworkEvent) (d : EventDispatcher) (k : K)
      → IsSame d (handle_events net nl es d k).0
  unfolding handle_events
  events_same [] d k = unchanged d
  events_same (e ∷ es) d k =
      let (o, d', k') = handle_event net nl e d k in
      IsSame-trans d d' _ (event-Same e d k) (events_same es d' k')

  for_each_same :
      (names : List Text) (d : EventDispatcher) (k : K)
      → IsSame d (apply_for_each net nl names d k).0
  unfolding apply_for_each
  for_each_same [] d k = unchanged d
  for_each_same (name ∷ names) d k =
      let (o, d', k') = apply_default_rules net nl name d k in
      IsSame-trans d d' _ (defaults-Same name d k) (for_each_same names d' k')

  pub initial-Same :
      (l : List InterfaceInfo) (d : EventDispatcher) (k : K)
      → Same d (apply_initial_state net nl l d k)
  unfolding apply_initial_state
  initial-Same l d k =
      let known = record d { network_state = update_all net nl l d.network_state } in
      let h =
        for_each_same (qualifying net nl l known) known (cleanup_stale_tables net nl known k) in
      record { config = h.config; state = h.state }
