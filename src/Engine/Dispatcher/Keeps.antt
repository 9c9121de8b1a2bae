-- ===== src/Engine/Dispatcher/Keeps.antt =====
-- src/engine/dispatcher.rs: what every handler keeps, if applying and removing one rule keep it.
use nic_autoswitch.Common.{
  ℕ, ◌≡◌, inl, inr, Option, some, List, [], ◌∷◌, arith, Bool-cases, Option-cases, Text, Text-eq,
  ℕ-eq, Map, get, insert, remove,
}
use nic_autoswitch.Error.{Result, ok, err, Result-cases}
use nic_autoswitch.Ip.{IpCrate}
use nic_autoswitch.Config.{RouteRule}
use nic_autoswitch.Router.Kernel.{Netlink}
use nic_autoswitch.Monitor.Events.{InterfaceChange, up, down, added, removed, NetworkEvent}
use nic_autoswitch.Monitor.State.{apply_event}
use nic_autoswitch.Engine.Executor.{
  RuleExecutor, is_route_active, count_ok, apply_rule, remove_rule, apply_rules,
}
use nic_autoswitch.Engine.Dispatcher.State.{is_running, EventDispatcher, get_table_id_for_interface}
use nic_autoswitch.Engine.Dispatcher.Removing.{MayRemove, May, MayAll, may_all}
use nic_autoswitch.Engine.Dispatcher.Apply.{
  rules_map, routes_via, apply_each, apply_some, apply_default_rules, ignore_count, profile_of,
  apply_rules_for_interface, remove_each, handle_interface_down,
}
use nic_autoswitch.Engine.Dispatcher.Handle.{
  should_apply, handle_interface_change, process_event, process_if, handle_event, handle_events,
  apply_for_each,
}

-- The index of an interface leaves the executor as it is.
pub executor-get_table_id :
    (i : Text) (d : EventDispatcher) → (get_table_id_for_interface i d).1.executor ≡ d.executor
unfolding get_table_id_for_interface
executor-get_table_id i d = ground arith

module _ (net : IpCrate) {K : Type 0} (nl : Netlink K) (P : RuleExecutor → K → Type 0)
    (keep_apply : (r : RouteRule) (t : ℕ) (x : RuleExecutor) (k : K)
      → P x k
      → P (apply_rule net nl r 0 t x k).1 (apply_rule net nl r 0 t x k).2) where
  keep_rules :
      (rs : List RouteRule) (t n : ℕ) (x : RuleExecutor) (k : K)
      → P x k
      → P (apply_rules net nl rs 0 t n x k).1 (apply_rules net nl rs 0 t n x k).2
  unfolding apply_rules
  keep_rules [] t n x k h = h
  keep_rules (r ∷ rs) t n x k h =
      let (o, x', k') = apply_rule net nl r 0 t x k in
      keep_rules rs t (count_ok o n) x' k' (keep_apply r t x k h)

  keep_each :
      (rs : List RouteRule) (t : ℕ) (x : RuleExecutor) (k : K)
      → P x k
      → P (apply_each net nl rs t x k).0 (apply_each net nl rs t x k).1
  unfolding apply_each
  keep_each [] t x k h = h
  keep_each (r ∷ rs) t x k h = elim (Bool-cases (is_route_active r.name x)) [
    | inl old ↦ rw old (keep_each rs t x k h)
    | inr new ↦
        let (o, x', k') = apply_rule net nl r 0 t x k in
        rw new (keep_each rs t x' k' (keep_apply r t x k h))
  ]

  abbrev pub Kept : Result (Unit {0}) × EventDispatcher × K → Type 0
  Kept (o, d, k) = P d.executor k

  keep_some :
      (rs : List RouteRule) (i : Text) (d : EventDispatcher) (k : K)
      → P d.executor k
      → Kept (apply_some net nl rs i d k)
  keep_some [] i d k h = h
  keep_some (r ∷ rs) i d k h = keep_each (r ∷ rs) _ _ k (rw executor-get_table_id h)

  keep_defaults :
      (i : Text) (d : EventDispatcher) (k : K)
      → P d.executor k
      → Kept (apply_default_rules net nl i d k)
  unfolding apply_default_rules
  keep_defaults i d k h = keep_some d.config.routing.default_rules i d k h

  keep_ignored :
      (o : Result ℕ × EventDispatcher × K) → P o.1.executor o.2 → Kept (ignore_count net nl o)
  keep_ignored (ok n, d, k) h = h
  keep_ignored (err e, d, k) h = h

  keep_interface :
      (i : Text) (ssid : Option Text) (d : EventDispatcher) (k : K)
      → P d.executor k
      → Kept (apply_rules_for_interface net nl i ssid d k)
  unfolding apply_rules_for_interface
  keep_interface i ssid d k h = elim (Option-cases (profile_of net nl ssid d)) [
    | inl missing ↦ rw (missing, apply_rules_for_interface) (keep_defaults i d k h)
    | inr (p, found) ↦
        rw (found, apply_rules_for_interface)
          (keep_ignored _ (keep_rules p.rules _ 0 _ k (rw executor-get_table_id h)))
  ]

  pub keep_for_each :
      (names : List Text) (d : EventDispatcher) (k : K)
      → P d.executor k
      → P (apply_for_each net nl names d k).0.executor (apply_for_each net nl names d k).1
  unfolding apply_for_each
  keep_for_each [] d k h = h
  keep_for_each (name ∷ names) d k h =
      let (o, d', k') = apply_default_rules net nl name d k in
      keep_for_each names d' k' (keep_defaults name d k h)

  module _ (R : Type 0)
      (keep_remove : R
        → (r : RouteRule) (t : ℕ) (x : RuleExecutor) (k : K) → P x k
        → P (remove_rule net nl r t x k).1 (remove_rule net nl r t x k).2) where
    keep_removed :
        R
        → (m : Map Text RouteRule) (l : List (Text × ℕ)) (x : RuleExecutor) (k : K) → P x k
        → P (remove_each net nl m l x k).0 (remove_each net nl m l x k).1
    unfolding remove_each
    keep_removed may m [] x k h = h
    keep_removed may m ((name, t) ∷ l) x k h = elim (Option-cases (get name m)) [
      | inl missing ↦ rw (missing, remove_each) (keep_removed may m l x k h)
      | inr (r, found) ↦
          let (o, x', k') = remove_rule net nl r t x k in
          rw (found, remove_each) (keep_removed may m l x' k' (keep_remove may r t x k h))
    ]

    keep_down :
        (i : Text) (d : EventDispatcher) (k : K)
        → R
        → P d.executor k
        → Kept (handle_interface_down net nl i d k)
    unfolding handle_interface_down
    keep_down i d k may h =
        keep_removed may (rules_map d.config) (routes_via i d.executor.active_routes) d.executor k h

    keep_change :
        (i : Text) (c : InterfaceChange) (d : EventDispatcher) (k : K)
        → MayRemove R c
        → P d.executor k
        → Kept (handle_interface_change net nl i c d k)
    unfolding handle_interface_change
    keep_change i down d k may h = keep_down i d k may h
    keep_change i removed d k may h = keep_down i d k may h
    keep_change i added d k may h = h
    keep_change i up d k may h = elim (Bool-cases (should_apply i d)) [
      | inl apply ↦ rw apply (keep_defaults i d k h)
      | inr skip ↦ rw skip h
    ]

    keep_process :
        (e : NetworkEvent) (d : EventDispatcher) (k : K)
        → May R e
        → P d.executor k
        → Kept (process_event net nl e d k)
    unfolding process_event
    keep_process (NetworkEvent.interface_changed i c) d k may h = keep_change i c d k may h
    keep_process (NetworkEvent.wifi_connected i ssid) d k may h =
        keep_interface i (some ssid) (record d { current_ssids = insert i ssid d.current_ssids }) k
          h
    keep_process (NetworkEvent.wifi_disconnected i last) d k may h =
        keep_defaults i (record d { current_ssids = remove i d.current_ssids }) k h
    keep_process (NetworkEvent.address_changed i new old) d k may h =
        keep_interface i (get i d.current_ssids) d k h
    keep_process (NetworkEvent.route_changed i n g b) d k may h = h

    keep_if_applied :
        (e : NetworkEvent) (d : EventDispatcher) (k : K)
        → May R e
        → P d.executor k
        → Kept (
            process_if net nl
              (apply_event e d.network_state).0
              e
              (record d { network_state = (apply_event e d.network_state).1 })
              k)
    keep_if_applied e d k may h = elim (Result-cases (apply_event e d.network_state).0) [
      | inl applied ↦
          rw applied (
            keep_process e (record d { network_state = (apply_event e d.network_state).1 }) k may h)
      | inr (x, failed) ↦ rw failed h
    ]

    keep_event_if :
        (e : NetworkEvent) (d : EventDispatcher) (k : K)
        → May R e
        → P d.executor k
        → Kept (handle_event net nl e d k)
    unfolding handle_event
    keep_event_if e d k may h = elim (Bool-cases (is_running d.state)) [
      | inl on ↦ rw on (keep_if_applied e d k may h)
      | inr off ↦ rw off h
    ]

    pub keep_events_if :
        (es : List NetworkEvent) (d : EventDispatcher) (k : K)
        → MayAll R es
        → P d.executor k
        → P (handle_events net nl es d k).0.executor (handle_events net nl es d k).1
    unfolding handle_events
    keep_events_if [] d k may h = h
    keep_events_if (e ∷ es) d k may h =
        let (o, d', k') = handle_event net nl e d k in
        keep_events_if es d' k' may.1 (keep_event_if e d k may.0 h)

  pub keep_events :
      ((r : RouteRule) (t : ℕ) (x : RuleExecutor) (k : K)
        → P x k
        → P (remove_rule net nl r t x k).1 (remove_rule net nl r t x k).2)
      → (es : List NetworkEvent) (d : EventDispatcher) (k : K) → P d.executor k
      → P (handle_events net nl es d k).0.executor (handle_events net nl es d k).1
  keep_events keep_remove es d k h = keep_events_if Unit (λ _. keep_remove) es d k (may_all es) h
