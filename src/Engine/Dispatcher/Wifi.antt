-- ===== src/Engine/Dispatcher/Wifi.antt =====
-- src/engine/dispatcher.rs: what a connection to a known WiFi network does.
use nic_autoswitch.Engine.Dispatcher.Keeps.{executor-get_table_id}
use mathlib.Core.List.{Memᴰ}
use mathlib.Core.Path.{subst}
use nic_autoswitch.Common.{
  ℕ, ◌≡◌, refl, sym, some, List, [], ◌∷◌, arith, Text, Text-discrete, Text-eq, ℕ-eq, Map, get,
  insert, get-insert,
}
use nic_autoswitch.Error.{Result, ok, err}
use nic_autoswitch.Ip.{IpCrate}
use nic_autoswitch.Config.{RouteRule, RouteRule-eq, WifiProfile}
use nic_autoswitch.Router.Kernel.{Netlink}
use nic_autoswitch.Engine.Executor.{
  RuleExecutor, track_active_route, count_ok, apply_rule, apply_rules, apply_wifi_profile,
}
use nic_autoswitch.Engine.Executor.Tracking.{entry}
use nic_autoswitch.Engine.Executor.Invariant.{apply_rule_cases}
use nic_autoswitch.Engine.Dispatcher.State.{
  EventDispatcher, get_table_id_for_interface, active_routes,
}
use nic_autoswitch.Engine.Dispatcher.Apply.{ignore_count, apply_rules_for_interface}
use nic_autoswitch.Engine.Dispatcher.Handle.{handle_wifi_connected}
use nic_autoswitch.Engine.Dispatcher.Defaults.{IsApplicable, applied_active, same_manager, IsActive}

-- The table of an interface does not depend on the SSIDs.
table_of_ssids :
    (i : Text) (d : EventDispatcher) (ssids : Map Text Text)
    → (get_table_id_for_interface i (record d { current_ssids = ssids })).0
      ≡ (get_table_id_for_interface i d).0
unfolding get_table_id_for_interface
table_of_ssids i d ssids = ground arith

module _ (net : IpCrate) {K : Type 0} (nl : Netlink K) where
  pub apply_rule-IsActive :
      (r : RouteRule) (t : ℕ) (x : RuleExecutor) (k : K) (n : Text)
      → IsActive net nl n x.active_routes
      → IsActive net nl n (apply_rule net nl r 0 t x k).1.active_routes
  apply_rule-IsActive r t x k n h =
      apply_rule_cases net nl (λ y. IsActive net nl n y.active_routes) r 0 t x k h
        (unfold track_active_route in
          elim (Text-discrete r.name n) [
            | yes e ↦ (entry r t, rw get-insert (ground (arith, e)))
            | no ne ↦ (h.0, rw get-insert (ground (arith, h.1)))
          ])

  apply_rules-keeps :
      (rs : List RouteRule) (t c : ℕ) (x : RuleExecutor) (k : K) (n : Text)
      → IsActive net nl n x.active_routes
      → IsActive net nl n (apply_rules net nl rs 0 t c x k).1.active_routes
  unfolding apply_rules
  apply_rules-keeps [] t c x k n h = h
  apply_rules-keeps (r ∷ rs) t c x k n h =
      let (o, x', k') = apply_rule net nl r 0 t x k in
      apply_rules-keeps rs t (count_ok o c) x' k' n (apply_rule-IsActive r t x k n h)

  apply_rules-activates :
      (rs : List RouteRule) (t c : ℕ) (x : RuleExecutor) (k : K) (r : RouteRule)
      → Memᴰ r rs
      → IsApplicable net nl x r t
      → IsActive net nl r.name (apply_rules net nl rs 0 t c x k).1.active_routes
  unfolding apply_rules
  apply_rules-activates [] t c x k r m h = elim m [ ]
  apply_rules-activates (s ∷ rs) t c x k r (Memᴰ.head e) h =
      let (o, x', k') = apply_rule net nl s 0 t x k in
      apply_rules-keeps rs t (count_ok o c) x' k' r.name
        (rw (sym e) (entry r t, applied_active net nl r t x k h))
  apply_rules-activates (s ∷ rs) t c x k r (Memᴰ.tail m) h =
      let (o, x', k') = apply_rule net nl s 0 t x k in
      apply_rules-activates rs t (count_ok o c) x' k' r m
        (λ k''. rw (same_manager net nl s t x k) (h k''))

  ignored_executor :
      (o : Result ℕ × EventDispatcher × K) → (ignore_count net nl o).1.executor ≡ o.1.executor
  ignored_executor (ok n, d, k) = refl
  ignored_executor (err e, d, k) = refl

  interface-activates :
      (i ssid : Text) (p : WifiProfile) (d : EventDispatcher) (k : K) (r : RouteRule)
      → get ssid d.config.wifi_profiles ≡ some p
      → Memᴰ r p.rules
      → IsApplicable net nl d.executor r (get_table_id_for_interface i d).0
      → IsActive net nl r.name
          (apply_rules_for_interface net nl i (some ssid) d k).1.executor.active_routes
  unfolding apply_rules_for_interface apply_wifi_profile
  interface-activates i ssid p d k r found m h =
      rw (found, apply_rules_for_interface)
        (rw ignored_executor (
          apply_rules-activates p.rules _ 0 _ k r m (
            subst (λ x. IsApplicable net nl x r (get_table_id_for_interface i d).0)
              (sym (executor-get_table_id i d)) h)))

  -- After a connection to a network with a profile, every rule of the profile that can be applied in
  -- the table of the interface is active.
  pub handle_wifi_connected-activates :
      (i ssid : Text) (p : WifiProfile) (d : EventDispatcher) (k : K) (r : RouteRule)
      → get ssid d.config.wifi_profiles ≡ some p
      → Memᴰ r p.rules
      → IsApplicable net nl d.executor r (get_table_id_for_interface i d).0
      → IsActive net nl r.name (active_routes (handle_wifi_connected net nl i ssid d k).1)
  unfolding handle_wifi_connected active_routes
  handle_wifi_connected-activates i ssid p d k r found m h =
      let d' = record d { current_ssids = insert i ssid d.current_ssids } in
      interface-activates i ssid p d' k r found m
        (subst (IsApplicable net nl d.executor r) (sym (table_of_ssids i d _)) h)
