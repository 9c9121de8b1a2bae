-- ===== src/Engine/Dispatcher/Invariant.antt =====
-- src/engine/dispatcher.rs: what holds of the dispatcher after any events.
use nic_autoswitch.Common.{ℕ, zero, suc, ◌+◌, ◌≡◌, refl, ◌∙◌, true, List, [], ◌∷◌, Text-eq, ℕ-eq}
use nic_autoswitch.Ip.{IpCrate}
use nic_autoswitch.Router.Kernel.{Netlink}
use nic_autoswitch.Monitor.Events.{NetworkEvent}
use nic_autoswitch.Engine.Executor.{
  RuleExecutor, track_active_route, untrack_active_route, apply_rule, remove_rule,
}
use nic_autoswitch.Engine.Executor.Tracking.{IsTracked}
use nic_autoswitch.Engine.Executor.Invariant.{
  apply_rule_cases, remove_rule_cases, apply_rule_dry, remove_rule_dry, apply_rule-IsTracked,
  remove_rule-IsTracked,
}
use nic_autoswitch.Engine.Dispatcher.State.{EventDispatcher, stop, active_routes}
use nic_autoswitch.Config.{RouteRule, RouteRule-eq}
use nic_autoswitch.Monitor.State.{InterfaceInfo}
use nic_autoswitch.Router.Manager.{RouteManager}
use nic_autoswitch.Router.Manager.DryRun.{flush_table_complete_dry}
use nic_autoswitch.Engine.Dispatcher.Handle.{
  handle_events, max_interfaces, flush_tables, cleanup_stale_tables, update_all, qualifying,
  apply_initial_state,
}
use nic_autoswitch.Engine.Dispatcher.Keeps.{keep_events, keep_for_each}

module _ (net : IpCrate) {K : Type 0} (nl : Netlink K) where
  -- If the record of active routes has each name once, with the entry of that name, then it does
  -- after any events.
  pub handle_events-IsTracked :
      (es : List NetworkEvent) (d : EventDispatcher) (k : K)
      → IsTracked d.executor
      → IsTracked (handle_events net nl es d k).0.executor
  handle_events-IsTracked =
      keep_events net nl (λ x _. IsTracked x) (λ r t x k h. apply_rule-IsTracked net nl r 0 t x k h)
        (λ r t x k h. remove_rule-IsTracked net nl r t x k h)

  -- The manager runs dry, and the kernel is as it was.
  abbrev pub IsDry : K → RuleExecutor → K → Type 0
  IsDry k x k' = (x.route_manager.dry_run ≡ true) × (k' ≡ k)

  apply_rule-IsDry :
      (k : K) (r : RouteRule) (t : ℕ) (x : RuleExecutor) (k' : K)
      → IsDry k x k'
      → IsDry k (apply_rule net nl r 0 t x k').1 (apply_rule net nl r 0 t x k').2
  apply_rule-IsDry k r t x k' h = (
    apply_rule_cases net nl (λ y. y.route_manager.dry_run ≡ true) r 0 t x k' h.0
        (unfold track_active_route in h.0),
    apply_rule_dry net nl r 0 t x k' h.0 ∙ h.1,
  )

  remove_rule-IsDry :
      (k : K) (r : RouteRule) (t : ℕ) (x : RuleExecutor) (k' : K)
      → IsDry k x k'
      → IsDry k (remove_rule net nl r t x k').1 (remove_rule net nl r t x k').2
  remove_rule-IsDry k r t x k' h = (
    remove_rule_cases net nl (λ y. y.route_manager.dry_run ≡ true) r t x k' h.0
        (unfold untrack_active_route in h.0),
    remove_rule_dry net nl r t x k' h.0 ∙ h.1,
  )

  pub handle_events-IsDry :
      (es : List NetworkEvent) (d : EventDispatcher) (k : K)
      → d.executor.route_manager.dry_run ≡ true
      → IsDry k (handle_events net nl es d k).0.executor (handle_events net nl es d k).1
  handle_events-IsDry es d k dry =
      keep_events net nl (IsDry k) (apply_rule-IsDry k) (remove_rule-IsDry k) es d k (dry, refl)

  -- In a dry run no events change the kernel.
  pub handle_events_dry :
      (es : List NetworkEvent) (d : EventDispatcher) (k : K)
      → d.executor.route_manager.dry_run ≡ true
      → (handle_events net nl es d k).1 ≡ k
  handle_events_dry es d k dry = (handle_events-IsDry es d k dry).1

  flush_tables_dry :
      (rm : RouteManager) (base rounds idx : ℕ) (k : K)
      → rm.dry_run ≡ true
      → flush_tables net nl rm base rounds idx k ≡ k
  unfolding flush_tables
  flush_tables_dry rm base zero idx k dry = refl
  flush_tables_dry rm base (suc rounds) idx k dry =
      let ih = flush_tables_dry rm base rounds (suc idx) k dry in
      rw
        (
          flush_table_complete_dry nl rm dry (base + idx) k,
          flush_table_complete_dry nl rm dry (200 + idx) k,
        )
        ih

  pub apply_initial_state-IsDry :
      (l : List InterfaceInfo) (d : EventDispatcher) (k : K)
      → d.executor.route_manager.dry_run ≡ true
      → IsDry k (apply_initial_state net nl l d k).1.executor (apply_initial_state net nl l d k).2
  unfolding apply_initial_state cleanup_stale_tables
  apply_initial_state-IsDry l d k dry =
      let known = record d { network_state = update_all net nl l d.network_state } in
      let flushed = flush_tables_dry d.executor.route_manager _ (max_interfaces net nl) 0 k dry in
      keep_for_each net nl (IsDry k) (apply_rule-IsDry k) (qualifying net nl l known) known _
        (dry, flushed)

  pub apply_initial_state-IsTracked :
      (l : List InterfaceInfo) (d : EventDispatcher) (k : K)
      → IsTracked d.executor
      → IsTracked (apply_initial_state net nl l d k).1.executor
  unfolding apply_initial_state
  apply_initial_state-IsTracked l d k h =
      let known = record d { network_state = update_all net nl l d.network_state } in
      keep_for_each net nl (λ x _. IsTracked x)
        (λ r t x k h. apply_rule-IsTracked net nl r 0 t x k h) (qualifying net nl l known) known _ h

-- A dispatcher that was stopped tracks nothing, and ignores every event until it is started again.
pub stop-handle_events :
    (net : IpCrate) {K : Type 0} (nl : Netlink K) (es : List NetworkEvent) (d : EventDispatcher)
    (k : K)
    → (handle_events net nl es (stop d) k ≡ (stop d, k)) × (active_routes (stop d) ≡ [])
unfolding handle_events stop active_routes
stop-handle_events net nl [] d k = (refl, refl)
stop-handle_events net nl (e ∷ es) d k = stop-handle_events net nl es d k
