-- ===== src/Engine/Dispatcher/Backed.antt =====
-- src/engine/dispatcher.rs: the active routes against the kernel, from the start of the daemon on.
use mathlib.Core.List.{Memᴰ}
use nic_autoswitch.Common.{ℕ, ◌≡◌, refl, false, List, [], Text-eq, ℕ-eq, get}
use nic_autoswitch.Ip.{IpCrate}
use nic_autoswitch.Config.{Config, RouteRule}
use nic_autoswitch.Router.Kernel.{Netlink}
use nic_autoswitch.Router.Repeat.{AddLaws}
use nic_autoswitch.Router.Backed.{GrowLaws}
use nic_autoswitch.Monitor.Events.{NetworkEvent}
use nic_autoswitch.Monitor.State.{InterfaceInfo}
use nic_autoswitch.Engine.Executor.{RuleExecutor, apply_rule, track_active_route}
use nic_autoswitch.Engine.Executor.Invariant.{apply_rule_cases}
use nic_autoswitch.Engine.Executor.Backed.{IsBacked, apply_rule-IsBacked}
use nic_autoswitch.Engine.Dispatcher.State.{EventDispatcher, active_routes}
use nic_autoswitch.Engine.Dispatcher.Handle.{
  handle_events, cleanup_stale_tables, update_all, qualifying, apply_initial_state,
}
use nic_autoswitch.Engine.Dispatcher.Removing.{MayAll}
use nic_autoswitch.Engine.Dispatcher.Applied.{for_each_applied, events_applied}
use nic_autoswitch.Engine.Dispatcher.Fixed.{initial-Same}
use nic_autoswitch.Engine.Dispatcher.Names.{rules_of}

module _ (net : IpCrate) {K : Type 0} (nl : Netlink K) (laws : AddLaws nl)
    (grow : GrowLaws laws) where
  abbrev IsLive : Config → RuleExecutor → K → Type 0
  IsLive c x k = (x.route_manager.dry_run ≡ false) × IsBacked net nl laws (rules_of c) x k

  apply_rule-IsLive :
      (c : Config) (r : RouteRule)
      → Memᴰ r (rules_of c)
      → (t : ℕ) (x : RuleExecutor) (k : K) → IsLive c x k
      → IsLive c (apply_rule net nl r 0 t x k).1 (apply_rule net nl r 0 t x k).2
  apply_rule-IsLive c r among t x k h = (
    apply_rule_cases net nl (λ y. y.route_manager.dry_run ≡ false) r 0 t x k h.0
        (unfold track_active_route in h.0),
    apply_rule-IsBacked net nl laws (rules_of c) grow r 0 t x k among h.0 h.1,
  )

  empty-IsBacked :
      (d : EventDispatcher) (k : K)
      → active_routes d ≡ []
      → IsBacked net nl laws (rules_of d.config) d.executor k
  unfolding active_routes get
  empty-IsBacked d k h name a e = let nothing = rw h at e in cc

  apply_initial_state-IsLive :
      (l : List InterfaceInfo) (d : EventDispatcher) (k : K)
      → d.executor.route_manager.dry_run ≡ false
      → active_routes d ≡ []
      → IsLive d.config
          (apply_initial_state net nl l d k).1.executor
          (apply_initial_state net nl l d k).2
  unfolding apply_initial_state cleanup_stale_tables
  apply_initial_state-IsLive l d k live h =
      let known = record d { network_state = update_all net nl l d.network_state } in
      for_each_applied net nl d.config (IsLive d.config) (apply_rule-IsLive d.config)
        (qualifying net nl l known) known (cleanup_stale_tables net nl known k) refl
        (live, empty-IsBacked d (cleanup_stale_tables net nl known k) h)

  -- Outside a dry run, and under the laws of the requests to add: if the dispatcher has no active
  -- route before the start on some interfaces, then after it, and after any events among which no
  -- interface goes down or away, there is for each active route a rule of its name in the
  -- configuration, via its interface, whose policy rule is in the kernel, and its table there has a
  -- route in the place of that of the rule via the link of the interface.
  pub startup-IsBacked :
      (l : List InterfaceInfo) (es : List NetworkEvent) (d : EventDispatcher) (k : K)
      → d.executor.route_manager.dry_run ≡ false
      → active_routes d ≡ []
      → MayAll ⊥ es
      → let (_, d1, k1) = apply_initial_state net nl l d k in
        let (d2, k2) = handle_events net nl es d1 k1 in
        IsBacked net nl laws (rules_of d.config) d2.executor k2
  startup-IsBacked l es d k live none_active may =
      (events_applied net nl d.config (IsLive d.config) (apply_rule-IsLive d.config) es
        (apply_initial_state net nl l d k).1 (apply_initial_state net nl l d k).2 may
        (initial-Same net nl l d k).config (apply_initial_state-IsLive l d k live none_active)).1
