-- ===== src/Engine/Dispatcher/Others.antt =====
-- src/engine/dispatcher.rs: an interface that goes down, and the routes via the others.
use mathlib.Core.List.{Memᴰ}
use nic_autoswitch.Common.{
  ℕ, ◌≡◌, ◌≢◌, sym, ◌∙◌, inl, inr, some, List, [], ◌∷◌, Option-cases, All, Text, Text-eq, ℕ-eq, Map,
  get,
}
use nic_autoswitch.Ip.{IpCrate}
use nic_autoswitch.Config.{RouteRule}
use nic_autoswitch.Router.Kernel.{Netlink}
use nic_autoswitch.Router.Rules
use nic_autoswitch.Router.Rules.{get_destination}
use nic_autoswitch.Router.Repeat.{AddLaws}
use nic_autoswitch.Router.Backed.{IsInKernel}
use nic_autoswitch.Router.Apart.{DeleteLaws, Shares, IsInKernel-remove_rule_other}
use nic_autoswitch.Engine.Executor.{RuleExecutor, untrack_active_route, remove_rule}
use nic_autoswitch.Engine.Executor.Tracking.{IsTracked}
use nic_autoswitch.Engine.Executor.Invariant.{tracking_kernel}
use nic_autoswitch.Engine.Dispatcher.State.{EventDispatcher, active_routes}
use nic_autoswitch.Engine.Dispatcher.Apply.{
  rules_map, routes_via, remove_each, handle_interface_down,
}
use nic_autoswitch.Engine.Dispatcher.Down.{NotVia, routes_via_ne}
use nic_autoswitch.Engine.Dispatcher.Names.{rules_of, get-rules_map, last_named-Mem}

module _ (net : IpCrate) {K : Type 0} (nl : Netlink K) (laws : AddLaws nl)
    (deletes : DeleteLaws net laws) (r' : RouteRule) (t' : ℕ) where
  removed_other :
      (r : RouteRule) (t : ℕ) (x : RuleExecutor) (k : K)
      → (Shares net r r' → ⊥)
      → IsInKernel net nl laws r' t' k
      → IsInKernel net nl laws r' t' (remove_rule net nl r t x k).2
  unfolding remove_rule
  removed_other r t x k apart h =
      rw
        (tracking_kernel x (λ _. untrack_active_route r.name x)
          (Rules.remove_rule net nl x.route_manager r t k))
        (IsInKernel-remove_rule_other net nl laws deletes x.route_manager r r' t t' k apart h)

  removed_others :
      (m : Map Text RouteRule) (l : List (Text × ℕ)) (x : RuleExecutor) (k : K)
      → ((name : Text) (r : RouteRule) → get name m ≡ some r → name ≢ r'.name → Shares net r r' → ⊥)
      → All (λ e. e.0 ≢ r'.name) l
      → IsInKernel net nl laws r' t' k
      → IsInKernel net nl laws r' t' (remove_each net nl m l x k).1
  unfolding remove_each
  removed_others m [] x k apart others h = h
  removed_others m ((name, t) ∷ l) x k apart (ne, others) h = elim (Option-cases (get name m)) [
    | inl missing ↦ rw (missing, remove_each) (removed_others m l x k apart others h)
    | inr (r, found) ↦
        let (o, x', k') = remove_rule net nl r t x k in
        rw (found, remove_each)
          (removed_others m l x' k' apart others (removed_other r t x k (apart name r found ne) h))
  ]

  -- Under the laws of the requests: if the policy rule and the route of a rule are in the kernel, and the
  -- rule is not active via an interface that goes down, then they are still there afterwards, whatever
  -- fails, provided that the record has each name once and that no rule of another name in the
  -- configuration leads to the same network, host bits aside, or to every address.
  pub handle_interface_down-IsInKernel :
      (i : Text) (d : EventDispatcher) (k : K)
      → IsTracked d.executor
      → NotVia i r'.name (active_routes d)
      → ((r : RouteRule) → Memᴰ r (rules_of d.config) → r.name ≢ r'.name → Shares net r r' → ⊥)
      → IsInKernel net nl laws r' t' k
      → IsInKernel net nl laws r' t' (handle_interface_down net nl i d k).2
  unfolding handle_interface_down active_routes
  handle_interface_down-IsInKernel i d k h v apart there =
      removed_others (rules_map d.config) (routes_via i d.executor.active_routes) d.executor k
        (λ name r found ne.
          let (m, named) =
            last_named-Mem name (rules_of d.config) r (sym (get-rules_map name d.config) ∙ found) in
          apart r m (λ e. ne (sym named ∙ e)))
        (routes_via_ne i r'.name d.executor.active_routes h.once v) there
