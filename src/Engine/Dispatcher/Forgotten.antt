-- ===== src/Engine/Dispatcher/Forgotten.antt =====
-- src/engine/dispatcher.rs: an active route whose rule a reload has dropped.
use nic_autoswitch.Common.{
  ℕ, ◌≡◌, refl, sym, ap, ◌∙◌, inl, inr, none, List, [], ◌∷◌, Option-cases, Text, Text-eq, ℕ-eq, Map,
  get,
}
use nic_autoswitch.Ip.{IpCrate}
use nic_autoswitch.Config.{Config, RouteRule}
use nic_autoswitch.Router.Kernel.{Netlink}
use nic_autoswitch.Engine.Executor.{RuleExecutor, remove_rule}
use nic_autoswitch.Engine.Dispatcher.State.{EventDispatcher, active_routes, update_config}
use nic_autoswitch.Engine.Dispatcher.Apply.{
  rules_map, routes_via, remove_each, handle_interface_down,
}
use nic_autoswitch.Engine.Dispatcher.Down.{IsNamed, rules_map-IsNamed, remove_rule_ne}

module _ (net : IpCrate) {K : Type 0} (nl : Netlink K) where
  -- The loop removes no name that has no rule.
  remove_each_unknown :
      (m : Map Text RouteRule) (l : List (Text × ℕ)) (x : RuleExecutor) (k : K) (n : Text)
      → IsNamed m
      → get n m ≡ none
      → get n (remove_each net nl m l x k).0.active_routes ≡ get n x.active_routes
  unfolding remove_each
  remove_each_unknown m [] x k n named h = refl
  remove_each_unknown m ((j, t) ∷ l) x k n named h = elim (Option-cases (get j m)) [
    | inl missing ↦ rw (missing, remove_each) (remove_each_unknown m l x k n named h)
    | inr (r, found) ↦
        let (o, x', k') = remove_rule net nl r t x k in
        rw (found, remove_each)
          (remove_each_unknown m l x' k' n named h
            ∙ remove_rule_ne net nl r t x k n (λ e.
              let same = ap (λ z. get z m) (sym (named j r found) ∙ e) ∙ h in
              let absent = sym found ∙ same in cc))
  ]

  -- If the dispatcher takes over a configuration that has no rule of a name, then an active route of
  -- that name stays recorded as it is, whichever interface goes down or away, and whatever fails.
  pub handle_interface_down-update_config :
      (i n : Text) (c : Config) (d : EventDispatcher) (k : K)
      → get n (rules_map c) ≡ none
      → get n (active_routes (handle_interface_down net nl i (update_config c d) k).1)
        ≡ get n (active_routes d)
  unfolding handle_interface_down update_config active_routes
  handle_interface_down-update_config i n c d k dropped =
      remove_each_unknown (rules_map c) (routes_via i d.executor.active_routes) d.executor k n
        (rules_map-IsNamed c) dropped
