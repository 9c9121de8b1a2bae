-- ===== src/Engine/Dispatcher/Defaults.antt =====
-- src/engine/dispatcher.rs: what the application of the default rules does.
use mathlib.Core.List.{Memᴰ}
use mathlib.Core.Path.{subst}
use nic_autoswitch.Common.{
  ℕ, ◌≡◌, refl, sym, ap, inl, inr, true, false, some, List, [], ◌∷◌, arith, Bool-cases,
  Option-cases, Text, Text-discrete, Text-eq, ℕ-eq, Map, get, get-insert,
}
use nic_autoswitch.Error.{Result, ok, err}
use nic_autoswitch.Ip.{IpCrate}
use nic_autoswitch.Config.{RouteRule}
use nic_autoswitch.Router.Kernel.{Netlink}
use nic_autoswitch.Engine.Executor.{
  ActiveRoute, RuleExecutor, is_route_active, track_active_route, tracking, apply_rule,
}
use nic_autoswitch.Engine.Executor.Tracking.{entry, applied}
use nic_autoswitch.Engine.Executor.Invariant.{apply_rule_cases}
use nic_autoswitch.Engine.Dispatcher.State.{
  EventDispatcher, get_table_id_for_interface, active_routes,
}
use nic_autoswitch.Engine.Dispatcher.Apply.{apply_each, apply_some, apply_default_rules}
use nic_autoswitch.Engine.Dispatcher.Keeps.{executor-get_table_id}

module _ (net : IpCrate) {K : Type 0} (nl : Netlink K) where
  -- A rule that is not active and is applied leaves every active route as it is.
  fresh_rule_keeps :
      (r : RouteRule) (t : ℕ) (x : RuleExecutor) (k : K) (n : Text) (a : ActiveRoute)
      → is_route_active r.name x ≡ false
      → get n x.active_routes ≡ some a
      → get n (apply_rule net nl r 0 t x k).1.active_routes ≡ some a
  unfolding is_route_active
  fresh_rule_keeps r t x k n a fresh h =
      apply_rule_cases net nl (λ y. get n y.active_routes ≡ some a) r 0 t x k h
        (unfold track_active_route in
          rw get-insert (elim (Text-discrete r.name n) [
            | yes e ↦ absurd (ground (arith, ap (λ y. get y x.active_routes) e))
            | no ne ↦ ground arith
          ]))

  apply_each-keeps :
      (rs : List RouteRule) (t : ℕ) (x : RuleExecutor) (k : K) (n : Text) (a : ActiveRoute)
      → get n x.active_routes ≡ some a
      → get n (apply_each net nl rs t x k).0.active_routes ≡ some a
  unfolding apply_each
  apply_each-keeps [] t x k n a h = h
  apply_each-keeps (r ∷ rs) t x k n a h = elim (Bool-cases (is_route_active r.name x)) [
    | inl old ↦ rw old (apply_each-keeps rs t x k n a h)
    | inr new ↦
        let (o, x', k') = apply_rule net nl r 0 t x k in
        rw new (apply_each-keeps rs t x' k' n a (fresh_rule_keeps r t x k n a new h))
  ]

  -- Applying default rules never changes the entry of a route that is active.
  pub apply_default_rules-keeps :
      (i n : Text) (d : EventDispatcher) (k : K) (a : ActiveRoute)
      → get n (active_routes d) ≡ some a
      → get n (active_routes (apply_default_rules net nl i d k).1) ≡ some a
  unfolding apply_default_rules active_routes
  apply_default_rules-keeps i n d k a h = kept d.config.routing.default_rules
    where
      kept :
          (rs : List RouteRule)
          → get n (apply_some net nl rs i d k).1.executor.active_routes ≡ some a
      kept [] = h
      kept (r ∷ rs) = apply_each-keeps (r ∷ rs) _ _ k n a (rw executor-get_table_id h)

  -- The rule is valid, and the operator succeeds with it and the table in every state of the kernel.
  abbrev pub IsApplicable : RuleExecutor → RouteRule → ℕ → Type 0
  IsApplicable x r t = (k : K) → (applied net nl r 0 t x k).0 ≡ ok tt

  pub applied_active :
      (r : RouteRule) (t : ℕ) (x : RuleExecutor) (k : K)
      → IsApplicable x r t
      → get r.name (apply_rule net nl r 0 t x k).1.active_routes ≡ some (entry r t)
  unfolding apply_rule
  applied_active r t x k h = now (applied net nl r 0 t x k) (h k)
    where
      now :
          (o : Result (Unit {0}) × K)
          → o.0 ≡ ok tt
          → get r.name
              (tracking x
                (λ _. track_active_route r.name r.route_via.interface t x)
                o).1.active_routes
            ≡ some (entry r t)
      now (ok u, k') e = unfold track_active_route in rw get-insert (ground arith)
      now (err f, k') e = cc

  pub same_manager :
      (r : RouteRule) (t : ℕ) (x : RuleExecutor) (k : K)
      → (apply_rule net nl r 0 t x k).1.route_manager ≡ x.route_manager
  same_manager r t x k =
      apply_rule_cases net nl (λ y. y.route_manager ≡ x.route_manager) r 0 t x k refl
        (unfold track_active_route in refl)

  -- What is active has an entry.
  abbrev pub IsActive : Text → Map Text ActiveRoute → Type 0
  IsActive n m = (a : ActiveRoute) × (get n m ≡ some a)

  old-IsActive :
      (r : RouteRule) (x : RuleExecutor)
      → is_route_active r.name x ≡ true
      → IsActive r.name x.active_routes
  unfolding is_route_active
  old-IsActive r x h = elim (Option-cases (get r.name x.active_routes)) [
    | inl missing ↦ absurd (ground arith)
    | inr found ↦ found
  ]

  stays-IsActive :
      (rs : List RouteRule) (t : ℕ) (x : RuleExecutor) (k : K) (n : Text)
      → IsActive n x.active_routes
      → IsActive n (apply_each net nl rs t x k).0.active_routes
  stays-IsActive rs t x k n (a, h) = (a, apply_each-keeps rs t x k n a h)

  apply_each-activates :
      (rs : List RouteRule) (t : ℕ) (x : RuleExecutor) (k : K) (r : RouteRule)
      → Memᴰ r rs
      → IsApplicable x r t
      → IsActive r.name (apply_each net nl rs t x k).0.active_routes
  unfolding apply_each
  apply_each-activates [] t x k r m h = elim m [ ]
  apply_each-activates (s ∷ rs) t x k r (Memᴰ.head e) h =
      elim (Bool-cases (is_route_active r.name x)) [
        | inl old ↦
            rw (ap (λ y. y.name) (sym e), old)
              (stays-IsActive rs t x k r.name (old-IsActive r x old))
        | inr new ↦
            let (o, x', k') = apply_rule net nl r 0 t x k in
            rw (sym e, new) (stays-IsActive rs t x' k' r.name (entry r t, applied_active r t x k h))
      ]
  apply_each-activates (s ∷ rs) t x k r (Memᴰ.tail m) h =
      elim (Bool-cases (is_route_active s.name x)) [
        | inl old ↦ rw old (apply_each-activates rs t x k r m h)
        | inr new ↦
            let (o, x', k') = apply_rule net nl s 0 t x k in
            rw new (apply_each-activates rs t x' k' r m (λ k''. rw (same_manager s t x k) (h k'')))
      ]

  -- After the default rules are applied for an interface, every default rule that can be applied in
  -- the table of the interface is active.
  pub apply_default_rules-activates :
      (i : Text) (d : EventDispatcher) (k : K) (r : RouteRule)
      → Memᴰ r d.config.routing.default_rules
      → IsApplicable d.executor r (get_table_id_for_interface i d).0
      → IsActive r.name (active_routes (apply_default_rules net nl i d k).1)
  unfolding apply_default_rules active_routes
  apply_default_rules-activates i d k r m h = active d.config.routing.default_rules m
    where
      active :
          (rs : List RouteRule)
          → Memᴰ r rs
          → IsActive r.name (apply_some net nl rs i d k).1.executor.active_routes
      active [] m' = elim m' [ ]
      active (s ∷ rs) m' = apply_each-activates (s ∷ rs) _ _ k r m' (
          subst (λ x. IsApplicable x r (get_table_id_for_interface i d).0)
            (sym (executor-get_table_id i d)) h)
