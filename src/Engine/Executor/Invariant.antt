-- ===== src/Engine/Executor/Invariant.antt =====
-- src/engine/executor.rs: the record of active routes stays in order, and a dry run leaves the
-- kernel alone.
use nic_autoswitch.Common.{
  ℕ, ◌≡◌, refl, ◌∙◌, true, not, none, some, arith, if◌then◌else◌, Text, ◌==◌, Text-eq, ℕ-eq,
  keep_if, retain, get, get-insert, get-remove, get-retain, insert-IsMap, remove-IsMap,
}
use nic_autoswitch.Error.{Result, ok, err, is_ok}
use nic_autoswitch.Ip.{IpAddr-eq, IpNetwork-eq, IpCrate}
use nic_autoswitch.Config.{RouteRule}
use nic_autoswitch.Router.Kernel.{Netlink}
use nic_autoswitch.Router.Manager
use nic_autoswitch.Router.Manager.{RouteManager, flush_interface_routes}
use nic_autoswitch.Router.Manager.DryRun.{
  add_route_dry, remove_route_dry, add_policy_rule_dry, remove_policy_rule_dry,
}
use nic_autoswitch.Router.Rules
use nic_autoswitch.Engine.Executor.{
  ActiveRoute, RuleExecutor, track_active_route, untrack_active_route, tracking, apply_rule,
  remove_rule, flush_interface,
}
use nic_autoswitch.Engine.Executor.Tracking.{IsTracked}

tracking_cases :
    {A K : Type 0} (P : RuleExecutor → Type 0) (x : RuleExecutor) (f : A → RuleExecutor)
    (o : Result A × K)
    → P x
    → ((a : A) → P (f a))
    → P (tracking x f o).1
tracking_cases P x f (ok a, k) h g = g a
tracking_cases P x f (err e, k) h g = h

pub tracking_kernel :
    {A K : Type 0} (x : RuleExecutor) (f : A → RuleExecutor) (o : Result A × K)
    → (tracking x f o).2 ≡ o.1
tracking_kernel x f (ok a, k) = refl
tracking_kernel x f (err e, k) = refl

module _ (net : IpCrate) {K : Type 0} (nl : Netlink K) where
  -- A property of the executor survives a rule if it survives the tracking of the rule.
  pub apply_rule_cases :
      (P : RuleExecutor → Type 0) (r : RouteRule) (idx table_id : ℕ) (x : RuleExecutor) (k : K)
      → P x
      → P (track_active_route r.name r.route_via.interface table_id x)
      → P (apply_rule net nl r idx table_id x k).1
  unfolding apply_rule
  apply_rule_cases P r idx table_id x k h g = tracking_cases P x _ _ h (λ _. g)

  pub remove_rule_cases :
      (P : RuleExecutor → Type 0) (r : RouteRule) (table_id : ℕ) (x : RuleExecutor) (k : K)
      → P x
      → P (untrack_active_route r.name x)
      → P (remove_rule net nl r table_id x k).1
  unfolding remove_rule
  remove_rule_cases P r table_id x k h g = tracking_cases P x _ _ h (λ _. g)

  module _ (rm : RouteManager) (dry : rm.dry_run ≡ true) where
    attempt_kernel :
        {A B : Type 0} (o : Result A) (k : K) (f : A → Result B × K)
        → ((a : A) → (f a).1 ≡ k)
        → (Manager.attempt o k f).1 ≡ k
    attempt_kernel (ok a) k f h = h a
    attempt_kernel (err e) k f h = refl

    rules_apply_dry :
        (r : RouteRule) (idx table_id : ℕ) (k : K)
        → (Rules.apply_rule net nl rm r idx table_id k).1 ≡ k
    unfolding Rules.apply_rule
    rules_apply_dry r idx table_id k = attempt_kernel (Rules.get_destination net r) k _ λ dst.
        rw (add_policy_rule_dry nl rm dry (some dst) none table_id r.priority k)
          (rw (add_route_dry nl rm dry dst none r.route_via.interface table_id r.priority k))

    rules_remove_dry :
        (r : RouteRule) (table_id : ℕ) (k : K) → (Rules.remove_rule net nl rm r table_id k).1 ≡ k
    unfolding Rules.remove_rule
    rules_remove_dry r table_id k = attempt_kernel (Rules.get_destination net r) k _ λ dst.
        rw (remove_policy_rule_dry nl rm dry (some dst) none table_id r.priority k)
          (rw (remove_route_dry nl rm dry dst table_id k))

  -- In a dry run neither operation changes the kernel.
  pub apply_rule_dry :
      (r : RouteRule) (idx table_id : ℕ) (x : RuleExecutor) (k : K)
      → x.route_manager.dry_run ≡ true
      → (apply_rule net nl r idx table_id x k).2 ≡ k
  unfolding apply_rule
  apply_rule_dry r idx table_id x k dry =
      tracking_kernel x _ _
      ∙ attempt_kernel x.route_manager dry (Rules.validate_rule r) k _
          (λ _. rules_apply_dry x.route_manager dry r idx table_id k)

  pub remove_rule_dry :
      (r : RouteRule) (table_id : ℕ) (x : RuleExecutor) (k : K)
      → x.route_manager.dry_run ≡ true
      → (remove_rule net nl r table_id x k).2 ≡ k
  unfolding remove_rule
  remove_rule_dry r table_id x k dry =
      tracking_kernel x _ _ ∙ rules_remove_dry x.route_manager dry r table_id k

IsTracked-track :
    (name interface : Text) (table_id : ℕ) (x : RuleExecutor)
    → IsTracked x
    → IsTracked (track_active_route name interface table_id x)
unfolding track_active_route
IsTracked-track name interface table_id x h = record {
  once = insert-IsMap name _ x.active_routes h.once;
  named = λ n a e. ground (
    arith,
    h.named n a,
    get-insert name n (record { rule_name = name; interface = interface; table_id = table_id })
        x.active_routes,
  );
}

IsTracked-untrack :
    (name : Text) (x : RuleExecutor) → IsTracked x → IsTracked (untrack_active_route name x)
unfolding untrack_active_route
IsTracked-untrack name x h = record {
  once = remove-IsMap name x.active_routes h.once;
  named = λ n a e. ground (arith, h.named n a, get-remove name n x.active_routes);
}

module _ (net : IpCrate) {K : Type 0} (nl : Netlink K) where
  pub apply_rule-IsTracked :
      (r : RouteRule) (idx table_id : ℕ) (x : RuleExecutor) (k : K)
      → IsTracked x
      → IsTracked (apply_rule net nl r idx table_id x k).1
  apply_rule-IsTracked r idx table_id x k h =
      apply_rule_cases net nl (λ y. IsTracked y) r idx table_id x k h
        (IsTracked-track r.name r.route_via.interface table_id x h)

  pub remove_rule-IsTracked :
      (r : RouteRule) (table_id : ℕ) (x : RuleExecutor) (k : K)
      → IsTracked x
      → IsTracked (remove_rule net nl r table_id x k).1
  remove_rule-IsTracked r table_id x k h =
      remove_rule_cases net nl (λ y. IsTracked y) r table_id x k h (IsTracked-untrack r.name x h)

  -- If the record of active routes has each name once, with the entry of that name, then flushing
  -- an interface drops exactly the entries via the interface if it succeeds, and none if it fails.
  pub flush_interface_lem :
      (interface : Text) (table_id : ℕ) (x : RuleExecutor) (k : K) (name : Text)
      → IsTracked x
      → get name (flush_interface net nl interface table_id x k).1.active_routes ≡ (
          if is_ok (flush_interface_routes nl x.route_manager interface table_id k).0
          then keep_if (λ a. not (a.interface == interface)) (get name x.active_routes)
          else get name x.active_routes)
  unfolding flush_interface
  flush_interface_lem interface table_id x k name h =
      flushed (flush_interface_routes nl x.route_manager interface table_id k)
    where
      flushed :
          (o : Result ℕ × K)
          → get name
              (tracking x
                (λ _. record x {
                  active_routes = retain (λ _ a. not (a.interface == interface)) x.active_routes;
                })
                o).1.active_routes
            ≡ (if is_ok o.0
                then keep_if (λ a. not (a.interface == interface)) (get name x.active_routes)
                else get name x.active_routes)
      flushed (ok n, k') =
          get-retain (λ (_ : Text) (a : ActiveRoute). not (a.interface == interface)) name
            x.active_routes h.once
      flushed (err e, k') = refl
