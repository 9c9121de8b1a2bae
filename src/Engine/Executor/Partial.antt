-- ===== src/Engine/Executor/Partial.antt =====
-- src/engine/executor.rs: a rule whose route cannot be added.
use nic_autoswitch.Common.{ℕ, ◌≡◌, refl, false, none, some, Text-eq, ℕ-eq}
use nic_autoswitch.Error.{Error, Result, ok, err}
use nic_autoswitch.Ip.{IpCrate, IpNetwork}
use nic_autoswitch.Config.{RouteRule}
use nic_autoswitch.Router.Kernel.{Netlink}
use nic_autoswitch.Router.Repeat.{AddLaws, policy_there}
use nic_autoswitch.Router.Backed.{GrowLaws, route_keeps}
use nic_autoswitch.Router.Rules
use nic_autoswitch.Router.Manager.{rule_request, add_policy_rule, add_route}
use nic_autoswitch.Engine.Executor.{RuleExecutor, tracking, track_active_route, apply_rule}

tracking_err :
    {A K : Type 0} (x : RuleExecutor) (f : A → RuleExecutor) (o : Result A × K) (e : Error)
    → o.0 ≡ err e
    → tracking x f o ≡ (err e, x, o.1)
tracking_err x f (ok a, k) e h = cc
tracking_err x f (err e', k) e h = cc

module _ (net : IpCrate) {K : Type 0} (nl : Netlink K) (laws : AddLaws nl)
    (grow : GrowLaws laws) where
  -- Outside a dry run, and under the laws of the requests to add: if a valid rule's policy rule is added
  -- and its route cannot be, then the application fails with the error of the route and records
  -- nothing, and yet the policy rule is in the kernel.
  pub apply_rule_partial :
      (r : RouteRule) (n : IpNetwork) (index t : ℕ) (x : RuleExecutor) (k : K) (e : Error)
      → x.route_manager.dry_run ≡ false
      → Rules.validate_rule r ≡ ok tt
      → Rules.get_destination net r ≡ ok n
      → (add_policy_rule nl x.route_manager (some n) none t r.priority k).0 ≡ ok tt
      → let k1 = (add_policy_rule nl x.route_manager (some n) none t r.priority k).1 in
        (add_route nl x.route_manager n none r.route_via.interface t r.priority k1).0 ≡ err e
        → ((apply_rule net nl r index t x k).0 ≡ err e)
          × ((apply_rule net nl r index t x k).1 ≡ x)
          × laws.HasRule
              (rule_request (some n) none t r.priority)
              (apply_rule net nl r index t x k).2
  unfolding apply_rule Rules.apply_rule Rules.get_gateway
  apply_rule_partial r n index t x k e live valid resolved ruled failed =
      let rm = x.route_manager in
      let request = rule_request (some n) none t r.priority in
      let k1 = (add_policy_rule nl rm (some n) none t r.priority k).1 in
      let (on, there) = policy_there nl laws rm live (some n) none t r.priority k ruled in
      let kept =
        route_keeps net nl laws rm (laws.HasRule request) (λ m k. grow.rule_keeps_rule m request k)
          (λ m k. laws.route_keeps_rule m request k) n none r.route_via.interface t r.priority k1
          there in
      rw (valid, resolved)
        (rw ruled (
          rw
            (tracking_err x (λ _. track_active_route r.name r.route_via.interface t x)
              (add_route nl rm n none r.route_via.interface t r.priority k1) e failed)
            (refl, refl, kept)))
