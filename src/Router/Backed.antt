-- ===== src/Router/Backed.antt =====
-- src/router/rules.rs: the entries of the kernel that a rule stands on.
use nic_autoswitch.Common.{
  arith, ℕ, ◌≡◌, sym, ap, ◌∙◌, inl, inr, false, Option, none, some, Bool-cases, Text, Text-eq, ℕ-eq,
}
use nic_autoswitch.Error.{Result, ok, err}
use nic_autoswitch.Ip.{IpAddr, IpNetwork, IpCrate}
use nic_autoswitch.Config.{RouteRule}
use nic_autoswitch.Router.Kernel.{RouteAdd, RuleAdd, found, Netlink}
use nic_autoswitch.Router.Rules.{get_destination, get_gateway, apply_rule}
use nic_autoswitch.Router.Manager.{
  RouteManager, added, attempt, route_request, rule_request, add_route, add_policy_rule, index_of,
  resolve_interface_index,
}
use nic_autoswitch.Router.Repeat.{AddLaws, attempt_ok, policy_there, route_requested, route_there}

-- What netlink documents besides of its requests to add: none of them takes an entry or a link away.
pub record GrowLaws {K : Type 0} {nl : Netlink K} (laws : AddLaws nl) : Type 0 where
  pub route_keeps_route :
      (m n : RouteAdd) (k : K) → laws.HasRoute n k → laws.HasRoute n (nl.route_add m k).1
  pub rule_keeps_rule :
      (m n : RuleAdd) (k : K) → laws.HasRule n k → laws.HasRule n (nl.rule_add m k).1
  pub rule_keeps_route :
      (m : RuleAdd) (n : RouteAdd) (k : K) → laws.HasRoute n k → laws.HasRoute n (nl.rule_add m k).1
  pub rule_keeps_link :
      (m : RuleAdd) (name : Text) (k : K)
      → nl.link_by_name name (nl.rule_add m k).1 ≡ nl.link_by_name name k

pub attempt_keeps :
    {A B K : Type 0} (Q : K → Type 0) (o : Result A) (k : K) (f : A → Result B × K)
    → Q k
    → ((a : A) → Q (f a).1)
    → Q (attempt o k f).1
attempt_keeps Q (ok a) k f h g = g a
attempt_keeps Q (err e) k f h g = h

module _ (net : IpCrate) {K : Type 0} (nl : Netlink K) (laws : AddLaws nl) where
  -- The policy rule of a rule is in the kernel, and in a table there is a route in the place of that of
  -- the rule via the link of its interface.
  abbrev pub IsInKernel : RouteRule → ℕ → K → Type 0
  IsInKernel r t k =
      (n : IpNetwork) × (index : ℕ) × (get_destination net r ≡ ok n)
      × (nl.link_by_name r.route_via.interface k ≡ found index)
      × laws.HasRule (rule_request (some n) none t r.priority) k
      × laws.HasRoute (route_request n none index t r.priority) k

  module _ (rm : RouteManager) where
    module _ (Q : K → Type 0) (keep_rule : (m : RuleAdd) (k : K) → Q k → Q (nl.rule_add m k).1)
        (keep_route : (m : RouteAdd) (k : K) → Q k → Q (nl.route_add m k).1) where
      policy_keeps :
          (dst src : Option IpNetwork) (t p : ℕ) (k : K)
          → Q k
          → Q (add_policy_rule nl rm dst src t p k).1
      unfolding add_policy_rule
      policy_keeps dst src t p k h = elim (Bool-cases rm.dry_run) [
        | inl dry ↦ rw dry h
        | inr live ↦
            rw live (attempt_keeps Q _ k _ h (λ _. keep_rule (rule_request dst src t p) k h))
      ]

      pub route_keeps :
          (n : IpNetwork) (gw : Option IpAddr) (i : Text) (t m : ℕ) (k : K)
          → Q k
          → Q (add_route nl rm n gw i t m k).1
      unfolding add_route
      route_keeps n gw i t m k h = elim (Bool-cases rm.dry_run) [
        | inl dry ↦ rw dry h
        | inr live ↦
            rw live
              (attempt_keeps Q _ k _ h (λ index. keep_route (route_request n gw index t m) k h))
      ]

      -- What every request to add keeps, a rule keeps, applied or failed.
      pub apply_rule_keeps :
          (r : RouteRule) (index t : ℕ) (k : K) → Q k → Q (apply_rule net nl rm r index t k).1
      unfolding apply_rule get_gateway
      apply_rule_keeps r index t k h = attempt_keeps Q (get_destination net r) k _ h λ n.
          let k' = (add_policy_rule nl rm (some n) none t r.priority k).1 in
          let ruled = policy_keeps (some n) none t r.priority k h in
          attempt_keeps Q (add_policy_rule nl rm (some n) none t r.priority k).0 k' _ ruled
            (λ _. route_keeps n none r.route_via.interface t r.priority k' ruled)

    module _ (grow : GrowLaws laws) where
      pub IsInKernel-apply_rule_other :
          (r : RouteRule) (index t : ℕ) (k : K) (r' : RouteRule) (t' : ℕ)
          → IsInKernel r' t' k
          → IsInKernel r' t' (apply_rule net nl rm r index t k).1
      IsInKernel-apply_rule_other r index t k r' t' (n, i, e, linked, ruled, routed) = (
        n,
        i,
        e,
        apply_rule_keeps (λ k. nl.link_by_name r'.route_via.interface k ≡ found i)
            (λ m k h. grow.rule_keeps_link m _ k ∙ h) (λ m k h. laws.route_keeps_link m _ k ∙ h) r
            index t k linked,
        apply_rule_keeps (laws.HasRule (rule_request (some n) none t' r'.priority))
            (λ m k. grow.rule_keeps_rule m _ k) (λ m k. laws.route_keeps_rule m _ k) r index t k
            ruled,
        apply_rule_keeps (laws.HasRoute (route_request n none i t' r'.priority))
            (λ m k. grow.rule_keeps_route m _ k) (λ m k. grow.route_keeps_route m _ k) r index t k
            routed,
      )

    -- An index that was resolved is that of the link.
    resolved_link :
        (i : Text) (k : K) (index : ℕ)
        → resolve_interface_index nl rm i k ≡ ok index
        → nl.link_by_name i k ≡ found index
    unfolding resolve_interface_index index_of
    resolved_link i k index h = ground arith

    module _ (live : rm.dry_run ≡ false) where
      both_there :
          (n : IpNetwork) (i : Text) (t p : ℕ) (k : K)
          → (add_policy_rule nl rm (some n) none t p k).0 ≡ ok tt
          → let k1 = (add_policy_rule nl rm (some n) none t p k).1 in
            (add_route nl rm n none i t p k1).0 ≡ ok tt
            → (index : ℕ) × (nl.link_by_name i (add_route nl rm n none i t p k1).1 ≡ found index)
              × laws.HasRule (rule_request (some n) none t p) (add_route nl rm n none i t p k1).1
              × laws.HasRoute (route_request n none index t p) (add_route nl rm n none i t p k1).1
      both_there n i t p k h h' =
          let k1 = (add_policy_rule nl rm (some n) none t p k).1 in
          let (on, there) = policy_there nl laws rm live (some n) none t p k h in
          let (index, resolved, same) = route_requested nl laws rm live n none i t p k1 h' in
          let m = route_request n none index t p in
          let fine : added i (nl.route_add m k1).0 ≡ ok tt = sym (ap (λ o. o.0) same) ∙ h' in
          (
            index,
            rw same (laws.route_keeps_link m i k1 ∙ resolved_link i k1 index resolved),
            rw same (laws.route_keeps_rule m (rule_request (some n) none t p) k1 there),
            rw same (route_there nl laws rm live m i k1 fine),
          )

      -- After a rule was applied with success, its policy rule and its route are in the kernel.
      pub IsInKernel-apply_rule :
          (r : RouteRule) (index t : ℕ) (k : K)
          → (apply_rule net nl rm r index t k).0 ≡ ok tt
          → IsInKernel r t (apply_rule net nl rm r index t k).1
      unfolding apply_rule get_gateway
      IsInKernel-apply_rule r index t k h =
          let i = r.route_via.interface in
          let p = r.priority in
          let (n, resolved, same) = attempt_ok (get_destination net r) k _ tt h in
          let (ruled, k1) = add_policy_rule nl rm (some n) none t p k in
          let done' = sym (ap (λ o. o.0) same) ∙ h in
          let (u, fine, then) =
            attempt_ok ruled k1 (λ _. add_route nl rm n none i t p k1) tt done' in
          let last = sym (ap (λ o. o.0) then) ∙ done' in
          let (idx, has_link, has_rule, has_route) = both_there n i t p k fine last in
          rw same (rw then (n, idx, resolved, has_link, has_rule, has_route))
