-- ===== src/Router/Repeat.antt =====
-- src/router/rules.rs and src/router/manager.rs: a rule that was applied is applied again.
use nic_autoswitch.Common.{
  ℕ, ◌≡◌, refl, sym, ap, ◌∙◌, ◌⊎◌, inl, inr, true, false, Option, none, some, arith, Bool-cases,
  Text, bytes, Text-eq, ℕ-eq,
}
use nic_autoswitch.Error.{Result, ok, err}
use nic_autoswitch.Config.{RouteRule}
use nic_autoswitch.Ip.{IpAddr, IpNetwork, IpCrate}
use nic_autoswitch.Router.Kernel.{NetlinkError, Reply, done, failed, RouteAdd, RuleAdd, Netlink}
use nic_autoswitch.Router.Rules.{get_destination, get_gateway, apply_rule}
use nic_autoswitch.Router.Manager.{
  is_already_exists, RouteManager, added, attempt, judge, route_request, rule_request,
  resolve_interface_index, add_route, add_policy_rule,
}

-- What netlink documents of its requests to add: an entry that is there is answered by EEXIST, which
-- changes nothing, and routes, rules and links are apart. `HasRoute m k` says that `k` has an entry in
-- the place of `m`.
pub record AddLaws {K : Type 0} (nl : Netlink K) : Type 1 where
  pub HasRoute : RouteAdd → K → Type 0
  pub HasRule : RuleAdd → K → Type 0
  pub route_done :
      (m : RouteAdd) (k : K) → (nl.route_add m k).0 ≡ done → HasRoute m (nl.route_add m k).1
  pub route_exists :
      (m : RouteAdd) (k : K) (e : NetlinkError)
      → (nl.route_add m k).0 ≡ failed e
      → is_already_exists e ≡ true
      → HasRoute m (nl.route_add m k).1
  pub route_again :
      (m : RouteAdd) (k : K)
      → HasRoute m k
      → (e : NetlinkError) × (is_already_exists e ≡ true) × (nl.route_add m k ≡ (failed e, k))
  pub rule_done : (m : RuleAdd) (k : K) → (nl.rule_add m k).0 ≡ done → HasRule m (nl.rule_add m k).1
  pub rule_exists :
      (m : RuleAdd) (k : K) (e : NetlinkError)
      → (nl.rule_add m k).0 ≡ failed e
      → is_already_exists e ≡ true
      → HasRule m (nl.rule_add m k).1
  pub rule_again :
      (m : RuleAdd) (k : K)
      → HasRule m k
      → (e : NetlinkError) × (is_already_exists e ≡ true) × (nl.rule_add m k ≡ (failed e, k))
  pub route_keeps_rule :
      (m : RouteAdd) (n : RuleAdd) (k : K) → HasRule n k → HasRule n (nl.route_add m k).1
  pub route_keeps_link :
      (m : RouteAdd) (name : Text) (k : K)
      → nl.link_by_name name (nl.route_add m k).1 ≡ nl.link_by_name name k

-- An add succeeds if it was done, or its entry was there.
added_cases :
    (what : Text) (reply : Reply)
    → added what reply ≡ ok tt
    → (reply ≡ done) ⊎ ((e : NetlinkError) × (reply ≡ failed e) × (is_already_exists e ≡ true))
unfolding added
added_cases what done h = inl refl
added_cases what (failed e) h = elim (Bool-cases (is_already_exists e)) [
  | inl exists ↦ inr (e, refl, exists)
  | inr other ↦ absurd (ground (arith, other))
]

added_exists :
    (what : Text) (e : NetlinkError) → is_already_exists e ≡ true → added what (failed e) ≡ ok tt
unfolding added
added_exists what e exists = rw exists refl

pub attempt_ok :
    {A B K : Type 0} (r : Result A) (k : K) (f : A → Result B × K) (b : B)
    → (attempt r k f).0 ≡ ok b
    → (a : A) × (r ≡ ok a) × (attempt r k f ≡ f a)
attempt_ok (ok a) k f b h = (a, refl, refl)
attempt_ok (err e) k f b h = cc

module _ {K : Type 0} (nl : Netlink K) (laws : AddLaws nl) (rm : RouteManager)
    (live : rm.dry_run ≡ false) where
  pub rule_there :
      (m : RuleAdd) (what : Text) (k : K)
      → added what (nl.rule_add m k).0 ≡ ok tt
      → laws.HasRule m (nl.rule_add m k).1
  rule_there m what k h = elim (added_cases what (nl.rule_add m k).0 h) [
    | inl fine ↦ laws.rule_done m k fine
    | inr (e, bad, exists) ↦ laws.rule_exists m k e bad exists
  ]

  pub route_there :
      (m : RouteAdd) (what : Text) (k : K)
      → added what (nl.route_add m k).0 ≡ ok tt
      → laws.HasRoute m (nl.route_add m k).1
  route_there m what k h = elim (added_cases what (nl.route_add m k).0 h) [
    | inl fine ↦ laws.route_done m k fine
    | inr (e, bad, exists) ↦ laws.route_exists m k e bad exists
  ]

  pub policy_there :
      (dst src : Option IpNetwork) (t p : ℕ) (k : K)
      → (add_policy_rule nl rm dst src t p k).0 ≡ ok tt
      → (rm.handle ≡ true)
        × laws.HasRule (rule_request dst src t p) (add_policy_rule nl rm dst src t p k).1
  unfolding add_policy_rule
  policy_there dst src t p k h = elim (Bool-cases rm.handle) [
    | inl on ↦
        rw (live, on)
          (refl, rule_there (rule_request dst src t p) (bytes "rule") k (rw (live, on) at h))
    | inr off ↦ let bad = rw (live, off) at h in cc
  ]

  policy_again :
      (dst src : Option IpNetwork) (t p : ℕ) (k : K)
      → rm.handle ≡ true
      → laws.HasRule (rule_request dst src t p) k
      → add_policy_rule nl rm dst src t p k ≡ (ok tt, k)
  unfolding add_policy_rule
  policy_again dst src t p k on there =
      let (e, exists, same) = laws.rule_again (rule_request dst src t p) k there in
      rw (live, on, same, added_exists (bytes "rule") e exists) refl

  -- The request that a route makes.
  abbrev route_reply : IpNetwork → Option IpAddr → Text → (t m : ℕ) → K → ℕ → Result (Unit {0}) × K
  route_reply n gw i t m k index = judge (added i) (nl.route_add (route_request n gw index t m) k)

  pub route_requested :
      (n : IpNetwork) (gw : Option IpAddr) (i : Text) (t m : ℕ) (k : K)
      → (add_route nl rm n gw i t m k).0 ≡ ok tt
      → (index : ℕ) × (resolve_interface_index nl rm i k ≡ ok index)
        × (add_route nl rm n gw i t m k ≡ route_reply n gw i t m k index)
  unfolding add_route
  route_requested n gw i t m k h =
      let (index, resolved, same) =
        attempt_ok (resolve_interface_index nl rm i k) k (route_reply n gw i t m k) tt
          (rw live at h) in
      (index, resolved, rw live same)

  resolve_same :
      (i : Text) (k k' : K)
      → nl.link_by_name i k' ≡ nl.link_by_name i k
      → resolve_interface_index nl rm i k' ≡ resolve_interface_index nl rm i k
  unfolding resolve_interface_index
  resolve_same i k k' h = rw h refl

  route_again :
      (n : IpNetwork) (gw : Option IpAddr) (i : Text) (t m : ℕ) (k : K) (index : ℕ)
      → resolve_interface_index nl rm i k ≡ ok index
      → laws.HasRoute (route_request n gw index t m) k
      → add_route nl rm n gw i t m k ≡ (ok tt, k)
  unfolding add_route
  route_again n gw i t m k index resolved there =
      let (e, exists, same) = laws.route_again (route_request n gw index t m) k there in
      rw (live, resolved, same, added_exists i e exists) refl

  both_again :
      (n : IpNetwork) (gw : Option IpAddr) (i : Text) (t p : ℕ) (k : K)
      → (add_policy_rule nl rm (some n) none t p k).0 ≡ ok tt
      → (add_route nl rm n gw i t p (add_policy_rule nl rm (some n) none t p k).1).0 ≡ ok tt
      → let k2 = (add_route nl rm n gw i t p (add_policy_rule nl rm (some n) none t p k).1).1 in
        (add_policy_rule nl rm (some n) none t p k2 ≡ (ok tt, k2))
        × (add_route nl rm n gw i t p k2 ≡ (ok tt, k2))
  both_again n gw i t p k h h' =
      let k1 = (add_policy_rule nl rm (some n) none t p k).1 in
      let (on, there) = policy_there (some n) none t p k h in
      let (index, resolved, same) = route_requested n gw i t p k1 h' in
      let m = route_request n gw index t p in
      let fine : added i (nl.route_add m k1).0 ≡ ok tt = sym (ap (λ o. o.0) same) ∙ h' in
      rw same (
        policy_again (some n) none t p (nl.route_add m k1).1 on
            (laws.route_keeps_rule m (rule_request (some n) none t p) k1 there),
        route_again n gw i t p (nl.route_add m k1).1 index
            (resolve_same i k1 (nl.route_add m k1).1 (laws.route_keeps_link m i k1) ∙ resolved)
            (route_there m i k1 fine),
      )

  -- The two requests of a rule.
  abbrev requests : IpNetwork → Text → (t p : ℕ) → K → Result (Unit {0}) × K
  requests n i t p k =
      let (ruled, k') = add_policy_rule nl rm (some n) none t p k in
      attempt ruled k' λ _. add_route nl rm n none i t p k'

  requests_again :
      (n : IpNetwork) (i : Text) (t p : ℕ) (k : K)
      → (requests n i t p k).0 ≡ ok tt
      → let k' = (requests n i t p k).1 in requests n i t p k' ≡ (ok tt, k')
  requests_again n i t p k h =
      let (ruled, k1) = add_policy_rule nl rm (some n) none t p k in
      let (u, fine, same) = attempt_ok ruled k1 (λ _. add_route nl rm n none i t p k1) tt h in
      let h' : (add_route nl rm n none i t p k1).0 ≡ ok tt = sym (ap (λ o. o.0) same) ∙ h in
      let (first, second) = both_again n none i t p k fine h' in rw same (rw first second)

  -- Outside a dry run, and under the laws of the requests to add: a rule that was applied with success
  -- can be applied again, which succeeds and changes nothing of the kernel.
  pub apply_rule-apply_rule :
      (net : IpCrate) (r : RouteRule) (index t : ℕ) (k : K)
      → (apply_rule net nl rm r index t k).0 ≡ ok tt
      → let k' = (apply_rule net nl rm r index t k).1 in
        apply_rule net nl rm r index t k' ≡ (ok tt, k')
  unfolding apply_rule get_gateway
  apply_rule-apply_rule net r index t k h =
      let (n, resolved, same) =
        attempt_ok (get_destination net r) k (λ n. requests n r.route_via.interface t r.priority k)
          tt h in
      rw resolved (requests_again n r.route_via.interface t r.priority k (rw resolved at h))
