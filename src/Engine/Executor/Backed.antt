-- ===== src/Engine/Executor/Backed.antt =====
-- src/engine/executor.rs: the record of active routes against the kernel.
use mathlib.Core.List.{Memᴰ}
use mathlib.Core.Path.{subst}
use nic_autoswitch.Common.{
  ℕ, ◌≡◌, refl, sym, ap, ◌∙◌, inl, inr, false, some, List, Bool-cases, arith, ◌==◌, Text, Text-eq,
  ℕ-eq, get, get-insert,
}
use nic_autoswitch.Error.{Result, ok, err}
use nic_autoswitch.Ip.{IpCrate}
use nic_autoswitch.Config.{RouteRule}
use nic_autoswitch.Router.Kernel.{Netlink}
use nic_autoswitch.Router.Repeat.{AddLaws, attempt_ok}
use nic_autoswitch.Router.Backed.{
  attempt_keeps, GrowLaws, IsInKernel, IsInKernel-apply_rule, IsInKernel-apply_rule_other,
}
use nic_autoswitch.Router.Rules
use nic_autoswitch.Engine.Executor.{
  ActiveRoute, RuleExecutor, tracking, track_active_route, apply_rule,
}
use nic_autoswitch.Engine.Executor.Tracking.{entry, applied}

module _ (net : IpCrate) {K : Type 0} (nl : Netlink K) (laws : AddLaws nl)
    (rules : List RouteRule) where
  -- The entries of an active route's rule, which is one of the given, are in the kernel.
  abbrev pub HasEntries : Text → ActiveRoute → K → Type 0
  HasEntries name a k =
      (r : RouteRule) × Memᴰ r rules
      × (r.name ≡ name)
      × (r.route_via.interface ≡ a.interface)
      × IsInKernel net nl laws r a.table_id k

  abbrev pub IsBacked : RuleExecutor → K → Type 0
  IsBacked x k =
      (name : Text) (a : ActiveRoute) → get name x.active_routes ≡ some a → HasEntries name a k

  module _ (grow : GrowLaws laws) where
    HasEntries-applied :
        (r : RouteRule) (idx t : ℕ) (x : RuleExecutor) (k : K) (name : Text) (a : ActiveRoute)
        → HasEntries name a k
        → HasEntries name a (applied net nl r idx t x k).1
    HasEntries-applied r idx t x k name a (r', among, named, via, there) = (
      r',
      among,
      named,
      via,
      attempt_keeps (IsInKernel net nl laws r' a.table_id) (Rules.validate_rule r) k _ there (λ _.
          IsInKernel-apply_rule_other net nl laws x.route_manager grow r idx t k r' a.table_id
            there),
    )

    IsInKernel-applied :
        (r : RouteRule) (idx t : ℕ) (x : RuleExecutor) (k : K)
        → x.route_manager.dry_run ≡ false
        → (applied net nl r idx t x k).0 ≡ ok tt
        → IsInKernel net nl laws r t (applied net nl r idx t x k).1
    IsInKernel-applied r idx t x k live h =
        let (u, valid, same) = attempt_ok (Rules.validate_rule r) k _ tt h in
        rw same (
          IsInKernel-apply_rule net nl laws x.route_manager live r idx t k
            (sym (ap (λ o. o.0) same) ∙ h))

    HasEntries-tracked :
        (r : RouteRule) (t : ℕ) (x : RuleExecutor) (k : K) (name : Text) (a : ActiveRoute)
        → Memᴰ r rules
        → IsInKernel net nl laws r t k
        → (get name x.active_routes ≡ some a → HasEntries name a k)
        → get name (track_active_route r.name r.route_via.interface t x).active_routes ≡ some a
        → HasEntries name a k
    unfolding track_active_route
    HasEntries-tracked r t x k name a among there old e =
        let found = sym (get-insert r.name name (entry r t) x.active_routes) ∙ e in
        elim (Bool-cases (r.name == name)) [
          | inl same ↦
              let e' : entry r t ≡ a = ground (arith, rw same at found) in
              subst (λ b. HasEntries name b k) e' (r, among, ground arith, refl, there)
          | inr differ ↦ old (rw differ at found)
        ]

    tracking-IsBacked :
        (r : RouteRule) (t : ℕ) (x : RuleExecutor) (o : Result (Unit {0}) × K)
        → Memᴰ r rules
        → (o.0 ≡ ok tt → IsInKernel net nl laws r t o.1)
        → IsBacked x o.1
        → let y = tracking x (λ _. track_active_route r.name r.route_via.interface t x) o in
          IsBacked y.1 y.2
    tracking-IsBacked r t x (ok u, k) among there h name a e =
        HasEntries-tracked r t x k name a among (there refl) (h name a) e
    tracking-IsBacked r t x (err e', k) among there h name a e = h name a e

    -- Outside a dry run, every active route still has its entries in the kernel after one of the rules
    -- was applied or failed.
    pub apply_rule-IsBacked :
        (r : RouteRule) (idx t : ℕ) (x : RuleExecutor) (k : K)
        → Memᴰ r rules
        → x.route_manager.dry_run ≡ false
        → IsBacked x k
        → IsBacked (apply_rule net nl r idx t x k).1 (apply_rule net nl r idx t x k).2
    unfolding apply_rule
    apply_rule-IsBacked r idx t x k among live h =
        tracking-IsBacked r t x (applied net nl r idx t x k) among
          (IsInKernel-applied r idx t x k live)
          (λ name a e. HasEntries-applied r idx t x k name a (h name a e))
