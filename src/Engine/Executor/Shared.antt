-- ===== src/Engine/Executor/Shared.antt =====
-- src/engine/executor.rs: two rules that ask for the same entries of the kernel.
use nic_autoswitch.Common.{
  ℕ, ◌≡◌, ◌≢◌, ◌≤◌, refl, ap, inl, inr, Bool-cases, ◌∙◌, true, false, none, some, arith, Text-eq,
  ℕ-eq, get, insert, get-insert, get-remove,
}
use nic_autoswitch.Error.{ok}
use nic_autoswitch.Ip.{IpCrate, IpNetwork}
use nic_autoswitch.Config.{RouteRule}
use nic_autoswitch.Router.Kernel.{done, RouteMessage, RuleMessage, Netlink}
use nic_autoswitch.Router.Repeat.{AddLaws, apply_rule-apply_rule}
use nic_autoswitch.Router.Undo.{rule_message_of, UndoLaws, apply_rule_new, policy_removed}
use nic_autoswitch.Router.Backed.{attempt_keeps}
use nic_autoswitch.Engine.Executor.Invariant.{remove_rule_cases, tracking_kernel}
use nic_autoswitch.Router.Rules
use nic_autoswitch.Router.Manager
use nic_autoswitch.Router.Manager.{rule_request, route_request, resolve_interface_index}
use nic_autoswitch.Engine.Executor.{
  RuleExecutor, track_active_route, untrack_active_route, apply_rule, remove_rule,
}
use nic_autoswitch.Engine.Executor.Tracking.{entry}

module _ (net : IpCrate) {K : Type 0} (nl : Netlink K) where
  -- What the operator is asked depends on the destination, the interface and the priority.
  same_entries :
      (rm : Manager.RouteManager) (a b : RouteRule) (index t : ℕ) (k : K)
      → Rules.get_destination net b ≡ Rules.get_destination net a
      → b.route_via.interface ≡ a.route_via.interface
      → b.priority ≡ a.priority
      → Rules.apply_rule net nl rm b index t k ≡ Rules.apply_rule net nl rm a index t k
  unfolding Rules.apply_rule
  same_entries rm a b index t k destination interface priority =
      rw (destination, interface, priority) refl

  applied_ok :
      (r : RouteRule) (index t : ℕ) (x : RuleExecutor) (k k' : K)
      → Rules.validate_rule r ≡ ok tt
      → Rules.apply_rule net nl x.route_manager r index t k ≡ (ok tt, k')
      → apply_rule net nl r index t x k
        ≡ (ok tt, track_active_route r.name r.route_via.interface t x, k')
  unfolding apply_rule
  applied_ok r index t x k k' valid h = rw valid (rw h refl)

  remove_route_keeps :
      (Q : K → Type 0) (rm : Manager.RouteManager) (n : IpNetwork) (t : ℕ) (k : K)
      → ((m : RouteMessage) (k : K) → Q k → Q (nl.route_del m k).1)
      → Q k
      → Q (Manager.remove_route nl rm n t k).1
  unfolding Manager.remove_route
  remove_route_keeps Q rm n t k keep h = elim (Bool-cases rm.dry_run) [
    | inl dry ↦ rw dry h
    | inr live ↦ rw live (attempt_keeps Q _ k _ h (λ table. keep _ k h))
  ]

  twice_inserted :
      (a b : RouteRule) (t : ℕ) (x : RuleExecutor)
      → a.name ≢ b.name
      → let x1 = track_active_route a.name a.route_via.interface t x in
        let x2 = track_active_route b.name b.route_via.interface t x1 in
        (get b.name x2.active_routes ≡ some (entry b t))
        × (get b.name (untrack_active_route a.name x2).active_routes ≡ some (entry b t))
  unfolding track_active_route untrack_active_route
  twice_inserted a b t x differ =
      let m = insert a.name (entry a t) x.active_routes in
      let found : get b.name (insert b.name (entry b t) m) ≡ some (entry b t) =
        ground (arith, get-insert b.name b.name (entry b t) m) in
      (found, ground (arith, found, get-remove a.name b.name (insert b.name (entry b t) m)))

  module _ (adds : AddLaws nl) (undo : UndoLaws adds) (a b : RouteRule) (n : IpNetwork)
      (t index : ℕ) (x : RuleExecutor) (k : K) where
    -- What a rule needs for its entries to be new in a kernel.
    abbrev pub IsNew : Type 0
    IsNew =
        let k1 = (nl.rule_add (rule_request (some n) none t a.priority) k).1 in
        undo.Unmatched (rule_message_of (rule_request (some n) none t a.priority)) k
        × (Rules.get_destination net a ≡ ok n)
        × (Rules.validate_rule a ≡ ok tt)
        × ((nl.rule_add (rule_request (some n) none t a.priority) k).0 ≡ done)
        × (resolve_interface_index nl x.route_manager a.route_via.interface k1 ≡ ok index)
        × ((nl.route_add (route_request n none index t a.priority) k1).0 ≡ done)

    -- Whether two rules lead to the same entries.
    abbrev pub IsSame : Type 0
    IsSame =
        (Rules.get_destination net b ≡ Rules.get_destination net a)
        × (b.route_via.interface ≡ a.route_via.interface)
        × (b.priority ≡ a.priority)

    abbrev message : RuleMessage
    message = rule_message_of (rule_request (some n) none t a.priority)

    policy_gone :
        x.route_manager.dry_run ≡ false
        → x.route_manager.handle ≡ true
        → t ≤ 255
        → IsNew
        → undo.Unmatched message
            (Rules.remove_rule net nl x.route_manager a t
              (Rules.apply_rule net nl x.route_manager a 0 t k).1).1
    unfolding Rules.remove_rule
    policy_gone live on small (fresh, dst, valid, ruled, known, routed) =
        let rm = x.route_manager in
        let m = route_request n none index t a.priority in
        rw (apply_rule_new nl adds undo rm live on net a n 0 t index k dst ruled known routed) (
          rw (dst, policy_removed nl adds undo rm live on n t a.priority m k small fresh ruled)
            (remove_route_keeps (undo.Unmatched message) rm n t (nl.route_add m k).1
              (λ m' k' h. undo.route_del_unmatched m' message k' h)
              (undo.route_add_unmatched m message k fresh)))

    -- Outside a dry run, with a connection and a table up to 255, and under the laws of the requests: if
    -- two valid rules of different names have the same destination, interface and priority, and their
    -- entries are new, then after both are applied and the first is removed, be it with success or not,
    -- the policy rule of the second is not in the kernel, and yet the second is recorded as active.
    pub remove_rule_shared :
        x.route_manager.dry_run ≡ false
        → x.route_manager.handle ≡ true
        → t ≤ 255
        → IsNew
        → IsSame
        → Rules.validate_rule b ≡ ok tt
        → a.name ≢ b.name
        → let (_, x1, k1) = apply_rule net nl a 0 t x k in
          let (_, x2, k2) = apply_rule net nl b 0 t x1 k1 in
          let (_, x3, k3) = remove_rule net nl a t x2 k2 in
          (adds.HasRule (rule_request (some n) none t b.priority) k3 → ⊥)
          × (get b.name x3.active_routes ≡ some (entry b t))
    unfolding track_active_route remove_rule
    remove_rule_shared live on small new same valid differ =
        let rm = x.route_manager in
        let (fresh, dst, valid_a, ruled, known, routed) = new in
        let added = Rules.apply_rule net nl rm a 0 t k in
        let first : added.0 ≡ ok tt =
          ap (λ o. o.0)
            (apply_rule_new nl adds undo rm live on net a n 0 t index k dst ruled known routed) in
        let x1 = track_active_route a.name a.route_via.interface t x in
        let x2 = track_active_route b.name b.route_via.interface t x1 in
        let again : Rules.apply_rule net nl rm b 0 t added.1 ≡ (ok tt, added.1) =
          same_entries rm a b 0 t added.1 same.0 same.1 same.2
          ∙ apply_rule-apply_rule nl adds rm live net a 0 t k first in
        let (recorded, kept) = twice_inserted a b t x differ in
        let o = Rules.remove_rule net nl rm a t added.1 in
        rw (applied_ok a 0 t x k added.1 valid_a (ap (λ o. (o, added.1)) first)) (
          rw (applied_ok b 0 t x1 added.1 added.1 valid again) (
            λ there.
                undo.unmatched_none (rule_request (some n) none t a.priority) o.1
                  (policy_gone live on small new)
                  (rw (same.2, tracking_kernel x2 (λ _. untrack_active_route a.name x2) o) at
                    there),
            remove_rule_cases net nl (λ y. get b.name y.active_routes ≡ some (entry b t)) a t x2
                added.1 recorded kept,
          ))
