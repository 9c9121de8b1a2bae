-- ===== src/Router/Undo.antt =====
-- src/router/rules.rs and src/router/manager.rs: a policy rule that was added is removed.
use nic_autoswitch.Common.{
  ℕ, ◌≤◌, ◌≡◌, refl, true, false, Option, none, some, List, [], ◌∷◌, ◌++◌, arith, Text, Text-eq,
  ℕ-eq,
}
use nic_autoswitch.Error.{ok}
use nic_autoswitch.Ip.{IpAddr, IpNetwork, IpCrate}
use nic_autoswitch.Router.Kernel.{
  done, RouteMessage, RouteAdd, RuleAttribute, RuleMessage, RuleAdd, Netlink,
}
use nic_autoswitch.Config.{RouteRule}
use nic_autoswitch.Router.Rules.{get_destination, get_gateway, apply_rule}
use nic_autoswitch.Router.Repeat.{AddLaws}
use nic_autoswitch.Router.Manager.{
  table_id_to_u8, build_rule_message, RouteManager, added, deleted, is_ipv4_rule, route_request,
  rule_request, resolve_interface_index, add_route, add_policy_rule, remove_policy_rule,
}

abbrev length_of : Option (IpAddr × ℕ) → ℕ
length_of none = 0
length_of (some (a, n)) = n

abbrev pub attribute_of : (IpAddr → RuleAttribute) → Option (IpAddr × ℕ) → List RuleAttribute
attribute_of f none = []
attribute_of f (some (a, n)) = f a ∷ []

-- The message that names what a request added.
abbrev pub rule_message_of : RuleAdd → RuleMessage
rule_message_of m = record {
  family = m.version;
  table = m.table_id;
  action = m.action;
  dst_len = length_of m.destination;
  src_len = length_of m.source;
  attributes =
      attribute_of RuleAttribute.destination m.destination
      ++ attribute_of RuleAttribute.source m.source
      ++ RuleAttribute.priority m.priority ∷ [];
}

-- What netlink documents of its requests to delete rules: if no rule matches a message, then there is no
-- entry of the message, and what is added as a new entry of it is what the message deletes. Routes do not
-- matter to rules.
pub record UndoLaws {K : Type 0} {nl : Netlink K} (laws : AddLaws nl) : Type 1 where
  pub Unmatched : RuleMessage → K → Type 0
  pub unmatched_none :
      (m : RuleAdd) (k : K) → Unmatched (rule_message_of m) k → laws.HasRule m k → ⊥
  pub rule_undone :
      (m : RuleAdd) (k : K)
      → Unmatched (rule_message_of m) k
      → (nl.rule_add m k).0 ≡ done
      → nl.rule_del (rule_message_of m) (nl.rule_add m k).1 ≡ (done, k)
  pub route_add_unmatched :
      (m : RouteAdd) (n : RuleMessage) (k : K) → Unmatched n k → Unmatched n (nl.route_add m k).1
  pub route_del_unmatched :
      (m : RouteMessage) (n : RuleMessage) (k : K)
      → Unmatched n k
      → Unmatched n (nl.route_del m k).1
  pub apart :
      (m : RouteAdd) (n : RuleMessage) (k : K)
      → nl.rule_del n (nl.route_add m k).1
        ≡ ((nl.rule_del n k).0, (nl.route_add m (nl.rule_del n k).1).1)

small_table : (t : ℕ) → t ≤ 255 → table_id_to_u8 t ≡ ok t
unfolding table_id_to_u8
small_table t h = ground arith

-- A table above 255 has no message; the others have the one that names the request.
message_of_request :
    (n : IpNetwork) (t p : ℕ)
    → t ≤ 255
    → build_rule_message (some n) none t p (is_ipv4_rule (some n) none)
      ≡ ok (rule_message_of (rule_request (some n) none t p))
unfolding build_rule_message rule_request is_ipv4_rule
message_of_request (IpNetwork.v4 a l) t p h = rw (small_table t h) refl
message_of_request (IpNetwork.v6 a l) t p h = rw (small_table t h) refl

module _ {K : Type 0} (nl : Netlink K) (laws : AddLaws nl) (undo : UndoLaws laws)
    (rm : RouteManager) (live : rm.dry_run ≡ false) (on : rm.handle ≡ true) where
  policy_added :
      (n : IpNetwork) (t p : ℕ) (k : K)
      → (nl.rule_add (rule_request (some n) none t p) k).0 ≡ done
      → add_policy_rule nl rm (some n) none t p k
        ≡ (ok tt, (nl.rule_add (rule_request (some n) none t p) k).1)
  unfolding add_policy_rule added
  policy_added n t p k h = rw (live, on) (rw h refl)

  route_added :
      (n : IpNetwork) (i : Text) (t p index : ℕ) (k : K)
      → resolve_interface_index nl rm i k ≡ ok index
      → (nl.route_add (route_request n none index t p) k).0 ≡ done
      → add_route nl rm n none i t p k
        ≡ (ok tt, (nl.route_add (route_request n none index t p) k).1)
  unfolding add_route added
  route_added n i t p index k known h = rw (live, known) (rw h refl)

  -- A rule whose entries are new is applied with success.
  pub apply_rule_new :
      (net : IpCrate) (r : RouteRule) (n : IpNetwork) (interface_index t index : ℕ) (k : K)
      → get_destination net r ≡ ok n
      → let k1 = (nl.rule_add (rule_request (some n) none t r.priority) k).1 in
        (nl.rule_add (rule_request (some n) none t r.priority) k).0 ≡ done
        → resolve_interface_index nl rm r.route_via.interface k1 ≡ ok index
        → (nl.route_add (route_request n none index t r.priority) k1).0 ≡ done
        → apply_rule net nl rm r interface_index t k
          ≡ (ok tt, (nl.route_add (route_request n none index t r.priority) k1).1)
  unfolding apply_rule get_gateway
  apply_rule_new net r n interface_index t index k destination ruled known routed =
      let k1 = (nl.rule_add (rule_request (some n) none t r.priority) k).1 in
      rw (destination, policy_added n t r.priority k ruled)
        (route_added n r.route_via.interface t r.priority index k1 known routed)

  pub policy_removed :
      (n : IpNetwork) (t p : ℕ) (m : RouteAdd) (k : K)
      → t ≤ 255
      → undo.Unmatched (rule_message_of (rule_request (some n) none t p)) k
      → (nl.rule_add (rule_request (some n) none t p) k).0 ≡ done
      → let k1 = (nl.rule_add (rule_request (some n) none t p) k).1 in
        remove_policy_rule nl rm (some n) none t p (nl.route_add m k1).1
        ≡ (ok tt, (nl.route_add m k).1)
  unfolding remove_policy_rule deleted
  policy_removed n t p m k small fresh h =
      let request = rule_request (some n) none t p in
      let k1 = (nl.rule_add request k).1 in
      let undone = undo.rule_undone request k fresh h in
      let moved = undo.apart m (rule_message_of request) k1 in
      rw (live, on, message_of_request n t p small) (rw moved (rw undone refl))

  -- Outside a dry run, with a connection and a table up to 255, and under the laws of the requests to
  -- delete rules: if no rule matches the message that removes the policy rule of a destination, and the
  -- policy rule is added as a new entry, then its removal takes the kernel back to where it was.
  pub remove_policy_rule-add_policy_rule :
      (n : IpNetwork) (t p : ℕ) (k : K)
      → t ≤ 255
      → undo.Unmatched (rule_message_of (rule_request (some n) none t p)) k
      → (nl.rule_add (rule_request (some n) none t p) k).0 ≡ done
      → remove_policy_rule nl rm (some n) none t p (add_policy_rule nl rm (some n) none t p k).1
        ≡ (ok tt, k)
  unfolding remove_policy_rule deleted
  remove_policy_rule-add_policy_rule n t p k small fresh h =
      let undone = undo.rule_undone (rule_request (some n) none t p) k fresh h in
      rw (policy_added n t p k h) (rw (live, on, message_of_request n t p small) (rw undone refl))
