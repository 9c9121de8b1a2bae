-- ===== src/Tests/Repeat.antt =====
-- src/router/rules.rs: a rule that is applied twice, and removed, on a kernel with room for one route and one rule.
use nic_autoswitch.Common.{arith}
use nic_autoswitch.Common.{
  ◌≡◌, refl, Bool, true, false, none, some, ℕ_discrete, Text-eq, ℕ-eq, negsuc,
}
use nic_autoswitch.Error.{ok}
use nic_autoswitch.Ip.{IpNetwork, IpAddr-eq, IpNetwork-eq}
use nic_autoswitch.Router.Kernel.{
  NetlinkError, netlink_error, Reply, done, failed, RouteAdd, RuleMessage, RuleAdd, end, found,
  Netlink,
}
use nic_autoswitch.Router.Manager.{is_already_exists}
use nic_autoswitch.Router.Rules
use nic_autoswitch.Router.Undo.{rule_message_of, UndoLaws, remove_policy_rule-add_policy_rule}
use nic_autoswitch.Router.Manager.{add_policy_rule, remove_policy_rule}
use nic_autoswitch.Router.Repeat.{AddLaws, apply_rule-apply_rule}
use nic_autoswitch.Tests.Samples.{sample_net, sample_manager, office_rule}

abbrev pub eexist : NetlinkError
eexist = netlink_error (some (negsuc 16))

-- Whether there is a route, and whether there is a rule.
abbrev pub OneOfEach : Type 0
OneOfEach = Bool × Bool

abbrev pub one_route : RouteAdd → OneOfEach → Reply × OneOfEach
one_route m (true, rule) = (failed eexist, (true, rule))
one_route m (false, rule) = (done, (true, rule))

abbrev pub one_rule : RuleAdd → OneOfEach → Reply × OneOfEach
one_rule m (route, true) = (failed eexist, (route, true))
one_rule m (route, false) = (done, (route, true))

abbrev pub small_netlink : Netlink OneOfEach
small_netlink = record {
  route_add = one_route;
  route_del = λ m k. (done, (false, k.1));
  rule_add = one_rule;
  rule_del = λ m k. (done, (k.0, false));
  routes = λ v t k. end;
  rules = λ v k. end;
  link_by_name = λ name k. found 2;
}

pub has_route : (m : RouteAdd) (k : OneOfEach) → (one_route m k).1.0 ≡ true
has_route m (true, rule) = refl
has_route m (false, rule) = refl

pub has_rule : (m : RuleAdd) (k : OneOfEach) → (one_rule m k).1.1 ≡ true
has_rule m (route, true) = refl
has_rule m (route, false) = refl

pub route_refused :
    (m : RouteAdd) (k : OneOfEach)
    → k.0 ≡ true
    → (e : NetlinkError) × (is_already_exists e ≡ true) × (one_route m k ≡ (failed e, k))
unfolding is_already_exists ℕ_discrete
route_refused m (true, rule) h = (eexist, refl, refl)
route_refused m (false, rule) h = cc

pub rule_refused :
    (m : RuleAdd) (k : OneOfEach)
    → k.1 ≡ true
    → (e : NetlinkError) × (is_already_exists e ≡ true) × (one_rule m k ≡ (failed e, k))
unfolding is_already_exists ℕ_discrete
rule_refused m (route, true) h = (eexist, refl, refl)
rule_refused m (route, false) h = cc

pub keeps_rule :
    (m : RouteAdd) (n : RuleAdd) (k : OneOfEach) → k.1 ≡ true → (one_route m k).1.1 ≡ true
keeps_rule m n (true, rule) h = h
keeps_rule m n (false, rule) h = h

abbrev pub small_laws : AddLaws small_netlink
small_laws = record {
  HasRoute = λ m k. k.0 ≡ true;
  HasRule = λ m k. k.1 ≡ true;
  route_done = λ m k h. has_route m k;
  route_exists = λ m k e h x. has_route m k;
  route_again = route_refused;
  rule_done = λ m k h. has_rule m k;
  rule_exists = λ m k e h x. has_rule m k;
  rule_again = rule_refused;
  route_keeps_rule = keeps_rule;
  route_keeps_link = λ m name k. refl;
}

abbrev filled : OneOfEach
filled =
    (Rules.apply_rule sample_net small_netlink sample_manager office_rule 0 100 (false, false)).1

apply_rule-apply_rule_example :
    Rules.apply_rule sample_net small_netlink sample_manager office_rule 0 100 filled
    ≡ (ok tt, filled)
unfolding Rules.apply_rule
apply_rule-apply_rule_example =
    apply_rule-apply_rule small_netlink small_laws sample_manager refl sample_net office_rule 0 100
      (false, false) refl

pub undone_rule :
    (m : RuleAdd) (k : OneOfEach)
    → (one_rule m k).0 ≡ done
    → small_netlink.rule_del (rule_message_of m) (one_rule m k).1 ≡ (done, k)
undone_rule m (route, true) h = cc
undone_rule m (route, false) h = refl

pub rules_apart :
    (m : RouteAdd) (n : RuleMessage) (k : OneOfEach)
    → small_netlink.rule_del n (one_route m k).1
      ≡ ((small_netlink.rule_del n k).0, (one_route m (small_netlink.rule_del n k).1).1)
rules_apart m n (true, rule) = refl
rules_apart m n (false, rule) = refl

pub still_unmatched : (m : RouteAdd) (k : OneOfEach) → k.1 ≡ false → (one_route m k).1.1 ≡ false
still_unmatched m (true, rule) h = h
still_unmatched m (false, rule) h = h

abbrev pub small_undo : UndoLaws small_laws
small_undo = record {
  Unmatched = λ n k. k.1 ≡ false;
  unmatched_none = λ m k h there. cc;
  rule_undone = λ m k fresh h. undone_rule m k h;
  route_add_unmatched = λ m n k h. still_unmatched m k h;
  route_del_unmatched = λ m n k h. h;
  apart = rules_apart;
}

remove_policy_rule-add_policy_rule_example :
    remove_policy_rule small_netlink sample_manager
      (some (IpNetwork.v4 167772160 8))
      none
      100
      100
      (add_policy_rule small_netlink sample_manager
        (some (IpNetwork.v4 167772160 8))
        none
        100
        100
        (false, false)).1
    ≡ (ok tt, (false, false))
remove_policy_rule-add_policy_rule_example =
    remove_policy_rule-add_policy_rule small_netlink small_laws small_undo sample_manager refl refl
      (IpNetwork.v4 167772160 8) 100 100 (false, false) (omega arith) refl refl
