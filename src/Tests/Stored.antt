-- ===== src/Tests/Stored.antt =====
-- src/router/manager.rs: a kernel that holds the messages that name its entries, and an interface that
-- goes down.
use mathlib.Core.List.{Memᴰ}
use nic_autoswitch.Common.{
  ℕ, negsuc, ◌≡◌, refl, sym, ap, ◌∙◌, inl, inr, Option, none, some, [], ◌∷◌, ◌++◌, ◌≢◌, Bool, true,
  false, arith, ℕ_discrete, if◌then◌else◌, Eq, ◌==◌, Text-discrete, Text-eq, ℕ-eq, ==_iff, values,
  get,
}
use nic_autoswitch.Error.{Result, ok}
use nic_autoswitch.Ip.{IpAddr, IpAddr-discrete, IpNetwork, ip, prefix, IpAddr-eq, IpNetwork-eq}
use nic_autoswitch.Config.{RouteRule, RouteRule-eq}
use nic_autoswitch.Router.Kernel.{
  NetlinkError, netlink_error, Reply, done, failed, IpVersion, RouteAttribute, RouteMessage,
  RouteAdd, RuleAttribute, RuleMessage, RuleAdd, end, found, missing, Netlink,
}
use nic_autoswitch.Router.Manager.{is_already_exists, is_no_such_entry}
use nic_autoswitch.Router.Rules.{get_destination}
use nic_autoswitch.Router.Repeat.{AddLaws}
use nic_autoswitch.Router.Undo.{attribute_of, rule_message_of}
use nic_autoswitch.Router.Backed.{IsInKernel, GrowLaws}
use nic_autoswitch.Router.Apart.{MayTake, DeleteLaws, Shares}
use nic_autoswitch.Engine.Dispatcher.{handle_interface_down, active_routes}
use nic_autoswitch.Engine.Dispatcher.Names.{rules_of}
use nic_autoswitch.Engine.Dispatcher.Stuck.{FamilyLaw, handle_interface_down-stuck}
use mathlib.Core.Path.{subst}
use nic_autoswitch.Engine.Dispatcher.Others.{handle_interface_down-IsInKernel}
use nic_autoswitch.Tests.Samples.{
  sample_net, eth0, vpn0, host_rule, sample_config, sample_dispatcher,
}
use nic_autoswitch.Tests.Executor.{sample-IsTracked}
use nic_autoswitch.Tests.Repeat.{eexist}

-- The message that names what a request added.
abbrev pub route_message_of : RouteAdd → RouteMessage
route_message_of m = record {
  family = some m.version;
  table = m.table_id;
  protocol = m.protocol;
  destination_prefix_length = m.prefix_length;
  attributes = RouteAttribute.destination m.destination ∷ [];
}

pub RuleMessage-discrete : Discrete RuleMessage
RuleMessage-discrete = hlevel (ℕ_discrete, IpAddr-discrete)

pub RouteMessage-discrete : Discrete RouteMessage
RouteMessage-discrete = hlevel (ℕ_discrete, IpAddr-discrete)

instance abbrev pub RuleMessage-eq : Eq RuleMessage
RuleMessage-eq = record { dec = RuleMessage-discrete }

instance abbrev pub RouteMessage-eq : Eq RouteMessage
RouteMessage-eq = record { dec = RouteMessage-discrete }

module _ {A : Type 0} ⦃e : Eq A⦄ where
  abbrev pub put : A → Bool → (A → Bool) → A → Bool
  put a b f x = if x == a then b else f x

  abbrev pub add : A → (A → Bool) → Reply × (A → Bool)
  add a f = if f a then (failed eexist, f) else (done, put a true f)

  pub added_there : (a : A) (f : A → Bool) → (add a f).1 a ≡ true
  added_there a f = ground (arith, ==_iff a a)

  pub added_keeps : (a x : A) (f : A → Bool) → f x ≡ true → (add a f).1 x ≡ true
  added_keeps a x f h = ground arith

  deleted_keeps : (a x : A) (f : A → Bool) → a ≢ x → f x ≡ true → put a false f x ≡ true
  deleted_keeps a x f ne h = ground (arith, ==_iff x a)

  pub added_again : (a : A) (f : A → Bool) → f a ≡ true → add a f ≡ (failed eexist, f)
  added_again a f h = rw h refl

-- The rules and the routes.
abbrev pub Stored : Type 0
Stored = (RuleMessage → Bool) × (RouteMessage → Bool)

-- EOPNOTSUPP
abbrev unsupported : NetlinkError
unsupported = netlink_error (some (negsuc 94))

-- A request with no family is refused.
abbrev delete_route : Option IpVersion → RouteMessage → Stored → Reply × Stored
delete_route none m k = (failed unsupported, k)
delete_route (some v) m k = (done, (k.0, put m false k.1))

abbrev pub stored_netlink : Netlink Stored
stored_netlink = record {
  route_add = λ m k. let (reply, routes) = add (route_message_of m) k.1 in (reply, (k.0, routes));
  route_del = λ m k. delete_route m.family m k;
  rule_add = λ m k. let (reply, rules) = add (rule_message_of m) k.0 in (reply, (rules, k.1));
  rule_del = λ m k. (done, (put m false k.0, k.1));
  routes = λ v t k. end;
  rules = λ v k. end;
  link_by_name = λ name k. if name == vpn0 then missing else found 2;
}

pub eexist_exists : is_already_exists eexist ≡ true
unfolding is_already_exists ℕ_discrete
eexist_exists = refl

abbrev pub stored_laws : AddLaws stored_netlink
stored_laws = record {
  HasRoute = λ m k. k.1 (route_message_of m) ≡ true;
  HasRule = λ m k. k.0 (rule_message_of m) ≡ true;
  route_done = λ m k h. added_there (route_message_of m) k.1;
  route_exists = λ m k e h x. added_there (route_message_of m) k.1;
  route_again = λ m k h. (eexist, eexist_exists, rw (added_again (route_message_of m) k.1 h) refl);
  rule_done = λ m k h. added_there (rule_message_of m) k.0;
  rule_exists = λ m k e h x. added_there (rule_message_of m) k.0;
  rule_again = λ m k h. (eexist, eexist_exists, rw (added_again (rule_message_of m) k.0 h) refl);
  route_keeps_rule = λ m n k h. h;
  route_keeps_link = λ m name k. refl;
}

abbrev pub stored_grow : GrowLaws stored_laws
stored_grow = record {
  route_keeps_route = λ m n k h. added_keeps (route_message_of m) (route_message_of n) k.1 h;
  rule_keeps_rule = λ m n k h. added_keeps (rule_message_of m) (rule_message_of n) k.0 h;
  rule_keeps_route = λ m n k h. h;
  rule_keeps_link = λ m name k. refl;
}

abbrev full : Stored
full = (λ m. true, λ m. true)

delete_keeps_rules :
    (f : Option IpVersion) (m : RouteMessage) (k : Stored) → (delete_route f m k).1.0 ≡ k.0
delete_keeps_rules none m k = refl
delete_keeps_rules (some v) m k = refl

delete_keeps_other :
    (f : Option IpVersion) (m n : RouteMessage) (k : Stored)
    → m ≢ n
    → k.1 n ≡ true
    → (delete_route f m k).1.1 n ≡ true
delete_keeps_other none m n k ne h = h
delete_keeps_other (some v) m n k ne h = deleted_keeps m n k.1 ne h

-- The destination that the attributes of a rule name is that of its request.
named_rule :
    (a b : IpAddr) (s : Option (IpAddr × ℕ)) (p : ℕ)
    → Memᴰ (RuleAttribute.destination a) (
        RuleAttribute.destination b
        ∷ (attribute_of RuleAttribute.source s ++ RuleAttribute.priority p ∷ []))
    → a ≡ b
named_rule a b s p (Memᴰ.head e) = cc
named_rule a b none p (Memᴰ.tail (Memᴰ.head e)) = cc
named_rule a b none p (Memᴰ.tail (Memᴰ.tail m)) = elim m [ ]
named_rule a b (some (c, w)) p (Memᴰ.tail (Memᴰ.head e)) = cc
named_rule a b (some (c, w)) p (Memᴰ.tail (Memᴰ.tail (Memᴰ.head e))) = cc
named_rule a b (some (c, w)) p (Memᴰ.tail (Memᴰ.tail (Memᴰ.tail m))) = elim m [ ]

named_route :
    (a b : IpAddr) → Memᴰ (RouteAttribute.destination a) (RouteAttribute.destination b ∷ []) → a ≡ b
named_route a b (Memᴰ.head e) = cc
named_route a b (Memᴰ.tail m) = elim m [ ]

rule_differs :
    (n n' : IpNetwork) (m : RuleMessage) (q : RuleAdd)
    → Memᴰ (RuleAttribute.destination (ip n)) m.attributes
    → m.dst_len ≡ prefix n
    → q.destination ≡ some (ip n', prefix n')
    → (MayTake sample_net n n' → ⊥)
    → m ≢ rule_message_of q
rule_differs n n' m q named wide dst apart same =
    let there = rw dst at (
      subst (λ (x : RuleMessage). Memᴰ (RuleAttribute.destination (ip n)) x.attributes) same
        named) in
    let width : m.dst_len ≡ prefix n' = rw dst at (ap (λ (x : RuleMessage). x.dst_len) same) in
    apart (inr (sym wide ∙ width, inl (named_rule (ip n) (ip n') q.source q.priority there)))

route_differs :
    (n n' : IpNetwork) (m : RouteMessage) (q : RouteAdd)
    → Memᴰ (RouteAttribute.destination (ip n)) m.attributes
    → m.destination_prefix_length ≡ prefix n
    → q.destination ≡ ip n'
    → q.prefix_length ≡ prefix n'
    → (MayTake sample_net n n' → ⊥)
    → m ≢ route_message_of q
route_differs n n' m q named wide dst width apart same =
    let there =
      subst (λ (x : RouteMessage). Memᴰ (RouteAttribute.destination (ip n)) x.attributes) same
        named in
    let wide' = ap (λ (x : RouteMessage). x.destination_prefix_length) same in
    apart (inr (sym wide ∙ wide' ∙ width, inl (named_route (ip n) q.destination there ∙ dst)))

abbrev stored_deletes : DeleteLaws sample_net stored_laws
stored_deletes = record {
  other_rule = λ n n' m q k named wide dst apart h.
      deleted_keeps m (rule_message_of q) k.0 (rule_differs n n' m q named wide dst apart) h;
  other_route = λ n n' m q k named wide dst width apart h.
      delete_keeps_other m.family m (route_message_of q) k
        (route_differs n n' m q named wide dst width apart) h;
  rule_leaves_route = λ m q k h. h;
  route_leaves_rule = λ m q k h. rw (delete_keeps_rules m.family m k) h;
  rule_leaves_link = λ m name k. refl;
  route_leaves_link = λ m name k. refl;
}

family_refused :
    (f : Option IpVersion) (m : RouteMessage) (k : Stored)
    → f ≡ none
    → (e : NetlinkError) × (is_no_such_entry e ≡ false) × ((delete_route f m k).0 ≡ failed e)
unfolding is_no_such_entry ℕ_discrete
family_refused none m k h = (unsupported, refl, refl)
family_refused (some v) m k h = cc

abbrev stored_families : FamilyLaw stored_netlink
stored_families = record { unspecified = λ m k h. family_refused m.family m k h }

handle_interface_down-stuck_example :
    (handle_interface_down sample_net stored_netlink eth0 sample_dispatcher full).1.executor
    ≡ sample_dispatcher.executor
handle_interface_down-stuck_example =
    handle_interface_down-stuck sample_net stored_netlink stored_families eth0 sample_dispatcher
      full refl

host_there : IsInKernel sample_net stored_netlink stored_laws host_rule 101 full
unfolding get_destination Text-discrete
host_there = (IpNetwork.v4 167838211 32, 2, refl, refl, refl, refl)

networks_apart :
    (n n' : IpNetwork)
    → ◌≡◌ {A = Result IpNetwork} (ok (IpNetwork.v4 167772160 8)) (ok n)
    → ◌≡◌ {A = Result IpNetwork} (ok (IpNetwork.v4 167838211 32)) (ok n')
    → MayTake sample_net n n'
    → ⊥
networks_apart n n' h f may =
    let office : IpNetwork.v4 167772160 8 ≡ n = cc in
    let host : IpNetwork.v4 167838211 32 ≡ n' = cc in
    let eight = ap prefix office in
    let wide = ap prefix host in
    elim may [
      | inl all ↦ omega (arith, eight, all)
      | inr (same, _) ↦ omega (arith, eight, wide, same)
    ]

office_apart :
    (r : RouteRule)
    → Memᴰ r (rules_of sample_config)
    → r.name ≢ host_rule.name
    → Shares sample_net r host_rule
    → ⊥
unfolding get_destination values
office_apart r (Memᴰ.head e) ne (n, n', h, f, may) = networks_apart n n' (rw e at h) f may
office_apart r (Memᴰ.tail (Memᴰ.head e)) ne s = absurd (ne (rw e refl))
office_apart r (Memᴰ.tail (Memᴰ.tail m)) ne s = elim m [ ]

handle_interface_down-IsInKernel_example :
    IsInKernel sample_net stored_netlink stored_laws host_rule 101
      (handle_interface_down sample_net stored_netlink eth0 sample_dispatcher full).2
unfolding get active_routes Text-discrete
handle_interface_down-IsInKernel_example =
    handle_interface_down-IsInKernel sample_net stored_netlink stored_laws stored_deletes host_rule
      101 eth0 sample_dispatcher full sample-IsTracked (λ a e. absurd (cc)) office_apart host_there
