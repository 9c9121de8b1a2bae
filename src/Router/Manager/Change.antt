-- ===== src/Router/Manager/Change.antt =====
-- src/router/manager.rs: operations that add and remove routes and policy rules.
use nic_autoswitch.Common.{
  ℕ, Bool, true, false, Option, none, some, [], ◌∷◌, if◌then◌else◌, Text, bytes, Text-eq, ℕ-eq,
}
use nic_autoswitch.Error.{
  route, no_connection, request_failed, interface_not_found, Result, ok, err, ◌>>◌,
}
use nic_autoswitch.Ip.{IpAddr, IpNetwork, IpAddr-eq, IpNetwork-eq, is_ipv4, ip, prefix}
use nic_autoswitch.Router.Kernel.{
  Reply, done, failed, static_route, RouteAttribute, RouteMessage, RouteAdd, to_table, RuleAdd,
  LinkAnswer, found, missing, query_failed, Netlink,
}
use nic_autoswitch.Router.Manager.Base.{
  is_already_exists, is_no_such_entry, table_id_to_u8, of_version, version, build_rule_message,
  RouteManager,
}

-- The `match` on the reply to an add and to a delete: an entry that is there, or is gone, is a success.
unfoldable pub added : Text → Reply → Result (Unit {0})
unfolding is_already_exists
added what done = ok tt
added what (failed e) = if is_already_exists e then ok tt else err (route (request_failed what))

unfoldable pub deleted : Text → Reply → Result (Unit {0})
unfolding is_no_such_entry
deleted what done = ok tt
deleted what (failed e) = if is_no_such_entry e then ok tt else err (route (request_failed what))

abbrev same_family : Bool → Option IpAddr → Option IpAddr
same_family v4 none = none
same_family true (some (IpAddr.v4 a)) = some (IpAddr.v4 a)
same_family true (some (IpAddr.v6 a)) = none
same_family false (some (IpAddr.v4 a)) = none
same_family false (some (IpAddr.v6 a)) = some (IpAddr.v6 a)

abbrev endpoint : Option IpNetwork → Option (IpAddr × ℕ)
endpoint none = none
endpoint (some n) = some (ip n, prefix n)

unfoldable pub index_of : Text → LinkAnswer → Result ℕ
index_of name (found index) = ok index
index_of name missing = err (route (interface_not_found name))
index_of name (query_failed e) = err (route (request_failed name))

-- `destination`'s family, or else `source`'s, or else IPv4.
unfoldable pub is_ipv4_rule : Option IpNetwork → Option IpNetwork → Bool
is_ipv4_rule (some d) src = is_ipv4 d
is_ipv4_rule none (some s) = is_ipv4 s
is_ipv4_rule none none = true

-- Goes on with the kernel's state where the value is there, and leaves it where it is not.
abbrev pub attempt {ℓ} : {A B K : Type ℓ} → Result A → K → (A → Result B × K) → Result B × K
attempt (ok a) k f = f a
attempt (err e) k f = (err e, k)

abbrev pub judge : {K : Type 0} → (Reply → Result (Unit {0})) → Reply × K → Result (Unit {0}) × K
judge f (reply, k) = (f reply, k)

unfoldable pub route_request : IpNetwork → Option IpAddr → (if_index table_id metric : ℕ) → RouteAdd
route_request dst gw if_index table_id metric = record {
  version = version (is_ipv4 dst);
  destination = ip dst;
  prefix_length = prefix dst;
  output_interface = if_index;
  table_id = table_id;
  protocol = static_route;
  gateway = same_family (is_ipv4 dst) gw;
  metric = metric;
}

-- `RouteMessage::default()`, of which the address family is never set.
unfoldable pub route_key : IpNetwork → ℕ → RouteMessage
route_key dst table = record {
  family = none;
  table = table;
  protocol = static_route;
  destination_prefix_length = prefix dst;
  attributes = RouteAttribute.destination (ip dst) ∷ [];
}

unfoldable pub rule_request :
    Option IpNetwork → Option IpNetwork → (table_id priority : ℕ) → RuleAdd
unfolding is_ipv4_rule
rule_request dst src table_id priority =
    let v4 = is_ipv4_rule dst src in
    record {
      version = version v4;
      action = to_table;
      destination = endpoint (of_version v4 dst);
      source = endpoint (of_version v4 src);
      table_id = table_id;
      priority = priority;
    }

abbrev pub handle_or_error : RouteManager → Result (Unit {0})
handle_or_error rm = if rm.handle then ok tt else err (route no_connection)

module _ {K : Type 0} (nl : Netlink K) (rm : RouteManager) where
  unfoldable pub resolve_interface_index : Text → K → Result ℕ
  unfolding index_of
  resolve_interface_index name k = do handle_or_error rm; index_of name (nl.link_by_name name k)

  unfoldable pub add_route :
      IpNetwork → Option IpAddr → Text → (table_id metric : ℕ) → K → Result (Unit {0}) × K
  unfolding resolve_interface_index route_request added
  add_route dst gw interface table_id metric k =
      if rm.dry_run
      then (ok tt, k)
      else attempt (resolve_interface_index interface k) k λ if_index.
        judge (added interface) (nl.route_add (route_request dst gw if_index table_id metric) k)

  unfoldable pub remove_route : IpNetwork → ℕ → K → Result (Unit {0}) × K
  unfolding table_id_to_u8 route_key deleted
  remove_route dst table_id k =
      if rm.dry_run
      then (ok tt, k)
      else attempt (handle_or_error rm >> table_id_to_u8 table_id) k
          λ table. judge (deleted (bytes "route")) (nl.route_del (route_key dst table) k)

  unfoldable pub add_policy_rule :
      Option IpNetwork → Option IpNetwork → (table_id priority : ℕ) → K → Result (Unit {0}) × K
  unfolding rule_request added
  add_policy_rule dst src table_id priority k =
      if rm.dry_run
      then (ok tt, k)
      else attempt (handle_or_error rm) k
          λ _. judge (added (bytes "rule")) (nl.rule_add (rule_request dst src table_id priority) k)

  unfoldable pub remove_policy_rule :
      Option IpNetwork → Option IpNetwork → (table_id priority : ℕ) → K → Result (Unit {0}) × K
  unfolding is_ipv4_rule build_rule_message deleted
  remove_policy_rule dst src table_id priority k =
      if rm.dry_run
      then (ok tt, k)
      else attempt
          (handle_or_error rm
            >> build_rule_message dst src table_id priority (is_ipv4_rule dst src))
          k λ msg. judge (deleted (bytes "rule")) (nl.rule_del msg k)
