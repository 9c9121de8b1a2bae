-- ===== src/Router/Manager/Query.antt =====
-- src/router/manager.rs: flushing of tables, and the query for a route. A listing is taken when it
-- is requested; deletions while it is read do not change it.
use nic_autoswitch.Common.{
  ℕ, suc, ◌+◌, Bool, true, false, ◌&&◌, ◌||◌, List, [], ◌∷◌, ℕ_discrete, if◌then◌else◌, Text, bytes,
  ◌==◌, Text-eq, ℕ-eq,
}
use nic_autoswitch.Error.{Error, route, request_failed, Result, ok, err, ◌>>=◌, ◌>>◌}
use nic_autoswitch.Ip.{
  IpAddr, IpNetwork, IpAddr-discrete, IpAddr-eq, IpNetwork-eq, is_ipv4, ip, prefix,
}
use nic_autoswitch.Router.Kernel.{
  Reply, done, failed, IpVersion, ipv4, ipv6, RouteAttribute, RouteMessage, Stream, end, broken,
  item, Netlink,
}
use nic_autoswitch.Router.Manager.Base.{table_id_to_u8, version, RouteManager}
use nic_autoswitch.Router.Manager.Change.{attempt, handle_or_error, resolve_interface_index}

-- A deletion that fails is logged and not counted.
abbrev count_done : Reply → ℕ → ℕ
count_done done n = suc n
count_done (failed e) n = n

abbrev pub listing_failed : Error
listing_failed = route (request_failed (bytes "list"))

-- `while let Some(x) = stream.try_next().await? { if wanted { delete } }`
unfoldable pub delete_each :
    {A K : Type 0} → (A → Bool) → (A → K → Reply × K) → Stream A → ℕ → K → Result ℕ × K
delete_each wanted del end n k = (ok n, k)
delete_each wanted del (broken e) n k = (err listing_failed, k)
delete_each wanted del (item a rest) n k =
    let kept = delete_each wanted del rest n k in
    let (reply, k') = del a k in
    let gone = delete_each wanted del rest (count_done reply n) k' in
    if wanted a then gone else kept

unfoldable pub has_destination : IpAddr → List RouteAttribute → Bool
unfolding IpAddr-discrete
has_destination a [] = false
has_destination a (RouteAttribute.destination b ∷ l) = b == a || has_destination a l
has_destination a (_ ∷ l) = has_destination a l

unfoldable pub uses_interface : ℕ → List RouteAttribute → Bool
unfolding ℕ_discrete
uses_interface i [] = false
uses_interface i (RouteAttribute.oif j ∷ l) = j == i || uses_interface i l
uses_interface i (_ ∷ l) = uses_interface i l

-- the loop of `route_exists`, which stops at the first route that fits
unfoldable pub find_route : IpNetwork → Stream RouteMessage → Result Bool
unfolding has_destination ℕ_discrete
find_route dst end = ok false
find_route dst (broken e) = err listing_failed
find_route dst (item r rest) =
    let later = find_route dst rest in
    if r.destination_prefix_length == prefix dst && has_destination (ip dst) r.attributes
    then ok true
    else later

module _ {K : Type 0} (nl : Netlink K) (rm : RouteManager) where
  unfoldable pub flush_table : ℕ → K → Result ℕ × K
  unfolding table_id_to_u8 delete_each
  flush_table table_id k =
      if rm.dry_run
      then (ok 0, k)
      else attempt (handle_or_error rm >> table_id_to_u8 table_id) k
          λ table. delete_each (λ _. true) nl.route_del (nl.routes ipv4 table k) 0 k

  -- The rules of a version that name the table; `n` rules are gone before.
  unfoldable pub flush_rules : IpVersion → (table n : ℕ) → K → Result ℕ × K
  unfolding delete_each ℕ_discrete
  flush_rules v table n k = delete_each (λ r. r.table == table) nl.rule_del (nl.rules v k) n k

  unfoldable pub flush_table_policy_rules : ℕ → K → Result ℕ × K
  unfolding table_id_to_u8 flush_rules
  flush_table_policy_rules table_id k =
      if rm.dry_run
      then (ok 0, k)
      else attempt (handle_or_error rm >> table_id_to_u8 table_id) k λ table.
        let (counted, k') = flush_rules ipv4 table 0 k in
        attempt counted k' λ n. flush_rules ipv6 table n k'

  unfoldable pub flush_table_complete : ℕ → K → Result ℕ × K
  unfolding flush_table flush_table_policy_rules
  flush_table_complete table_id k =
      let (routes, k') = flush_table table_id k in
      attempt routes k' λ n.
        let (rules, k'') = flush_table_policy_rules table_id k' in
        attempt rules k'' λ m. (ok (n + m), k'')

  unfoldable pub route_exists : IpNetwork → ℕ → K → Result Bool
  unfolding table_id_to_u8 find_route
  route_exists dst table_id k = if rm.dry_run then ok false else do
    handle_or_error rm
    table ← table_id_to_u8 table_id
    find_route dst (nl.routes (version (is_ipv4 dst)) table k)

  unfoldable pub flush_interface_routes : Text → ℕ → K → Result ℕ × K
  unfolding resolve_interface_index table_id_to_u8 delete_each uses_interface
  flush_interface_routes interface table_id k =
      if rm.dry_run
      then (ok 0, k)
      else attempt
          (do
            if_index ← resolve_interface_index nl rm interface k
            table ← table_id_to_u8 table_id
            ok (if_index, table))
          k
          λ (if_index, table).
            delete_each (λ r. uses_interface if_index r.attributes) nl.route_del
              (nl.routes ipv4 table k) 0 k
