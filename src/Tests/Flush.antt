-- ===== src/Tests/Flush.antt =====
-- src/router/manager.rs: a flush, on a kernel with a route of each version.
use nic_autoswitch.Common.{
  ◌≡◌, refl, Bool, true, false, some, if◌then◌else◌, [], ◌∷◌, arith, Text-eq, ℕ-eq,
}
use nic_autoswitch.Ip.{IpAddr, is_ipv4_addr, IpAddr-eq, IpNetwork-eq}
use nic_autoswitch.Router.Kernel.{
  done, IpVersion, ipv4, ipv6, static_route, RouteAttribute, RouteMessage, RuleMessage, Stream, end,
  item, found, Netlink,
}
use nic_autoswitch.Router.Manager.{flush_table, flush_table_complete, table_id_to_u8}
use nic_autoswitch.Router.Manager.Flush.{Listed, FlushLaws}
use nic_autoswitch.Router.Manager.Left.{
  RouteRefused, RuleRefused, when_listed, flush_table_complete-left,
}
use nic_autoswitch.Router.Manager.Ipv6.{Ipv6Laws}
use nic_autoswitch.Engine.Dispatcher.{cleanup_stale_tables}
use nic_autoswitch.Engine.Dispatcher.Cleanup.{routes-cleanup_stale_tables}
use nic_autoswitch.Tests.Samples.{sample_net, sample_manager, sample_dispatcher}

-- Whether the route of IPv4 is there, and whether that of IPv6.
abbrev pub Routes : Type 0
Routes = Bool × Bool

abbrev route_to : IpAddr → RouteMessage
route_to a = record {
  family = some (if is_ipv4_addr a then ipv4 else ipv6);
  table = 100;
  protocol = static_route;
  destination_prefix_length = 8;
  attributes = RouteAttribute.destination a ∷ [];
}

abbrev there : IpAddr → Bool → Stream RouteMessage
there a true = item (route_to a) end
there a false = end

abbrev listed : IpVersion → Routes → Stream RouteMessage
listed ipv4 k = there (IpAddr.v4 167772160) k.0
listed ipv6 k = there (IpAddr.v6 1) k.1

abbrev delete_ipv4 : RouteMessage → Routes → Routes
delete_ipv4 m k = (false, k.1)

abbrev pub two_routes : Netlink Routes
two_routes = record {
  route_add = λ m k. (done, k);
  route_del = λ m k. (done, delete_ipv4 m k);
  rule_add = λ m k. (done, k);
  rule_del = λ m k. (done, k);
  routes = λ v t k. listed v k;
  rules = λ v k. end;
  link_by_name = λ name k. found 2;
}

abbrev flush_laws : FlushLaws two_routes
flush_laws = record {
  route_gone = λ m t k d l. l;
  route_shrinks = λ m t n k l. absurd l;
  rule_gone = λ m v k d l. l;
  rule_shrinks = λ m v n k l. l;
  routes_apart = λ m v t k. refl;
}

abbrev ipv6_laws : Ipv6Laws two_routes
ipv6_laws = record { ipv4_only = λ m t k0 l i k. refl; routes_apart = λ m i k. refl }

flush_table_complete-left_example :
    let k1 = (flush_table two_routes sample_manager 100 (true, true)).1 in
    let k' = (flush_table_complete two_routes sample_manager 100 (true, true)).1 in
    ((m : RouteMessage)
      → Listed m (listed ipv4 k')
      → RouteRefused two_routes flush_laws sample_manager refl 100 (omega arith) (true, true) m)
    × ((v : IpVersion) (m : RuleMessage)
        → m.table ≡ 100
        → Listed m (two_routes.rules v k')
        → RuleRefused two_routes flush_laws sample_manager refl 100
            (omega arith)
            v
            (when_listed two_routes flush_laws sample_manager refl 100 (omega arith) v k1)
            m)
unfolding flush_table_complete table_id_to_u8
flush_table_complete-left_example =
    flush_table_complete-left two_routes flush_laws sample_manager refl 100 (omega arith) 1
      (true, true) refl

routes-cleanup_stale_tables_example :
    two_routes.routes ipv6 200
      (cleanup_stale_tables sample_net two_routes sample_dispatcher (true, true))
    ≡ two_routes.routes ipv6 200 (true, true)
routes-cleanup_stale_tables_example =
    routes-cleanup_stale_tables sample_net two_routes ipv6_laws 200 (true, true) sample_dispatcher
