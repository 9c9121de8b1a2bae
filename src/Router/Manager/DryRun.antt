-- ===== src/Router/Manager/DryRun.antt =====
-- src/router/manager.rs: a manager in dry-run mode.
use nic_autoswitch.Common.{ℕ, ◌≡◌, true, Option, arith, Text, Text-eq, ℕ-eq}
use nic_autoswitch.Error.{ok}
use nic_autoswitch.Ip.{IpAddr, IpNetwork, IpAddr-eq, IpNetwork-eq}
use nic_autoswitch.Router.Kernel.{Netlink}
use nic_autoswitch.Router.Manager.Base.{RouteManager}
use nic_autoswitch.Router.Manager.Change.{
  add_route, remove_route, add_policy_rule, remove_policy_rule,
}
use nic_autoswitch.Router.Manager.Query.{flush_table_complete, flush_interface_routes}

module _ {K : Type 0} (nl : Netlink K) (rm : RouteManager) (dry : rm.dry_run ≡ true) where
  pub add_route_dry :
      (n : IpNetwork) (gw : Option IpAddr) (i : Text) (t m : ℕ) (k : K)
      → add_route nl rm n gw i t m k ≡ (ok tt, k)
  unfolding add_route
  add_route_dry n gw i t m k = rw dry

  pub remove_route_dry : (n : IpNetwork) (t : ℕ) (k : K) → remove_route nl rm n t k ≡ (ok tt, k)
  unfolding remove_route
  remove_route_dry n t k = rw dry

  pub add_policy_rule_dry :
      (dst src : Option IpNetwork) (t p : ℕ) (k : K)
      → add_policy_rule nl rm dst src t p k ≡ (ok tt, k)
  unfolding add_policy_rule
  add_policy_rule_dry dst src t p k = rw dry

  pub remove_policy_rule_dry :
      (dst src : Option IpNetwork) (t p : ℕ) (k : K)
      → remove_policy_rule nl rm dst src t p k ≡ (ok tt, k)
  unfolding remove_policy_rule
  remove_policy_rule_dry dst src t p k = rw dry

  pub flush_table_complete_dry : (t : ℕ) (k : K) → flush_table_complete nl rm t k ≡ (ok 0, k)
  unfolding flush_table_complete
  flush_table_complete_dry t k = ground arith

  pub flush_interface_routes_dry :
      (i : Text) (t : ℕ) (k : K) → flush_interface_routes nl rm i t k ≡ (ok 0, k)
  unfolding flush_interface_routes
  flush_interface_routes_dry i t k = rw dry
