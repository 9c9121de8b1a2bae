-- ===== src/Engine/Dispatcher/Cleanup.antt =====
-- src/engine/dispatcher.rs: the cleaning up of the tables at the start.
use nic_autoswitch.Common.{ℕ, zero, suc, ◌+◌, ◌≡◌, refl, Text-eq, ℕ-eq}
use nic_autoswitch.Ip.{IpCrate}
use nic_autoswitch.Router.Kernel.{ipv6, Netlink}
use nic_autoswitch.Router.Manager.{RouteManager, flush_table_complete}
use nic_autoswitch.Router.Manager.Ipv6.{Ipv6Laws, Same, flush_table_complete-Same}
use nic_autoswitch.Engine.Dispatcher.State.{EventDispatcher}
use nic_autoswitch.Engine.Dispatcher.Handle.{max_interfaces, flush_tables, cleanup_stale_tables}

module _ (net : IpCrate) {K : Type 0} (nl : Netlink K) (laws : Ipv6Laws nl) (i : ℕ) (k : K) where
  flush_tables-Same :
      (rm : RouteManager) (base rounds idx : ℕ) (k' : K)
      → Same nl laws rm i k k'
      → Same nl laws rm i k (flush_tables net nl rm base rounds idx k')
  unfolding flush_tables
  flush_tables-Same rm base zero idx k' h = h
  flush_tables-Same rm base (suc rounds) idx k' h =
      let k1 = (flush_table_complete nl rm (base + idx) k').1 in
      let first = flush_table_complete-Same nl laws rm i k (base + idx) k' h in
      let second = flush_table_complete-Same nl laws rm i k (200 + idx) k1 first in
      flush_tables-Same rm base rounds (suc idx) (flush_table_complete nl rm (200 + idx) k1).1
        second

  -- Under the laws of the requests to delete, the cleaning up at the start leaves every IPv6 route
  -- where it was, in the tables of IPv6 that it flushes too.
  pub routes-cleanup_stale_tables :
      (d : EventDispatcher)
      → nl.routes ipv6 i (cleanup_stale_tables net nl d k) ≡ nl.routes ipv6 i k
  unfolding cleanup_stale_tables
  routes-cleanup_stale_tables d =
      flush_tables-Same d.executor.route_manager _ (max_interfaces net nl) 0 k refl
