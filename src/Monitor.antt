-- ===== src/Monitor.antt =====
-- src/monitor: events, the network state and the netlink monitor.
pub mod Events
pub mod State
pub mod Netlink
pub mod NetworkManager
