-- ===== src/Router/Manager.antt =====
-- src/router/manager.rs: the route manager. An operation takes the kernel's state and returns it
-- with the result.
mod Base
mod Change
mod Query
pub mod DryRun
pub mod Bounds
pub mod Flush
pub mod Left
pub mod Ipv6
unfoldable pub use Base.*
unfoldable pub use Change.*
unfoldable pub use Query.*
