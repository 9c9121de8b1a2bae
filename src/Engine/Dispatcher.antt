-- ===== src/Engine/Dispatcher.antt =====
-- src/engine/dispatcher.rs: the event dispatcher. The locks are held for single reads and writes, and
-- the daemon's loop makes one call at a time; so a call is one step on the dispatcher and the kernel.
mod State
mod Apply
mod Handle
pub mod Removing
pub mod Keeps
pub mod Applied
pub mod Backed
pub mod Forgotten
pub mod Cleanup
pub mod Stays
pub mod Names
pub mod Unordered
pub mod Others
pub mod Stuck
pub mod Invariant
pub mod Down
pub mod Defaults
pub mod Indices
pub mod Tables
pub mod Fixed
pub mod Initial
pub mod Reloaded
pub mod Wifi
unfoldable pub use State.*
unfoldable pub use Apply.*
unfoldable pub use Handle.*
