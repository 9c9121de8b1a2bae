-- ===== src/Config.antt =====
-- src/config: the schema and its validation.
mod Schema
mod Pattern
mod Validate
pub mod Loader
pub mod Watcher
pub mod Wildcards
pub mod Accepted
unfoldable pub use Schema.*
unfoldable pub use Pattern.*
unfoldable pub use Validate.*
