-- ===== src/Tests.antt =====
-- The theorems at concrete data.
pub mod Samples
mod Config
mod Loader
mod Router
pub mod Repeat
mod Backed
mod Flush
mod Monitor
mod Matcher
pub mod Executor
mod Dispatcher
pub mod Indices
mod Tables
mod Names
mod Control
mod Service
mod Tasks
mod Routes
pub mod Stored
