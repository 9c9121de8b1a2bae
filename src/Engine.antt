-- ===== src/Engine.antt =====
-- src/engine: the rule matcher, the executor and the dispatcher.
pub mod Matcher
pub mod Executor
pub mod Dispatcher
