-- ===== src/Router.antt =====
-- src/router: name resolution, the routing tables and the rule operator.
pub mod Dns
pub mod Kernel
pub mod Manager
pub mod Rules
pub mod Repeat
pub mod Undo
pub mod Backed
pub mod Apart
