-- ===== src/Cli.antt =====
-- src/cli: the client of the control socket and the commands of the command line.
pub mod Client
pub mod Commands
pub mod Served
pub mod Display
pub mod Routes
