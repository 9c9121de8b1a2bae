-- ===== src/Daemon.antt =====
-- src/daemon: the control socket, the service, signals and systemd.
pub mod Json
pub mod Control
pub mod Systemd
pub mod Signals
pub mod Service
pub mod Main
