-- ===== src/Daemon/Service/Reload.antt =====
-- src/daemon/service.rs: the two ways to reload the configuration.
use nic_autoswitch.Common.{◌≡◌, refl, Text-eq, ℕ-eq}
use nic_autoswitch.Error.{Result, ok, err}
use nic_autoswitch.Config.{Config}
use nic_autoswitch.Config.Loader.{FileRead}
use nic_autoswitch.Daemon.Systemd.{notify_ready, notify_reloading}
use nic_autoswitch.Daemon.Service.{
  running, reloading, DaemonService, World, load_twice, accept_config, reload_configuration,
  reload_config,
}

-- Both for what was loaded.
abbrev signalled_reload : {K : Type 0} → Result Config → World K → World K
signalled_reload r w =
    let s = accept_config r (record w.service { state = reloading }) in
    record w {
      service = record s { state = running };
      sent = notify_ready s.systemd (notify_reloading w.service.systemd w.sent);
    }

abbrev called_reload : {K : Type 0} → Result Config → World K → World K
called_reload r w = record w {
  service = record (accept_config r w.service) { state = running };
  sent = notify_ready w.service.systemd (notify_reloading w.service.systemd w.sent);
}

same_reload :
    {K : Type 0} (r : Result Config) (w : World K) → signalled_reload r w ≡ called_reload r w
same_reload (ok c) w = refl
same_reload (err e) w = refl

-- A signal to reload does to the service what a call of the control interface does that meets the
-- same reads of the file, and besides makes its state running and tells systemd before and after it;
-- the kernel stays as it was.
pub reload_configuration-reload_config :
    {K : Type 0} (first second : FileRead) (w : World K)
    → let s = w.service in
      let called : DaemonService = (reload_config first second s).1 in
      let after : World K = record {
        service = record called { state = running };
        kernel = w.kernel;
        sent = notify_ready s.systemd (notify_reloading s.systemd w.sent);
      } in
      reload_configuration first second w ≡ after
unfolding reload_configuration reload_config
reload_configuration-reload_config first second w =
    same_reload (load_twice w.service.service_config.config_path first second) w
