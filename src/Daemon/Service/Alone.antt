-- ===== src/Daemon/Service/Alone.antt =====
-- src/daemon/service.rs: what one reload comes to by its moves, if no other task interrupts it.
use nic_autoswitch.Common.{ℕ, suc, ◌≡◌, refl, Text-eq, ℕ-eq}
use nic_autoswitch.Error.{Result, ok, err}
use nic_autoswitch.Config.{Config}
use nic_autoswitch.Config.Loader.{FileRead}
use nic_autoswitch.Engine.Dispatcher.{update_config}
use nic_autoswitch.Daemon.Service.{
  DaemonService, World, load_twice, accept_config, reload_configuration, reload_config,
}
use nic_autoswitch.Daemon.Service.Tasks.{
  idle, enter, leave, begin, load, refuse, store, compute, put_indices, put_config, finish,
  new_indices, Solo, unmoved, and_then,
}

-- What a task comes to, for what it loads.
alone :
    (i : ℕ) (s : DaemonService) (first second : FileRead) (o : Result Config)
    → load_twice (enter i s).service_config.config_path first second ≡ o
    → Solo i first second s idle (leave i (accept_config o (enter i s))) idle
unfolding update_config
alone i s first second (ok c) l =
    let stored = record (enter i s) { config = c } in
    let loads = and_then (and_then unmoved begin tt) (load first second c l) (refl, refl) in
    let writes = and_then (and_then loads (store c) tt) (compute c) tt in
    let passes = and_then writes (put_indices c (new_indices c stored)) tt in
    and_then (and_then passes (put_config c) tt) finish tt
alone i s first second (err e) l =
    and_then (and_then (and_then unmoved begin tt) (refuse first second e l) (refl, refl)) finish tt

-- A task that no other interrupts comes by its moves, from idle to idle, to the state that its
-- operation gives for the same reads of the file: a task that serves a call of the control interface
-- to that of `reload_config`, and the main loop to that of `reload_configuration`.
pub Solo-reload :
    {K : Type 0} (first second : FileRead) (i : ℕ) (w : World K)
    → Solo (suc i) first second w.service idle (reload_config first second w.service).1 idle
      × Solo 0 first second w.service idle (reload_configuration first second w).service idle
unfolding reload_config reload_configuration
Solo-reload first second i w =
    let s = w.service in
    let path = s.service_config.config_path in
    (
      alone (suc i) s first second (load_twice path first second) refl,
      alone 0 s first second (load_twice path first second) refl,
    )
