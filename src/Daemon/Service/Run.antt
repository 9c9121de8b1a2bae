-- ===== src/Daemon/Service/Run.antt =====
-- src/daemon/service.rs and src/main.rs: the main loop, the life of the service, and the daemon.
use nic_autoswitch.Common.{
  ℕ, Bool, true, false, Option, none, some, List, [], ◌∷◌, if◌then◌else◌, Text, bytes, Text-eq,
  ℕ-eq,
}
use nic_autoswitch.Error.{invalid_input, runtime_not_created, Result, ok, err}
use nic_autoswitch.Ip.{IpCrate}
use nic_autoswitch.Config.Loader.{FileRead}
use nic_autoswitch.Monitor.Netlink.{LinkItem}
use nic_autoswitch.Router.Kernel.{Netlink}
use nic_autoswitch.Engine.Dispatcher
use nic_autoswitch.Daemon.Signals.{Signal, Received, signalled, closed, lagged}
use nic_autoswitch.Daemon.Signals
use nic_autoswitch.Daemon.Systemd.{
  notify_ready, notify_reloading, notify_stopping, watchdog_keepalive,
}
use nic_autoswitch.Daemon.Service.{
  running, stopped, ServiceConfig, DaemonService, World, new_service, init, reload_configuration,
  request_shutdown, reload_config, apply_initial_routes, poll_network_changes,
}

-- A call of the control interface by another task that changes the service.
pub data ServiceCall : Type 0 where
  requests_shutdown : ServiceCall
  reloads_config : (first second : FileRead) → ServiceCall

-- The whole of a call, which falls between two turns of the loop. Daemon/Service/Tasks has the reloads
-- step by step, with any number of tasks at once.
unfoldable pub after_call : ServiceCall → DaemonService → DaemonService
unfolding request_shutdown reload_config
after_call requests_shutdown s = request_shutdown s
after_call (reloads_config first second) s = (reload_config first second s).1

-- What happens next: a branch of `select!` is ready, or another task calls the service. A reload
-- meets the two reads of the file, and a poll sees the links.
pub data Wakeup : Type 0 where
  receives : Received → (first second : FileRead) → Wakeup
  poll_tick : Option (List LinkItem) → Wakeup
  watchdog_tick : Wakeup
  calls : ServiceCall → Wakeup

unfoldable pub ends : Wakeup → Bool
ends (receives (signalled Signals.shutdown) first second) = true
ends (receives closed first second) = true
ends _ = false

pub record Args : Type 0 where
  pub config : Text
  pub dry_run : Bool
  pub log_level : Option Text
  pub foreground : Bool

-- What the program meets before its main loop.
pub record Environment : Type 0 where
  pub runtime : Bool
  pub first : FileRead
  pub second : FileRead
  pub terms : Bool
  pub hangups : Bool
  pub notify_socket : Option Text
  pub watchdog_usec : Option Text
  pub connects : Bool
  pub init_links : Option (List LinkItem)
  pub start_links : Option (List LinkItem)
  pub now : ℕ

unfoldable pub service_config_of : Args → ServiceConfig
service_config_of args = record {
  config_path = args.config;
  socket_path = bytes "/run/nic-autoswitch/control.sock";
  enable_hot_reload = true;
  dry_run = args.dry_run;
}

-- The world in which nothing was sent yet.
abbrev pub new_world : {K : Type 0} → DaemonService → K → World K
new_world s k = record { service = s; kernel = k; sent = [] }

module _ (to_decimal : ℕ → Text) (net : IpCrate) {K : Type 0} (nl : Netlink K) where
  abbrev pub set_service : (DaemonService → DaemonService) → World K → World K
  set_service f w = record w { service = f w.service }

  -- The body of the loop; the watchdog's branch is ready only if it is enabled, as is the keepalive.
  unfoldable pub turn : Wakeup → World K → World K
  unfolding request_shutdown reload_configuration poll_network_changes watchdog_keepalive after_call
  turn (receives (signalled Signals.shutdown) first second) w = record w {
    service = record w.service { shutdown = true };
  }
  turn (receives (signalled Signals.reload) first second) w = reload_configuration first second w
  turn (receives closed first second) w = w
  turn (receives lagged first second) w = w
  turn (poll_tick links) w = poll_network_changes to_decimal net nl links w
  turn watchdog_tick w = record w { sent = watchdog_keepalive w.service.systemd w.sent }
  turn (calls c) w = record w { service = after_call c w.service }

  -- `none`: the loop waits for the next wake-up.
  unfoldable pub main_loop : List Wakeup → World K → Option (Result (Unit {0})) × World K
  unfolding turn ends
  main_loop [] w = (none, w)
  main_loop (x ∷ l) w =
      let w' = turn x w in
      let later = main_loop l w' in if ends x then (some (ok tt), w') else later

  unfoldable pub startup : (now : ℕ) → World K → World K
  unfolding notify_reloading Dispatcher.start
  startup now w = record w {
    service = record w.service {
      start_time = some now;
      dispatcher = Dispatcher.start w.service.dispatcher;
      state = running;
    };
    sent = notify_reloading w.service.systemd w.sent;
  }

  -- The state passes through `stopping`.
  unfoldable pub shut_down : World K → World K
  unfolding notify_stopping Dispatcher.stop
  shut_down w = record w {
    service = record w.service {
      dispatcher = Dispatcher.stop w.service.dispatcher;
      state = stopped;
    };
    sent = notify_stopping w.service.systemd w.sent;
  }

  abbrev pub after_loop :
      Option (Result (Unit {0})) × World K → Option (Result (Unit {0})) × World K
  after_loop (none, w) = (none, w)
  after_loop (some r, w) = (some r, shut_down w)

  abbrev pub after_start :
      List Wakeup → Result (Unit {0}) × World K → Option (Result (Unit {0})) × World K
  after_start l (err e, w) = (some (err e), w)
  after_start l (ok _, w) =
      after_loop (main_loop l (record w { sent = notify_ready w.service.systemd w.sent }))

  unfoldable pub run :
      (now : ℕ)
      → Option (List LinkItem)
      → List Wakeup
      → World K
      → Option (Result (Unit {0})) × World K
  unfolding startup apply_initial_routes notify_ready main_loop shut_down
  run now links l w = after_start l (apply_initial_routes to_decimal net nl links (startup now w))

  abbrev pub run_initialized :
      Environment
      → List Wakeup
      → K
      → Result (Unit {0}) × DaemonService
      → Option (Result (Unit {0})) × K
  run_initialized env l k (err e, s) = (some (err e), k)
  run_initialized env l k (ok _, s) =
      let (r, w) = run env.now env.start_links l (new_world s k) in (r, w.kernel)

  abbrev pub run_created :
      Environment → List Wakeup → K → Result DaemonService → Option (Result (Unit {0})) × K
  run_created env l k (err e) = (some (err e), k)
  run_created env l k (ok s) =
      run_initialized env l k (init to_decimal env.connects env.init_links s)

  -- `none`: the daemon runs on.
  unfoldable pub run_daemon : Args → Environment → List Wakeup → K → Option (Result (Unit {0})) × K
  unfolding new_service init run service_config_of
  run_daemon args env l k =
      if env.runtime
      then run_created env l k (
          new_service (service_config_of args) env.first env.second env.terms env.hangups
            env.notify_socket env.watchdog_usec)
      else (some (err (invalid_input runtime_not_created)), k)
