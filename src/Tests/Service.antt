-- ===== src/Tests/Service.antt =====
-- src/daemon/service.rs and src/daemon/systemd.rs: a service of the sample configuration.
use nic_autoswitch.Common.{
  ℕ, ◌+◌, ◌*◌, ◌≤◌, ◌<◌, ◌≡◌, refl, ◌↔◌, ◌⊎◌, true, false, Option, none, some, List, [], ◌∷◌,
  ℕ_discrete, Text, bytes, Text-eq, ℕ-eq, get, insert,
}
use nic_autoswitch.Error.{ok}
use nic_autoswitch.Config.{
  RouteRule-eq, validate_interface, validate_rule, validate_rules, validate_profile, validate,
}
use nic_autoswitch.Config.Loader.{parsed, malformed, new_loader, load, load_from_path}
use nic_autoswitch.Monitor.Netlink.{
  LinkItem, extract_link_snapshot, collect_snapshot, snapshot_interfaces, NetlinkMonitor,
  transition, detect_changes, detect_removed, poll_changes,
}
use nic_autoswitch.Router.Manager.{default_route_manager}
use nic_autoswitch.Engine.Executor.Tracking.{entry}
use nic_autoswitch.Engine.Dispatcher.{new_dispatcher, active_routes, rules_map}
use nic_autoswitch.Daemon.Signals.{signalled, register_signals}
use nic_autoswitch.Daemon.Signals
use nic_autoswitch.Daemon.Systemd.{parse_digits, parse_u64, get_watchdog_interval, new_systemd}
use nic_autoswitch.Daemon.Systemd.Watchdog.{get_watchdog_interval_bounds}
use nic_autoswitch.Daemon.Service.{
  initializing, DaemonService, World, load_twice, new_service, init, poll_network_changes,
}
use nic_autoswitch.Daemon.Service.Run.{
  requests_shutdown, Wakeup, receives, poll_tick, watchdog_tick, calls, Args, Environment,
  service_config_of, new_world, main_loop, run, run_daemon,
}
use nic_autoswitch.Daemon.Service.Ending.{HasEnd, main_loop_ends_iff}
use nic_autoswitch.Daemon.Service.Outcome.{Outcome, run-Outcome}
use nic_autoswitch.Daemon.Service.Start.{IsSynced, daemon-IsSynced}
use nic_autoswitch.Daemon.Service.Dry.{run_daemon_dry}
use nic_autoswitch.Engine.Dispatcher.Down.{DownFails}
use nic_autoswitch.Daemon.Service.Polled.{poll_network_changes-removes}
use nic_autoswitch.Monitor.Events.{down}
use nic_autoswitch.Tests.Samples.{
  sample_net, sample_netlink, eth0, office_rule, sample_config, sample_dispatcher,
}

abbrev no_digits : ℕ → Text
no_digits n = []

abbrev sample_args : Args
sample_args = record {
  config = bytes "/etc/a.toml";
  dry_run = true;
  log_level = none;
  foreground = false;
}

abbrev eth0_up : Option (List LinkItem)
eth0_up = some (
    LinkItem.link (record { index = 2; up_flag = true; running_flag = true; if_name = some eth0 })
    ∷ [])

abbrev half_minute : Option Text
half_minute = some (bytes "30000000")

abbrev pub sample_service : DaemonService
sample_service = record {
  service_config = service_config_of sample_args;
  config = sample_config;
  dispatcher = new_dispatcher sample_config default_route_manager;
  systemd = new_systemd none half_minute;
  state = initializing;
  start_time = none;
  shutdown = false;
  netlink_monitor = none;
}

sample_service-new :
    new_service
      (service_config_of sample_args)
      (parsed sample_config)
      (parsed sample_config)
      true
      true
      none
      half_minute
    ≡ ok sample_service
unfolding new_service load_twice new_loader load load_from_path validate validate_interface
    validate_profile validate_rules validate_rule register_signals
sample_service-new = refl

abbrev day : List Wakeup
day =
    poll_tick (some [])
    ∷ receives (signalled Signals.reload) (parsed sample_config) malformed
    ∷ calls requests_shutdown
    ∷ watchdog_tick
    ∷ receives (signalled Signals.shutdown) malformed malformed
    ∷ []

abbrev pub sample_world : World ℕ
sample_world = new_world sample_service 7

abbrev initialized : World ℕ
initialized = new_world (init no_digits true eth0_up sample_service).1 7

daemon-IsSynced_example :
    let s = (run no_digits sample_net sample_netlink 5 eth0_up day initialized).1.service in
    IsSynced s.config s.dispatcher
daemon-IsSynced_example =
    daemon-IsSynced no_digits sample_net sample_netlink (service_config_of sample_args)
      (parsed sample_config) (parsed sample_config) true true none half_minute sample_service
      sample_service-new true eth0_up 5 eth0_up day 7

main_loop_ends_iff_example :
    (HasEnd day
      × ((main_loop no_digits sample_net sample_netlink day sample_world).0 ≡ some (ok tt)))
    ⊎ ((HasEnd day → ⊥)
        × ((main_loop no_digits sample_net sample_netlink day sample_world).0 ≡ none))
main_loop_ends_iff_example = main_loop_ends_iff no_digits sample_net sample_netlink day sample_world

run-Outcome_example :
    Outcome no_digits sample_net sample_netlink
      (run no_digits sample_net sample_netlink 5 eth0_up day initialized)
run-Outcome_example = run-Outcome no_digits sample_net sample_netlink 5 eth0_up day initialized

abbrev sample_environment : Environment
sample_environment = record {
  runtime = true;
  first = parsed sample_config;
  second = parsed sample_config;
  terms = true;
  hangups = true;
  notify_socket = none;
  watchdog_usec = half_minute;
  connects = true;
  init_links = eth0_up;
  start_links = eth0_up;
  now = 5;
}

run_daemon_dry_example :
    (run_daemon no_digits sample_net sample_netlink sample_args sample_environment day 7).1 ≡ 7
run_daemon_dry_example =
    run_daemon_dry no_digits sample_net sample_netlink sample_args sample_environment day 7 refl

get_watchdog_interval_bounds_example :
    (get_watchdog_interval half_minute * 4000 ≤ 30000000 * 3)
    × (30000000 * 3 < get_watchdog_interval half_minute * 4000 + 6000)
    × ((0 < get_watchdog_interval half_minute) ↔ (2000 ≤ 30000000))
unfolding parse_u64 parse_digits ℕ_discrete
get_watchdog_interval_bounds_example = get_watchdog_interval_bounds (bytes "30000000") 30000000 refl

abbrev eth0_unplugged : Option (List LinkItem)
eth0_unplugged = some (
    LinkItem.link (record { index = 2; up_flag = true; running_flag = false; if_name = some eth0 })
    ∷ [])

abbrev sample_monitor : NetlinkMonitor
sample_monitor = record {
  prev_state = (2, record { name = eth0; is_up = true }) ∷ [];
  pending = [];
}

abbrev busy_world : World ℕ
busy_world = record sample_world {
  service = record sample_service {
    dispatcher = sample_dispatcher;
    netlink_monitor = some sample_monitor;
  };
}

poll_network_changes-removes_example :
    (get (bytes "office") (
        active_routes
          (poll_network_changes no_digits sample_net sample_netlink eth0_unplugged
            busy_world).service.dispatcher)
      ≡ none)
    ⊎ DownFails sample_net sample_netlink eth0 office_rule 100 sample_dispatcher 7
unfolding active_routes rules_map get poll_changes snapshot_interfaces collect_snapshot
    extract_link_snapshot insert detect_changes detect_removed transition
poll_network_changes-removes_example =
    poll_network_changes-removes no_digits sample_net sample_netlink eth0 down eth0_unplugged
      busy_world sample_monitor office_rule (entry office_rule 100) refl refl tt refl refl refl refl
