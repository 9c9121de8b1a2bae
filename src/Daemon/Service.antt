-- ===== src/Daemon/Service.antt =====
-- src/daemon/service.rs: the service and its operations. The locks are held for single reads and
-- writes; an operation is a step on the service, the kernel and what was sent to systemd.
pub mod Run
pub mod Keeps
pub mod Ending
pub mod Outcome
pub mod Start
pub mod Dry
pub mod Polled
pub mod Reload
pub mod Tasks
pub mod Progress
pub mod Interleaved
pub mod Alternating
pub mod Race
pub mod Alone
use Prim.Native.Nat.{◌/◌}
use nic_autoswitch.Common.{
  ℕ, ◌-◌, Bool, true, false, ◌||◌, Option, none, some, List, [], ◌∷◌, Text, bytes, Text-eq, ℕ-eq,
  length, Map,
}
use nic_autoswitch.Error.{Result, ok, err, ◌>>=◌, ◌>>◌}
use nic_autoswitch.Ip.{IpCrate}
use nic_autoswitch.Config.{Config, default_global}
use nic_autoswitch.Config.Loader.{FileRead, new_loader, load}
use nic_autoswitch.Monitor.State.{InterfaceInfo}
use nic_autoswitch.Monitor.Netlink.{
  LinkItem, snapshot_interfaces, get_interfaces, NetlinkMonitor, new_netlink_monitor, poll_changes,
}
use nic_autoswitch.Monitor.Events.{NetworkEvent}
use nic_autoswitch.Router.Kernel.{Netlink}
use nic_autoswitch.Router.Manager.{RouteManager, with_connection, default_route_manager}
use nic_autoswitch.Engine.Executor.{ActiveRoute}
use nic_autoswitch.Engine.Dispatcher.{
  EventDispatcher, new_dispatcher, set_route_manager, update_config, handle_events,
  apply_initial_state, active_routes,
}
use nic_autoswitch.Daemon.Json.{Json}
use nic_autoswitch.Daemon.Control.{DaemonStatus, ControlState, or_null}
use nic_autoswitch.Daemon.Signals.{register_signals}
use nic_autoswitch.Daemon.Systemd.{SystemdNotify, new_systemd, notify_ready, notify_reloading}

pub data ServiceState : Type 0 where
  initializing running reloading stopping stopped : ServiceState

pub record ServiceConfig : Type 0 where
  pub config_path : Text
  pub socket_path : Text
  pub enable_hot_reload : Bool
  pub dry_run : Bool

unfoldable pub default_service_config : ServiceConfig
default_service_config = record {
  config_path = bytes "/etc/nic-autoswitch/config.toml";
  socket_path = bytes "/run/nic-autoswitch/control.sock";
  enable_hot_reload = true;
  dry_run = false;
}

-- The receivers of signals are the environment's: what they get comes with the wake-ups.
pub record DaemonService : Type 0 where
  pub service_config : ServiceConfig
  pub config : Config
  pub dispatcher : EventDispatcher
  pub systemd : SystemdNotify
  pub state : ServiceState
  pub start_time : Option ℕ  -- in ns
  pub shutdown : Bool
  pub netlink_monitor : Option NetlinkMonitor

pub record World (K : Type 0) : Type 0 where
  pub service : DaemonService
  pub kernel : K
  pub sent : List Text

-- `ConfigLoader::new` and then `load`, which reads the file a second time.
unfoldable pub load_twice : Text → (first second : FileRead) → Result Config
unfolding new_loader load
load_twice path first second = do loader ← new_loader path first; load loader second

unfoldable pub new_service :
    ServiceConfig
    → (first second : FileRead) → (terms hangups : Bool)
    → (notify_socket watchdog_usec : Option Text) → Result DaemonService
unfolding load_twice new_dispatcher default_route_manager register_signals new_systemd
new_service service_config first second terms hangups notify_socket watchdog_usec = do
  config ← load_twice service_config.config_path first second
  register_signals terms hangups
  ok (record {
    service_config = service_config;
    config = config;
    dispatcher = new_dispatcher config default_route_manager;
    systemd = new_systemd notify_socket watchdog_usec;
    state = initializing;
    start_time = none;
    shutdown = false;
    netlink_monitor = none;
  })

abbrev pub init_with :
    Result RouteManager → Result NetlinkMonitor → DaemonService → Result (Unit {0}) × DaemonService
init_with (err e) monitor s = (err e, s)
init_with (ok rm) (err e) s = (err e, record s { dispatcher = set_route_manager rm s.dispatcher })
init_with (ok rm) (ok m) s =
    (ok tt, record s { dispatcher = set_route_manager rm s.dispatcher; netlink_monitor = some m })

-- `connects` is whether the manager gets its connection, and `links` what the monitor sees.
unfoldable pub init :
    (to_decimal : ℕ → Text)
    → (connects : Bool) → (links : Option (List LinkItem)) → DaemonService
    → Result (Unit {0}) × DaemonService
unfolding with_connection set_route_manager new_netlink_monitor
init to_decimal connects links s =
    let dry_run = s.service_config.dry_run || s.config.global.dry_run in
    init_with (with_connection connects s.config.global.table_id_start dry_run)
      (new_netlink_monitor to_decimal links) s

-- `MonitorGuard::take`, and what its `Drop` does.
abbrev pub take_monitor : DaemonService → Option NetlinkMonitor × DaemonService
take_monitor s = (s.netlink_monitor, record s { netlink_monitor = none })

abbrev pub put_monitor : NetlinkMonitor → DaemonService → DaemonService
put_monitor m s = record s { netlink_monitor = some m }

abbrev pub accept_config : Result Config → DaemonService → DaemonService
accept_config (err e) s = s
accept_config (ok c) s = record s { config = c; dispatcher = update_config c s.dispatcher }

abbrev pub forget : Result Config → Result (Unit {0})
forget (ok c) = ok tt
forget (err e) = err e

unfoldable pub reload_configuration : {K : Type 0} → (first second : FileRead) → World K → World K
unfolding load_twice update_config notify_reloading notify_ready
reload_configuration first second w =
    let reloading_sent = notify_reloading w.service.systemd w.sent in
    let s =
      accept_config (load_twice w.service.service_config.config_path first second)
        (record w.service { state = reloading }) in
    record w {
      service = record s { state = running };
      sent = notify_ready s.systemd reloading_sent;
    }

unfoldable pub request_shutdown : DaemonService → DaemonService
request_shutdown s = record s { shutdown = true }

unfoldable pub reload_config :
    (first second : FileRead) → DaemonService → Result (Unit {0}) × DaemonService
unfolding load_twice update_config
reload_config first second s =
    let loaded = load_twice s.service_config.config_path first second in
    (forget loaded, accept_config loaded s)

-- `{:?}`
abbrev pub state_text : ServiceState → Text
state_text initializing = bytes "Initializing"
state_text running = bytes "Running"
state_text reloading = bytes "Reloading"
state_text stopping = bytes "Stopping"
state_text stopped = bytes "Stopped"

abbrev pub uptime : (now : ℕ) → Option ℕ → ℕ
uptime now none = 0
uptime now (some start) = (now - start) / 1000000000

abbrev pub routes_to_json : (ActiveRoute → Option Json) → Map Text ActiveRoute → Map Text Json
routes_to_json to_value [] = []
routes_to_json to_value ((name, r) ∷ m) = (name, or_null (to_value r)) ∷ routes_to_json to_value m

-- The trait for the service; `now` is the clock, and a reload meets the two reads.
unfoldable pub service_control :
    (version : Text)
    → (to_value : ActiveRoute → Option Json) → (now : ℕ) → (first second : FileRead)
    → ControlState DaemonService
unfolding active_routes reload_config request_shutdown
service_control version to_value now first second = record {
  get_status = λ s. record {
    version = version;
    state = state_text s.state;
    uptime_secs = uptime now s.start_time;
    active_routes = length (active_routes s.dispatcher);
  };
  get_active_routes = λ s. routes_to_json to_value (active_routes s.dispatcher);
  reload_config = λ s. reload_config first second s;
  is_shutdown_requested = λ s. s.shutdown;
  request_shutdown = λ s. request_shutdown s;
}

module _ (to_decimal : ℕ → Text) (net : IpCrate) {K : Type 0} (nl : Netlink K) where
  abbrev pub initial_routes : Result (List InterfaceInfo) → World K → Result (Unit {0}) × World K
  initial_routes (err e) w = (err e, w)
  initial_routes (ok interfaces) w =
      let (r, d, k) = apply_initial_state net nl interfaces w.service.dispatcher w.kernel in
      (r, record w { service = record w.service { dispatcher = d }; kernel = k })

  -- Without a monitor there is nothing to do; the guard puts it back.
  abbrev pub initial_routes_if :
      Option NetlinkMonitor → Option (List LinkItem) → World K → Result (Unit {0}) × World K
  initial_routes_if none links w = (ok tt, w)
  initial_routes_if (some m) links w = initial_routes (get_interfaces to_decimal links) w

  unfoldable pub apply_initial_routes :
      Option (List LinkItem) → World K → Result (Unit {0}) × World K
  unfolding get_interfaces apply_initial_state
  apply_initial_routes links w = initial_routes_if w.service.netlink_monitor links w

  abbrev pub handle_polled : Result (List NetworkEvent) × NetlinkMonitor → World K → World K
  handle_polled (err e, m) w = record w { service = put_monitor m w.service }
  handle_polled (ok events, m) w =
      let (d, k) = handle_events net nl events w.service.dispatcher w.kernel in
      record w { service = put_monitor m (record w.service { dispatcher = d }); kernel = k }

  abbrev pub poll_taken :
      Option NetlinkMonitor × DaemonService → Option (List LinkItem) → World K → World K
  poll_taken (none, s) links w = w
  poll_taken (some m, s) links w =
      handle_polled (poll_changes (snapshot_interfaces to_decimal links) m)
        (record w { service = s })

  unfoldable pub poll_network_changes : Option (List LinkItem) → World K → World K
  unfolding snapshot_interfaces poll_changes handle_events
  poll_network_changes links w = poll_taken (take_monitor w.service) links w
