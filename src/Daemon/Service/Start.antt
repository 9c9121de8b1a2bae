-- ===== src/Daemon/Service/Start.antt =====
-- src/daemon/service.rs and src/main.rs: what holds from the start of the daemon on.
use nic_autoswitch.Monitor.Netlink.{LinkItem, NetlinkMonitor, new_netlink_monitor}
use nic_autoswitch.Monitor.Netlink.{new_netlink_monitor, LinkItem, NetlinkMonitor}
use nic_autoswitch.Daemon.Service.Run.{Wakeup, new_world, run}
use mathlib.Core.Path.{subst}
use nic_autoswitch.Common.{ℕ, ◌≡◌, refl, ◌∙◌, Bool, ◌||◌, Option, List, Text, Text-eq, ℕ-eq}
use nic_autoswitch.Error.{Result, ok, err, ◌>>=◌, ◌>>◌}
use nic_autoswitch.Ip.{IpCrate}
use nic_autoswitch.Config.{Config, validate}
use nic_autoswitch.Config.Loader.{FileRead, ConfigLoader, new_loader, load}
use nic_autoswitch.Config.Loader.Accepts.{load_accepted}
use nic_autoswitch.Router.Kernel.{Netlink}
use nic_autoswitch.Router.Manager.{RouteManager, with_connection}
use nic_autoswitch.Engine.Dispatcher.{EventDispatcher, new_dispatcher, stop, update_config}
use nic_autoswitch.Engine.Dispatcher
use nic_autoswitch.Engine.Dispatcher.Fixed.{start_lem, events_same, initial-Same}
use nic_autoswitch.Daemon.Service.{
  ServiceConfig, DaemonService, World, load_twice, new_service, init_with, init,
}
use nic_autoswitch.Daemon.Service.Keeps.{run-Holds}

-- The configuration is accepted by the validation, and the dispatcher has the same one.
abbrev pub IsSynced : Config → EventDispatcher → Type 0
IsSynced c d = (d.config ≡ c) × (validate c ≡ ok tt)

later_accepted :
    (r : Result ConfigLoader) (b : FileRead) (c : Config)
    → (r >>= λ l. load l b) ≡ ok c
    → validate c ≡ ok tt
unfolding load
later_accepted (ok l) b c h = load_accepted l.path b c h
later_accepted (err e) b c h = cc

pub load_twice_accepted :
    (path : Text) (a b : FileRead) (c : Config) → load_twice path a b ≡ ok c → validate c ≡ ok tt
unfolding load_twice
load_twice_accepted path a b c h = later_accepted (new_loader path a) b c h

pub built :
    (c : Result Config) (g : Result (Unit {0})) (build : Config → DaemonService) (s : DaemonService)
    → (c >>= λ x. g >> ok (build x)) ≡ ok s
    → (x : Config) × (c ≡ ok x) × (build x ≡ s)
built (ok x) (ok u) build s h = (x, refl, cc)
built (ok x) (err e) build s h = cc
built (err e) g build s h = cc

module _ (service_config : ServiceConfig) (a b : FileRead) (terms hangups : Bool)
    (socket usec : Option Text) (s : DaemonService)
    (created : new_service service_config a b terms hangups socket usec ≡ ok s) where
  new_service-IsSynced : IsSynced s.config s.dispatcher
  unfolding new_service
  new_service-IsSynced =
      let (c, loaded, same) = built _ _ _ s created in
      subst (λ x. IsSynced x.config x.dispatcher) same
        (unfold new_dispatcher in refl, load_twice_accepted service_config.config_path a b c loaded)

module _ (P : Config → EventDispatcher → Type 0)
    (keep : (c : Config) (d : EventDispatcher) (rm : RouteManager)
      → P c d
      → P c (Dispatcher.set_route_manager rm d)) where
  init_with_keeps :
      (rm : Result RouteManager) (m : Result NetlinkMonitor) (s : DaemonService)
      → P s.config s.dispatcher
      → P (init_with rm m s).1.config (init_with rm m s).1.dispatcher
  init_with_keeps (err e) m s h = h
  init_with_keeps (ok rm) (err e) s h = keep s.config s.dispatcher rm h
  init_with_keeps (ok rm) (ok m) s h = keep s.config s.dispatcher rm h

  init_keeps :
      (to_decimal : ℕ → Text) (connects : Bool) (links : Option (List LinkItem)) (s : DaemonService)
      → P s.config s.dispatcher
      → let s' = (init to_decimal connects links s).1 in P s'.config s'.dispatcher
  unfolding init
  init_keeps to_decimal connects links s h =
      let dry_run = s.service_config.dry_run || s.config.global.dry_run in
      init_with_keeps (with_connection connects s.config.global.table_id_start dry_run)
        (new_netlink_monitor to_decimal links) s h

module _ (to_decimal : ℕ → Text) (net : IpCrate) {K : Type 0} (nl : Netlink K) where
  run-IsSynced :
      (now : ℕ) (links : Option (List LinkItem)) (l : List Wakeup) (w : World K)
      → IsSynced w.service.config w.service.dispatcher
      → let s = (run to_decimal net nl now links l w).1.service in IsSynced s.config s.dispatcher
  run-IsSynced =
      run-Holds to_decimal net nl (λ c d k. IsSynced c d)
        (λ path a b c c' d k e h. (unfold update_config in refl, load_twice_accepted path a b c' e))
        (λ es c d k h. ((events_same net nl es d k).config ∙ h.0, h.1))
        (λ c d k h. ((start_lem d).1 ∙ h.0, h.1)) (λ c d k h. (unfold stop in h.0, h.1))
        (λ l c d k h. ((initial-Same net nl l d k).config ∙ h.0, h.1))

  module _ (service_config : ServiceConfig) (a b : FileRead) (terms hangups : Bool)
      (socket usec : Option Text) (s : DaemonService)
      (created : new_service service_config a b terms hangups socket usec ≡ ok s) (connects : Bool)
      (links : Option (List LinkItem)) where
    -- Whatever becomes of the initialization of a new service, and whatever is read of the file,
    -- polled and called in a run, each call falling between two turns of the main loop: its
    -- configuration is accepted by the validation, and its dispatcher has the same one.
    pub daemon-IsSynced :
        (now : ℕ) (start_links : Option (List LinkItem)) (l : List Wakeup) (k : K)
        → let w = new_world (init to_decimal connects links s).1 k in
          let s' = (run to_decimal net nl now start_links l w).1.service in
          IsSynced s'.config s'.dispatcher
    daemon-IsSynced now start_links l k = run-IsSynced now start_links l _ (
        init_keeps IsSynced (λ c d rm h. unfold Dispatcher.set_route_manager in h) to_decimal
          connects links s
          (new_service-IsSynced service_config a b terms hangups socket usec s created))
