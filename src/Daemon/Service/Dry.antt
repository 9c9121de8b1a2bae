-- ===== src/Daemon/Service/Dry.antt =====
-- src/daemon/service.rs and src/main.rs: the daemon in a dry run.
use nic_autoswitch.Monitor.Netlink.{LinkItem, NetlinkMonitor}
use nic_autoswitch.Monitor.Netlink.{LinkItem, NetlinkMonitor}
use nic_autoswitch.Engine.Dispatcher.Invariant.{
  IsDry, handle_events-IsDry, apply_initial_state-IsDry,
}
use nic_autoswitch.Daemon.Service.Run.{
  Wakeup, Args, Environment, service_config_of, run, run_initialized, run_created, run_daemon,
}
use nic_autoswitch.Common.{
  ℕ, ◌≡◌, refl, sym, ap, ◌∙◌, inl, inr, Bool, true, Option, List, arith, Bool-cases, Text, Text-eq,
  ℕ-eq,
}
use nic_autoswitch.Error.{Result, ok, err}
use nic_autoswitch.Ip.{IpCrate}
use nic_autoswitch.Config.Loader.{FileRead}
use nic_autoswitch.Router.Kernel.{Netlink}
use nic_autoswitch.Router.Manager.{RouteManager, with_connection}
use nic_autoswitch.Engine.Executor.{RuleExecutor, new_executor, clear_active_routes}
use nic_autoswitch.Engine.Dispatcher.{
  EventDispatcher, new_dispatcher, update_config, start, stop, handle_events, apply_initial_state,
}
use nic_autoswitch.Engine.Dispatcher
use nic_autoswitch.Engine.Executor
use nic_autoswitch.Engine.Dispatcher.Fixed.{start_lem}
use nic_autoswitch.Daemon.Service.{
  ServiceConfig, DaemonService, World, new_service, init_with, init,
}
use nic_autoswitch.Daemon.Service.Keeps.{run-Holds}
use nic_autoswitch.Daemon.Service.Start.{built}

module _ (service_config : ServiceConfig) (a b : FileRead) (terms hangups : Bool)
    (socket usec : Option Text) (s : DaemonService)
    (created : new_service service_config a b terms hangups socket usec ≡ ok s) where
  new_service-service_config : s.service_config ≡ service_config
  unfolding new_service
  new_service-service_config =
      let (c, loaded, same) = built _ _ _ s created in sym (ap (λ x. x.service_config) same)

module _ (to_decimal : ℕ → Text) (net : IpCrate) {K : Type 0} (nl : Netlink K) where
  run_dry :
      (now : ℕ) (links : Option (List LinkItem)) (l : List Wakeup) (w : World K)
      → w.service.dispatcher.executor.route_manager.dry_run ≡ true
      → (run to_decimal net nl now links l w).1.kernel ≡ w.kernel
  run_dry now links l w dry =
      (run-Holds to_decimal net nl (λ c d k. IsDry net nl w.kernel d.executor k)
        (λ path a b c c' d k e h. unfold update_config in h)
        (λ es c d k h. let dry' = handle_events-IsDry net nl es d k h.0 in (dry'.0, dry'.1 ∙ h.1))
        (λ c d k h. rw (start_lem d).2 h) (λ c d k h. unfold stop clear_active_routes in h)
        (λ l c d k h.
          let dry' = apply_initial_state-IsDry net nl l d k h.0 in (dry'.0, dry'.1 ∙ h.1))
        now links l w (dry, refl)).1

  with_connection-dry_run :
      (connects : Bool) (base : ℕ) (dry : Bool) (rm : RouteManager)
      → with_connection connects base dry ≡ ok rm
      → rm.dry_run ≡ dry
  unfolding with_connection
  with_connection-dry_run connects base dry rm h = ground arith

  initialized_dry :
      (rm : Result RouteManager) (m : Result NetlinkMonitor) (s : DaemonService) (env : Environment)
      (l : List Wakeup) (k : K)
      → ((r : RouteManager) → rm ≡ ok r → r.dry_run ≡ true)
      → (run_initialized to_decimal net nl env l k (init_with rm m s)).1 ≡ k
  unfolding Dispatcher.set_route_manager Executor.set_route_manager
  initialized_dry (err e) m s env l k dry = refl
  initialized_dry (ok r) (err e) s env l k dry = refl
  initialized_dry (ok r) (ok m) s env l k dry = run_dry env.now env.start_links l _ (dry r refl)

  created_dry :
      (r : Result DaemonService) (env : Environment) (l : List Wakeup) (k : K)
      → ((s : DaemonService) → r ≡ ok s → s.service_config.dry_run ≡ true)
      → (run_created to_decimal net nl env l k r).1 ≡ k
  unfolding init
  created_dry (err e) env l k dry = refl
  created_dry (ok s) env l k dry = initialized_dry _ _ s env l k (λ rm e.
      with_connection-dry_run env.connects s.config.global.table_id_start _ rm e
      ∙ rw (dry s refl) refl)

  -- With the option for a dry run the daemon never changes the kernel, whatever it meets, the
  -- reloads of its configuration included.
  pub run_daemon_dry :
      (args : Args) (env : Environment) (l : List Wakeup) (k : K)
      → args.dry_run ≡ true
      → (run_daemon to_decimal net nl args env l k).1 ≡ k
  unfolding run_daemon
  run_daemon_dry args env l k dry = elim (Bool-cases env.runtime) [
    | inr no_runtime ↦ rw no_runtime refl
    | inl runtime ↦ rw runtime (
        created_dry _ env l k (λ s e.
          ap (λ c. c.dry_run)
            (new_service-service_config (service_config_of args) env.first env.second env.terms
              env.hangups env.notify_socket env.watchdog_usec s e)
          ∙ (unfold service_config_of in dry)))
  ]
