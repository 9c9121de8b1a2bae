-- ===== src/Daemon/Service/Keeps.antt =====
-- src/daemon/service.rs: what the service keeps, if every call on its dispatcher keeps it.
use nic_autoswitch.Common.{
  ℕ, ◌≡◌, refl, inl, inr, Option, none, some, List, [], ◌∷◌, Bool-cases, Text, Text-eq, ℕ-eq,
}
use nic_autoswitch.Error.{Result, ok, err}
use nic_autoswitch.Ip.{IpCrate}
use nic_autoswitch.Config.{Config}
use nic_autoswitch.Config.Loader.{FileRead}
use nic_autoswitch.Monitor.State.{InterfaceInfo}
use nic_autoswitch.Monitor.Events.{NetworkEvent}
use nic_autoswitch.Monitor.Netlink.{
  LinkItem, snapshot_interfaces, get_interfaces, NetlinkMonitor, poll_changes,
}
use nic_autoswitch.Router.Kernel.{Netlink}
use nic_autoswitch.Engine.Dispatcher.{
  EventDispatcher, update_config, start, stop, handle_events, apply_initial_state,
}
use nic_autoswitch.Daemon.Signals.{Received, signalled, closed, lagged}
use nic_autoswitch.Daemon.Signals
use nic_autoswitch.Daemon.Service.{
  reloading, DaemonService, World, load_twice, take_monitor, accept_config, reload_configuration,
  request_shutdown, reload_config, initial_routes, initial_routes_if, apply_initial_routes,
  handle_polled, poll_taken, poll_network_changes,
}
use nic_autoswitch.Daemon.Service.Run.{
  ServiceCall, requests_shutdown, reloads_config, after_call, Wakeup, receives, poll_tick,
  watchdog_tick, calls, ends, turn, main_loop, startup, shut_down, after_loop, after_start, run,
}

module _ (to_decimal : ℕ → Text) (net : IpCrate) {K : Type 0} (nl : Netlink K)
    (Q : Config → EventDispatcher → K → Type 0)
    (keep_reload : (path : Text) (a b : FileRead) (c c' : Config) (d : EventDispatcher) (k : K)
      → load_twice path a b ≡ ok c'
      → Q c d k
      → Q c' (update_config c' d) k)
    (keep_events : (es : List NetworkEvent) (c : Config) (d : EventDispatcher) (k : K)
      → Q c d k
      → Q c (handle_events net nl es d k).0 (handle_events net nl es d k).1) where
  abbrev pub Holds : World K → Type 0
  Holds w = Q w.service.config w.service.dispatcher w.kernel

  keep_accept :
      (path : Text) (a b : FileRead) (r : Result Config) (s : DaemonService) (k : K)
      → load_twice path a b ≡ r
      → Q s.config s.dispatcher k
      → Q (accept_config r s).config (accept_config r s).dispatcher k
  keep_accept path a b (ok c) s k e h = keep_reload path a b s.config c s.dispatcher k e h
  keep_accept path a b (err x) s k e h = h

  keep_call :
      (c : ServiceCall) (s : DaemonService) (k : K)
      → Q s.config s.dispatcher k
      → Q (after_call c s).config (after_call c s).dispatcher k
  unfolding after_call reload_config request_shutdown
  keep_call requests_shutdown s k h = h
  keep_call (reloads_config a b) s k h = keep_accept s.service_config.config_path a b _ s k refl h

  keep_polled :
      (o : Result (List NetworkEvent) × NetlinkMonitor) (w : World K)
      → Holds w
      → Holds (handle_polled to_decimal net nl o w)
  keep_polled (ok es, m) w h = keep_events es w.service.config w.service.dispatcher w.kernel h
  keep_polled (err e, m) w h = h

  keep_taken :
      (m : Option NetlinkMonitor) (s : DaemonService) (links : Option (List LinkItem)) (w : World K)
      → Q s.config s.dispatcher w.kernel
      → Holds w
      → Holds (poll_taken to_decimal net nl (m, s) links w)
  keep_taken none s links w h h' = h'
  keep_taken (some m) s links w h h' =
      keep_polled (poll_changes (snapshot_interfaces to_decimal links) m) (record w { service = s })
        h

  pub turn-Holds : (x : Wakeup) (w : World K) → Holds w → Holds (turn to_decimal net nl x w)
  unfolding turn reload_configuration poll_network_changes
  turn-Holds (receives (signalled Signals.shutdown) a b) w h = h
  turn-Holds (receives (signalled Signals.reload) a b) w h =
      let s = w.service in
      keep_accept s.service_config.config_path a b _ (record s { state = reloading }) w.kernel refl
        h
  turn-Holds (receives closed a b) w h = h
  turn-Holds (receives lagged a b) w h = h
  turn-Holds (poll_tick links) w h =
      let (m, s) = take_monitor w.service in keep_taken m s links w h h
  turn-Holds watchdog_tick w h = h
  turn-Holds (calls c) w h = keep_call c w.service w.kernel h

  pub main_loop-Holds :
      (l : List Wakeup) (w : World K) → Holds w → Holds (main_loop to_decimal net nl l w).1
  unfolding main_loop
  main_loop-Holds [] w h = h
  main_loop-Holds (x ∷ l) w h =
      let after = turn-Holds x w h in
      elim (Bool-cases (ends x)) [
        | inl last ↦ rw last after
        | inr more ↦ rw more (main_loop-Holds l (turn to_decimal net nl x w) after)
      ]

  module _ (keep_start : (c : Config) (d : EventDispatcher) (k : K) → Q c d k → Q c (start d) k)
      (keep_stop : (c : Config) (d : EventDispatcher) (k : K) → Q c d k → Q c (stop d) k)
      (keep_initial : (l : List InterfaceInfo) (c : Config) (d : EventDispatcher) (k : K)
        → Q c d k
        → Q c (apply_initial_state net nl l d k).1 (apply_initial_state net nl l d k).2) where
    keep_interfaces :
        (r : Result (List InterfaceInfo)) (w : World K)
        → Holds w
        → Holds (initial_routes to_decimal net nl r w).1
    keep_interfaces (ok l) w h = keep_initial l w.service.config w.service.dispatcher w.kernel h
    keep_interfaces (err e) w h = h

    keep_routes :
        (m : Option NetlinkMonitor) (links : Option (List LinkItem)) (w : World K)
        → Holds w
        → Holds (initial_routes_if to_decimal net nl m links w).1
    keep_routes none links w h = h
    keep_routes (some m) links w h = keep_interfaces (get_interfaces to_decimal links) w h

    keep_end :
        (o : Option (Result (Unit {0})) × World K)
        → Holds o.1
        → Holds (after_loop to_decimal net nl o).1
    unfolding shut_down
    keep_end (none, w) h = h
    keep_end (some r, w) h = keep_stop w.service.config w.service.dispatcher w.kernel h

    keep_run :
        (l : List Wakeup) (o : Result (Unit {0}) × World K)
        → Holds o.1
        → Holds (after_start to_decimal net nl l o).1
    keep_run l (err e, w) h = h
    keep_run l (ok x, w) h = keep_end _ (main_loop-Holds l _ h)

    pub run-Holds :
        (now : ℕ) (links : Option (List LinkItem)) (l : List Wakeup) (w : World K)
        → Holds w
        → Holds (run to_decimal net nl now links l w).1
    unfolding run startup apply_initial_routes
    run-Holds now links l w h =
        let s = w.service in
        keep_run l _ (
          keep_routes s.netlink_monitor links (startup to_decimal net nl now w)
            (keep_start s.config s.dispatcher w.kernel h))
