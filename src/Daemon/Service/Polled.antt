-- ===== src/Daemon/Service/Polled.antt =====
-- src/daemon/service.rs: from what a poll sees to the routes of the dispatcher.
use nic_autoswitch.Error.{Result, ok, err}
use nic_autoswitch.Monitor.Netlink.{LinkItem, snapshot_interfaces, NetlinkMonitor, poll_changes}
use nic_autoswitch.Common.{
  ℕ, ◌≡◌, refl, ◌⊎◌, true, Option, none, some, List, [], ◌∷◌, Text, Text-eq, ℕ-eq, get,
}
use nic_autoswitch.Ip.{IpCrate}
use nic_autoswitch.Config.{RouteRule}
use nic_autoswitch.Monitor.Events.{InterfaceChange, NetworkEvent, up, down, added, removed}
use nic_autoswitch.Monitor.State.{apply_event}
use nic_autoswitch.Router.Kernel.{Netlink}
use nic_autoswitch.Engine.Executor.{ActiveRoute, track_active_route, untrack_active_route}
use nic_autoswitch.Engine.Executor.Invariant.{apply_rule_cases, remove_rule_cases}
use nic_autoswitch.Engine.Dispatcher.{
  is_running, EventDispatcher, update_config, active_routes, rules_map, handle_interface_change,
  process_event, handle_event, handle_events,
}
use nic_autoswitch.Engine.Dispatcher.Keeps.{keep_events}
use nic_autoswitch.Engine.Dispatcher.Down.{DownFails, handle_interface_down-removes}
use nic_autoswitch.Daemon.Service.{World, take_monitor, handle_polled, poll_network_changes}
use nic_autoswitch.Daemon.Service.Run.{Wakeup, main_loop}
use nic_autoswitch.Daemon.Service.Keeps.{main_loop-Holds}

module _ (to_decimal : ℕ → Text) (net : IpCrate) {K : Type 0} (nl : Netlink K) where
  -- No wake-ups, a reload among them, change the manager of the routes: not its first table, and not
  -- whether it runs dry.
  pub main_loop-route_manager :
      (l : List Wakeup) (w : World K)
      → (main_loop to_decimal net nl l w).1.service.dispatcher.executor.route_manager
        ≡ w.service.dispatcher.executor.route_manager
  main_loop-route_manager l w =
      let rm = w.service.dispatcher.executor.route_manager in
      main_loop-Holds to_decimal net nl (λ c d k. d.executor.route_manager ≡ rm)
        (λ path a b c c' d k e h. unfold update_config in h)
        (λ es c d k h.
          keep_events net nl (λ x k'. x.route_manager ≡ rm)
            (λ r t x k' h'.
              apply_rule_cases net nl (λ y. y.route_manager ≡ rm) r 0 t x k' h'
                (unfold track_active_route in h'))
            (λ r t x k' h'.
              remove_rule_cases net nl (λ y. y.route_manager ≡ rm) r t x k' h'
                (unfold untrack_active_route in h'))
            es d k h)
        l w refl

  -- `Down` and `Removed`
  abbrev pub IsLoss : InterfaceChange → Type 0
  IsLoss down = Unit
  IsLoss removed = Unit
  IsLoss _ = ⊥

  loss-removes :
      (i : Text) (change : InterfaceChange) (r : RouteRule) (a : ActiveRoute) (d : EventDispatcher)
      (k : K)
      → IsLoss change
      → is_running d.state ≡ true
      → get r.name (active_routes d) ≡ some a
      → a.interface ≡ i
      → get r.name (rules_map d.config) ≡ some r
      → (get r.name
            (active_routes (handle_event net nl (NetworkEvent.interface_changed i change) d k).1)
          ≡ none)
        ⊎ DownFails net nl i r a.table_id d k
  unfolding handle_event process_event handle_interface_change apply_event active_routes
  loss-removes i down r a d k loss on active via known = rw on (
      handle_interface_down-removes net nl i r a
        (record d {
          network_state = (apply_event (NetworkEvent.interface_changed i down) d.network_state).1;
        })
        k active via known)
  loss-removes i removed r a d k loss on active via known = rw on (
      handle_interface_down-removes net nl i r a
        (record d {
          network_state =
              (apply_event (NetworkEvent.interface_changed i removed) d.network_state).1;
        })
        k active via known)
  loss-removes i up r a d k loss on active via known = elim loss [ ]
  loss-removes i added r a d k loss on active via known = elim loss [ ]

  handled-removes :
      (i : Text) (change : InterfaceChange) (o : Result (List NetworkEvent) × NetlinkMonitor)
      (w : World K) (r : RouteRule) (a : ActiveRoute)
      → o.0 ≡ ok (NetworkEvent.interface_changed i change ∷ [])
      → IsLoss change
      → is_running w.service.dispatcher.state ≡ true
      → get r.name (active_routes w.service.dispatcher) ≡ some a
      → a.interface ≡ i
      → get r.name (rules_map w.service.dispatcher.config) ≡ some r
      → (get r.name (active_routes (handle_polled to_decimal net nl o w).service.dispatcher) ≡ none)
        ⊎ DownFails net nl i r a.table_id w.service.dispatcher w.kernel
  unfolding handle_events
  handled-removes i change (err e, m) w r a polled loss on active via known = cc
  handled-removes i change (ok es, m) w r a polled loss on active via known =
      let same : es ≡ NetworkEvent.interface_changed i change ∷ [] = cc in
      rw same (loss-removes i change r a w.service.dispatcher w.kernel loss on active via known)

  -- If a running service polls, and the poll reports only that an interface went down or is gone, then
  -- an active route via the interface, of which the configuration has the rule, is no longer active,
  -- unless the dispatcher came to the removal of the rule from the table of the route and that failed.
  pub poll_network_changes-removes :
      (i : Text) (change : InterfaceChange) (links : Option (List LinkItem)) (w : World K)
      (m : NetlinkMonitor) (r : RouteRule) (a : ActiveRoute)
      → w.service.netlink_monitor ≡ some m
      → (poll_changes (snapshot_interfaces to_decimal links) m).0
        ≡ ok (NetworkEvent.interface_changed i change ∷ [])
      → IsLoss change
      → is_running w.service.dispatcher.state ≡ true
      → get r.name (active_routes w.service.dispatcher) ≡ some a
      → a.interface ≡ i
      → get r.name (rules_map w.service.dispatcher.config) ≡ some r
      → (get r.name
            (active_routes (poll_network_changes to_decimal net nl links w).service.dispatcher)
          ≡ none)
        ⊎ DownFails net nl i r a.table_id w.service.dispatcher w.kernel
  unfolding poll_network_changes
  poll_network_changes-removes i change links w m r a present polled loss on active via known =
      rw present (
        handled-removes i change (poll_changes (snapshot_interfaces to_decimal links) m)
          (record w { service = (take_monitor w.service).1 }) r a polled loss on active via known)
