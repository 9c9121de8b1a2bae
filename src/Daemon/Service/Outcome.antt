-- ===== src/Daemon/Service/Outcome.antt =====
-- src/daemon/service.rs: what a run leaves.
use nic_autoswitch.Common.{
  ℕ, ◌≡◌, refl, ◌⊎◌, inl, inr, true, Option, none, some, List, [], Text, Text-eq, ℕ-eq,
}
use nic_autoswitch.Error.{Result, ok, err}
use nic_autoswitch.Ip.{IpCrate}
use nic_autoswitch.Monitor.State.{InterfaceInfo}
use nic_autoswitch.Monitor.Netlink.{LinkItem, get_interfaces, NetlinkMonitor}
use nic_autoswitch.Router.Kernel.{Netlink}
use nic_autoswitch.Engine.Dispatcher.{
  EventDispatcher, is_running, start, update_config, stop, handle_events, apply_initial_state,
  active_routes,
}
use nic_autoswitch.Engine.Dispatcher
use nic_autoswitch.Engine.Dispatcher.Fixed.{start_lem, events_same, initial-Same}
use nic_autoswitch.Daemon.Systemd.{notify_ready}
use nic_autoswitch.Daemon.Service.{
  running, stopped, World, initial_routes, initial_routes_if, apply_initial_routes,
}
use nic_autoswitch.Daemon.Service.Run.{
  Wakeup, main_loop, startup, shut_down, after_loop, after_start, run,
}
use nic_autoswitch.Daemon.Service.Keeps.{main_loop-Holds}
use nic_autoswitch.Daemon.Service.Ending.{main_loop_ends_iff, main_loop_state}

module _ (to_decimal : ℕ → Text) (net : IpCrate) {K : Type 0} (nl : Netlink K) where
  abbrev pub Outcome : Option (Result (Unit {0})) × World K → Type 0
  Outcome (none, w) = (w.service.state ≡ running) × (is_running w.service.dispatcher.state ≡ true)
  Outcome (some (ok x), w) =
      (w.service.state ≡ stopped)
      × (w.service.dispatcher.state ≡ Dispatcher.stopped)
      × (active_routes w.service.dispatcher ≡ [])
  Outcome (some (err e), w) =
      (w.service.state ≡ running) × (is_running w.service.dispatcher.state ≡ true)

  main_loop_on :
      (l : List Wakeup) (w : World K)
      → is_running w.service.dispatcher.state ≡ true
      → is_running (main_loop to_decimal net nl l w).1.service.dispatcher.state ≡ true
  main_loop_on =
      main_loop-Holds to_decimal net nl (λ c d k. is_running d.state ≡ true)
        (λ path a b c c' d k e h. unfold update_config in h)
        (λ es c d k h. rw (events_same net nl es d k).state h)

  loop-Outcome :
      (o : Option (Result (Unit {0})) × World K)
      → (o.0 ≡ some (ok tt)) ⊎ (o.0 ≡ none)
      → o.1.service.state ≡ running
      → is_running o.1.service.dispatcher.state ≡ true
      → Outcome (after_loop to_decimal net nl o)
  unfolding shut_down stop active_routes
  loop-Outcome (none, w) ended h h' = (h, h')
  loop-Outcome (some (ok x), w) ended h h' = (refl, refl, refl)
  loop-Outcome (some (err e), w) (inl bad) h h' = cc
  loop-Outcome (some (err e), w) (inr bad) h h' = cc

  ended_or_not :
      (l : List Wakeup) (w : World K)
      → ((main_loop to_decimal net nl l w).0 ≡ some (ok tt))
        ⊎ ((main_loop to_decimal net nl l w).0 ≡ none)
  ended_or_not l w = elim (main_loop_ends_iff to_decimal net nl l w) [
    | inl h ↦ inl h.1
    | inr h ↦ inr h.1
  ]

  started-Outcome :
      (l : List Wakeup) (o : Result (Unit {0}) × World K)
      → o.1.service.state ≡ running
      → is_running o.1.service.dispatcher.state ≡ true
      → Outcome (after_start to_decimal net nl l o)
  started-Outcome l (err e, w) h h' = (h, h')
  started-Outcome l (ok x, w) h h' =
      let ready = record w { sent = notify_ready w.service.systemd w.sent } in
      loop-Outcome (main_loop to_decimal net nl l ready) (ended_or_not l ready)
        (main_loop_state to_decimal net nl l ready h) (main_loop_on l ready h')

  abbrev IsUp : World K → Type 0
  IsUp w = (w.service.state ≡ running) × (is_running w.service.dispatcher.state ≡ true)

  interfaces-IsUp :
      (r : Result (List InterfaceInfo)) (w : World K)
      → IsUp w
      → IsUp (initial_routes to_decimal net nl r w).1
  interfaces-IsUp (ok l) w h =
      (h.0, rw (initial-Same net nl l w.service.dispatcher w.kernel).state h.1)
  interfaces-IsUp (err e) w h = h

  routes-IsUp :
      (m : Option NetlinkMonitor) (links : Option (List LinkItem)) (w : World K)
      → IsUp w
      → IsUp (initial_routes_if to_decimal net nl m links w).1
  routes-IsUp none links w h = h
  routes-IsUp (some m) links w h = interfaces-IsUp (get_interfaces to_decimal links) w h

  -- While a run waits, and also after one that returns an error, the service and its dispatcher are
  -- running; after one that returns with success both are stopped, and no route is recorded.
  pub run-Outcome :
      (now : ℕ) (links : Option (List LinkItem)) (l : List Wakeup) (w : World K)
      → Outcome (run to_decimal net nl now links l w)
  unfolding run apply_initial_routes
  run-Outcome now links l w =
      let up = startup to_decimal net nl now w in
      let h =
        routes-IsUp up.service.netlink_monitor links up
          (unfold startup in (refl, (start_lem w.service.dispatcher).0)) in
      started-Outcome l _ h.0 h.1
