-- ===== src/Daemon/Service/Ending.antt =====
-- src/daemon/service.rs: when the main loop ends, and the flag of a requested shutdown.
use nic_autoswitch.Common.{
  ℕ, ◌≡◌, refl, ◌∙◌, ◌⊎◌, inl, inr, true, false, Option, none, some, List, [], ◌∷◌, Bool-cases,
  Text, Text-eq, ℕ-eq,
}
use nic_autoswitch.Error.{Result, ok, err}
use nic_autoswitch.Ip.{IpCrate}
use nic_autoswitch.Config.{Config}
use nic_autoswitch.Monitor.Events.{NetworkEvent}
use nic_autoswitch.Monitor.Netlink.{LinkItem, snapshot_interfaces, NetlinkMonitor, poll_changes}
use nic_autoswitch.Router.Kernel.{Netlink}
use nic_autoswitch.Daemon.Signals.{Received, signalled, closed, lagged}
use nic_autoswitch.Daemon.Signals
use nic_autoswitch.Daemon.Service.{
  running, reloading, DaemonService, World, accept_config, reload_configuration, request_shutdown,
  reload_config, handle_polled, poll_taken, poll_network_changes,
}
use nic_autoswitch.Daemon.Service.Run.{
  requests_shutdown, reloads_config, after_call, Wakeup, receives, poll_tick, watchdog_tick, calls,
  ends, turn, main_loop,
}

-- A shutdown signal, or the end of the channel of signals.
abbrev pub IsEnd : Wakeup → Type 0
IsEnd (receives (signalled Signals.shutdown) first second) = Unit
IsEnd (receives closed first second) = Unit
IsEnd _ = ⊥

abbrev pub HasEnd : List Wakeup → Type 0
HasEnd [] = ⊥
HasEnd (x ∷ l) = IsEnd x ⊎ HasEnd l

ends-IsEnd : (x : Wakeup) → ends x ≡ true → IsEnd x
unfolding ends
ends-IsEnd (receives (signalled Signals.shutdown) first second) h = tt
ends-IsEnd (receives (signalled Signals.reload) first second) h = cc
ends-IsEnd (receives closed first second) h = tt
ends-IsEnd (receives lagged first second) h = cc
ends-IsEnd (poll_tick links) h = cc
ends-IsEnd watchdog_tick h = cc
ends-IsEnd (calls c) h = cc

IsEnd-ends : (x : Wakeup) → IsEnd x → ends x ≡ true
unfolding ends
IsEnd-ends (receives (signalled Signals.shutdown) first second) h = refl
IsEnd-ends (receives (signalled Signals.reload) first second) h = absurd h
IsEnd-ends (receives closed first second) h = refl
IsEnd-ends (receives lagged first second) h = absurd h
IsEnd-ends (poll_tick links) h = absurd h
IsEnd-ends watchdog_tick h = absurd h
IsEnd-ends (calls c) h = absurd h

-- What the service is by itself, apart from its configuration and its dispatcher.
accept_state : (r : Result Config) (s : DaemonService) → (accept_config r s).state ≡ s.state
accept_state (ok c) s = refl
accept_state (err e) s = refl

accept_shutdown :
    (r : Result Config) (s : DaemonService) → (accept_config r s).shutdown ≡ s.shutdown
accept_shutdown (ok c) s = refl
accept_shutdown (err e) s = refl

no_end : (x : Wakeup) (l : List Wakeup) → ends x ≡ false → (HasEnd l → ⊥) → HasEnd (x ∷ l) → ⊥
no_end x l more h (inl now) = let last = IsEnd-ends x now in cc
no_end x l more h (inr there) = h there

end_later :
    {R : Type 0} {r y n : R} (x : Wakeup) (l : List Wakeup)
    → ends x ≡ false
    → (HasEnd l × (r ≡ y)) ⊎ ((HasEnd l → ⊥) × (r ≡ n))
    → (HasEnd (x ∷ l) × (r ≡ y)) ⊎ ((HasEnd (x ∷ l) → ⊥) × (r ≡ n))
end_later x l more (inl (h, e)) = inl (inr h, e)
end_later x l more (inr (h, e)) = inr (no_end x l more h, e)

module _ (to_decimal : ℕ → Text) (net : IpCrate) {K : Type 0} (nl : Netlink K) where
  -- The main loop ends, and with success, if there is a shutdown signal or the channel of signals is
  -- closed among the wake-ups, and only then; otherwise it waits for more.
  pub main_loop_ends_iff :
      (l : List Wakeup) (w : World K)
      → (HasEnd l × ((main_loop to_decimal net nl l w).0 ≡ some (ok tt)))
        ⊎ ((HasEnd l → ⊥) × ((main_loop to_decimal net nl l w).0 ≡ none))
  unfolding main_loop
  main_loop_ends_iff [] w = inr (λ h. h, refl)
  main_loop_ends_iff (x ∷ l) w = elim (Bool-cases (ends x)) [
    | inl last ↦ rw last (inl (inl (ends-IsEnd x last), refl))
    | inr more ↦ rw more (end_later x l more (main_loop_ends_iff l (turn to_decimal net nl x w)))
  ]

  handled_state :
      (o : Result (List NetworkEvent) × NetlinkMonitor) (w : World K)
      → ((handle_polled to_decimal net nl o w).service.state ≡ w.service.state)
        × ((handle_polled to_decimal net nl o w).service.shutdown ≡ w.service.shutdown)
  handled_state (ok es, m) w = (refl, refl)
  handled_state (err e, m) w = (refl, refl)

  polled_state :
      (m : Option NetlinkMonitor) (links : Option (List LinkItem)) (w : World K)
      → let s = record w.service { netlink_monitor = none } in
        ((poll_taken to_decimal net nl (m, s) links w).service.state ≡ w.service.state)
        × ((poll_taken to_decimal net nl (m, s) links w).service.shutdown ≡ w.service.shutdown)
  polled_state none links w = (refl, refl)
  polled_state (some m) links w =
      handled_state (poll_changes (snapshot_interfaces to_decimal links) m)
        (record w { service = record w.service { netlink_monitor = none } })

  turn_state :
      (x : Wakeup) (w : World K)
      → w.service.state ≡ running
      → (turn to_decimal net nl x w).service.state ≡ running
  unfolding turn reload_configuration poll_network_changes after_call reload_config request_shutdown
  turn_state (receives (signalled Signals.shutdown) a b) w h = h
  turn_state (receives (signalled Signals.reload) a b) w h = refl
  turn_state (receives closed a b) w h = h
  turn_state (receives lagged a b) w h = h
  turn_state (poll_tick links) w h = (polled_state w.service.netlink_monitor links w).0 ∙ h
  turn_state watchdog_tick w h = h
  turn_state (calls requests_shutdown) w h = h
  turn_state (calls (reloads_config a b)) w h = accept_state _ w.service ∙ h

  pub main_loop_state :
      (l : List Wakeup) (w : World K)
      → w.service.state ≡ running
      → (main_loop to_decimal net nl l w).1.service.state ≡ running
  unfolding main_loop
  main_loop_state [] w h = h
  main_loop_state (x ∷ l) w h = elim (Bool-cases (ends x)) [
    | inl last ↦ rw last (turn_state x w h)
    | inr more ↦ rw more (main_loop_state l (turn to_decimal net nl x w) (turn_state x w h))
  ]

  turn_shutdown :
      (x : Wakeup) (w : World K)
      → w.service.shutdown ≡ true
      → (turn to_decimal net nl x w).service.shutdown ≡ true
  unfolding turn reload_configuration poll_network_changes after_call reload_config request_shutdown
  turn_shutdown (receives (signalled Signals.shutdown) a b) w h = refl
  turn_shutdown (receives (signalled Signals.reload) a b) w h =
      accept_shutdown _ (record w.service { state = reloading }) ∙ h
  turn_shutdown (receives closed a b) w h = h
  turn_shutdown (receives lagged a b) w h = h
  turn_shutdown (poll_tick links) w h = (polled_state w.service.netlink_monitor links w).1 ∙ h
  turn_shutdown watchdog_tick w h = h
  turn_shutdown (calls requests_shutdown) w h = refl
  turn_shutdown (calls (reloads_config a b)) w h = accept_shutdown _ w.service ∙ h

  main_loop_shutdown :
      (l : List Wakeup) (w : World K)
      → w.service.shutdown ≡ true
      → (main_loop to_decimal net nl l w).1.service.shutdown ≡ true
  unfolding main_loop
  main_loop_shutdown [] w h = h
  main_loop_shutdown (x ∷ l) w h = elim (Bool-cases (ends x)) [
    | inl last ↦ rw last (turn_shutdown x w h)
    | inr more ↦ rw more (main_loop_shutdown l (turn to_decimal net nl x w) (turn_shutdown x w h))
  ]

  same_end :
      (l : List Wakeup) (w w' : World K)
      → (main_loop to_decimal net nl l w).0 ≡ (main_loop to_decimal net nl l w').0
  unfolding main_loop
  same_end [] w w' = refl
  same_end (x ∷ l) w w' = elim (Bool-cases (ends x)) [
    | inl last ↦ rw last refl
    | inr more ↦ rw more (same_end l (turn to_decimal net nl x w) (turn to_decimal net nl x w'))
  ]

  -- If a shutdown is requested of the service, then its flag is set and stays so, and yet the main
  -- loop goes on as if it were not, until a signal ends it.
  pub main_loop-request_shutdown :
      (l : List Wakeup) (w : World K)
      → ((main_loop to_decimal net nl (calls requests_shutdown ∷ l) w).1.service.shutdown ≡ true)
        × ((main_loop to_decimal net nl (calls requests_shutdown ∷ l) w).0
            ≡ (main_loop to_decimal net nl l w).0)
  unfolding main_loop ends
  main_loop-request_shutdown l w =
      let next = turn to_decimal net nl (calls requests_shutdown) w in
      (
        main_loop_shutdown l next (unfold turn after_call request_shutdown in refl),
        same_end l next w,
      )
