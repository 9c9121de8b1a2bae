-- ===== src/Engine/Dispatcher/Tables.antt =====
-- src/engine/dispatcher.rs: every event is handled with success, and adds at most one index.
use nic_autoswitch.Common.{
  ℕ, suc, ◌+◌, ◌%◌, ◌≤◌, ◌<◌, ◌≡◌, refl, inl, inr, Option, none, some, List, [], ◌∷◌, arith,
  Bool-cases, Option-cases, Text, Text-eq, ℕ-eq, length, Map, get, insert, remove,
}
use nic_autoswitch.Error.{Result, ok, err}
use nic_autoswitch.Ip.{IpCrate}
use nic_autoswitch.Config.{RouteRule}
use nic_autoswitch.Router.Kernel.{Netlink}
use nic_autoswitch.Monitor.Events.{InterfaceChange, up, down, added, removed, NetworkEvent}
use nic_autoswitch.Monitor.State.{apply_event}
use nic_autoswitch.Engine.Executor.{
  RuleExecutor, count_ok, apply_rule, apply_rules, apply_wifi_profile,
}
use nic_autoswitch.Engine.Dispatcher.State.{
  is_running, EventDispatcher, index_of_interface, get_table_id_for_interface,
}
use nic_autoswitch.Engine.Dispatcher.Apply.{
  apply_some, apply_default_rules, ignore_count, profile_of, apply_rules_for_interface,
  handle_interface_down,
}
use nic_autoswitch.Engine.Dispatcher.Handle.{
  should_apply, handle_interface_change, process_event, handle_event, handle_events,
}
use nic_autoswitch.Engine.Dispatcher.Indices.{
  IsInjective, IsBelow, insert-IsInjective, insert-IsBelow, IsBelow-mono, length-insert,
}

-- The indices are the same, or a new interface got their number.
data Grown (m m' : Map Text ℕ) : Type 0 where
  same : m' ≡ m → Grown m m'
  new : (i : Text) → get i m ≡ none → m' ≡ insert i (length m % 256) m → Grown m m'

index-Grown :
    (i : Text) (d : EventDispatcher)
    → Grown d.interface_indices (index_of_interface i d).1.interface_indices
unfolding index_of_interface
index-Grown i d = elim (Option-cases (get i d.interface_indices)) [
  | inl missing ↦ rw (missing, index_of_interface) (new i missing refl)
  | inr (n, found) ↦ rw (found, index_of_interface) (same refl)
]

-- No two interfaces share an index, and the next index is above all.
abbrev pub IsFresh : Map Text ℕ → Type 0
IsFresh m = IsInjective m × IsBelow (length m) m

Grown-IsFresh :
    (m m' : Map Text ℕ)
    → Grown m m'
    → IsFresh m
    → length m < 256
    → IsFresh m' × (length m' ≤ length m + 1)
Grown-IsFresh m m' (same e) h small = rw e (h, omega arith)
Grown-IsFresh m m' (new i missing e) (inj, below) small =
    let n = length m in
    let small_n : n % 256 ≡ n = ground arith in
    let one_more = length-insert i n m missing in
    rw (e, small_n, one_more)
      (
        (
          insert-IsInjective i n m inj below,
          insert-IsBelow i n (suc n) m (omega arith) (IsBelow-mono m n (suc n) (omega arith) below),
        ),
        omega arith,
      )

module _ (net : IpCrate) {K : Type 0} (nl : Netlink K) where
  -- Success, with at most one index more.
  abbrev IsHandled : Map Text ℕ → Result (Unit {0}) × EventDispatcher × K → Type 0
  IsHandled m o = (o.0 ≡ ok tt) × Grown m o.1.interface_indices

  defaults-IsHandled :
      (i : Text) (d : EventDispatcher) (k : K)
      → IsHandled d.interface_indices (apply_default_rules net nl i d k)
  unfolding apply_default_rules get_table_id_for_interface
  defaults-IsHandled i d k = some_rules d.config.routing.default_rules
    where
      some_rules :
          (rs : List RouteRule) → IsHandled d.interface_indices (apply_some net nl rs i d k)
      some_rules [] = (refl, same refl)
      some_rules (r ∷ rs) = (refl, index-Grown i d)

  apply_rules_ok :
      (rs : List RouteRule) (t n : ℕ) (x : RuleExecutor) (k : K)
      → (count : ℕ) × ((apply_rules net nl rs 0 t n x k).0 ≡ ok count)
  unfolding apply_rules
  apply_rules_ok [] t n x k = (n, refl)
  apply_rules_ok (r ∷ rs) t n x k =
      let (o, x', k') = apply_rule net nl r 0 t x k in apply_rules_ok rs t (count_ok o n) x' k'

  ignored-IsHandled :
      (m : Map Text ℕ) (o : Result ℕ × EventDispatcher × K) (n : ℕ)
      → o.0 ≡ ok n
      → Grown m o.1.interface_indices
      → IsHandled m (ignore_count net nl o)
  ignored-IsHandled m (ok c, d, k) n e h = (refl, h)
  ignored-IsHandled m (err f, d, k) n e h = cc

  interface-IsHandled :
      (i : Text) (ssid : Option Text) (d : EventDispatcher) (k : K)
      → IsHandled d.interface_indices (apply_rules_for_interface net nl i ssid d k)
  unfolding apply_rules_for_interface apply_wifi_profile get_table_id_for_interface
  interface-IsHandled i ssid d k = elim (Option-cases (profile_of net nl ssid d)) [
    | inl missing ↦ rw (missing, apply_rules_for_interface) (defaults-IsHandled i d k)
    | inr (p, found) ↦
        let (count, done) = apply_rules_ok p.rules _ 0 _ k in
        rw (found, apply_rules_for_interface)
          (ignored-IsHandled d.interface_indices _ count done (index-Grown i d))
  ]

  change-IsHandled :
      (i : Text) (c : InterfaceChange) (d : EventDispatcher) (k : K)
      → IsHandled d.interface_indices (handle_interface_change net nl i c d k)
  unfolding handle_interface_change handle_interface_down
  change-IsHandled i down d k = (refl, same refl)
  change-IsHandled i removed d k = (refl, same refl)
  change-IsHandled i added d k = (refl, same refl)
  change-IsHandled i up d k = elim (Bool-cases (should_apply i d)) [
    | inl apply ↦ rw apply (defaults-IsHandled i d k)
    | inr skip ↦ rw skip (refl, same refl)
  ]

  process-IsHandled :
      (e : NetworkEvent) (d : EventDispatcher) (k : K)
      → IsHandled d.interface_indices (process_event net nl e d k)
  unfolding process_event
  process-IsHandled (NetworkEvent.interface_changed i c) d k = change-IsHandled i c d k
  process-IsHandled (NetworkEvent.wifi_connected i ssid) d k =
      interface-IsHandled i (some ssid) (record d { current_ssids = insert i ssid d.current_ssids })
        k
  process-IsHandled (NetworkEvent.wifi_disconnected i last) d k =
      defaults-IsHandled i (record d { current_ssids = remove i d.current_ssids }) k
  process-IsHandled (NetworkEvent.address_changed i new_list old) d k =
      interface-IsHandled i (get i d.current_ssids) d k
  process-IsHandled (NetworkEvent.route_changed i n g b) d k = (refl, same refl)

  apply_event_ok :
      (e : NetworkEvent) (d : EventDispatcher) → (apply_event e d.network_state).0 ≡ ok tt
  unfolding apply_event
  apply_event_ok (NetworkEvent.interface_changed i c) d = refl
  apply_event_ok (NetworkEvent.wifi_connected i ssid) d = refl
  apply_event_ok (NetworkEvent.wifi_disconnected i last) d = refl
  apply_event_ok (NetworkEvent.address_changed i new_list old) d = refl
  apply_event_ok (NetworkEvent.route_changed i n g b) d = refl

  event-IsHandled :
      (e : NetworkEvent) (d : EventDispatcher) (k : K)
      → IsHandled d.interface_indices (handle_event net nl e d k)
  unfolding handle_event
  event-IsHandled e d k = elim (Bool-cases (is_running d.state)) [
    | inr off ↦ rw off (refl, same refl)
    | inl on ↦
        rw (on, apply_event_ok e d)
          (process-IsHandled e (record d { network_state = (apply_event e d.network_state).1 }) k)
  ]

  -- Every event is handled with success, whatever the kernel answers.
  pub handle_event_ok :
      (e : NetworkEvent) (d : EventDispatcher) (k : K) → (handle_event net nl e d k).0 ≡ ok tt
  handle_event_ok e d k = (event-IsHandled e d k).0

  -- If no two interfaces share an index and every index is below their number, then no two share one
  -- after any events, as long as the number of indices and events together is at most 256.
  pub handle_events-IsInjective :
      (es : List NetworkEvent) (d : EventDispatcher) (k : K)
      → IsFresh d.interface_indices
      → length d.interface_indices + length es ≤ 256
      → IsInjective (handle_events net nl es d k).0.interface_indices
  unfolding handle_events
  handle_events-IsInjective [] d k h small = h.0
  handle_events-IsInjective (e ∷ es) d k h small =
      let (o, d', k') = handle_event net nl e d k in
      let (fresh, longer) =
        Grown-IsFresh d.interface_indices (handle_event net nl e d k).1.interface_indices
          (event-IsHandled e d k).1 h (omega arith) in
      handle_events-IsInjective es d' k' fresh (omega (arith, longer))
