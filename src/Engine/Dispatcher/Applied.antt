-- ===== src/Engine/Dispatcher/Applied.antt =====
-- src/engine/dispatcher.rs: what the handlers keep that apply rules, if each rule of the configuration
-- keeps it.
use mathlib.Core.List.{Memᴰ}
use nic_autoswitch.Common.{
  ℕ, ◌≡◌, refl, ◌∙◌, inl, inr, Option, none, some, List, [], ◌∷◌, arith, Bool-cases, Option-cases,
  Mem-append, Text, Text-discrete, Text-eq, ℕ-eq, Map, values, get, insert, remove,
}
use nic_autoswitch.Error.{Result, ok, err, Result-cases}
use nic_autoswitch.Ip.{IpCrate}
use nic_autoswitch.Config.{Config, RouteRule, RouteRule-eq, WifiProfile}
use nic_autoswitch.Router.Kernel.{Netlink}
use nic_autoswitch.Monitor.Events.{InterfaceChange, up, down, added, removed, NetworkEvent}
use nic_autoswitch.Monitor.State.{apply_event}
use nic_autoswitch.Engine.Executor.{
  RuleExecutor, is_route_active, count_ok, apply_rule, apply_rules,
}
use nic_autoswitch.Engine.Dispatcher.State.{is_running, EventDispatcher}
use nic_autoswitch.Engine.Dispatcher.Removing.{MayRemove, May, MayAll}
use nic_autoswitch.Engine.Dispatcher.Apply.{
  apply_each, apply_some, apply_default_rules, ignore_count, profile_of, apply_rules_for_interface,
}
use nic_autoswitch.Engine.Dispatcher.Handle.{
  should_apply, handle_interface_change, process_event, handle_event, handle_events, apply_for_each,
}
use nic_autoswitch.Engine.Dispatcher.Fixed.{defaults-Same, event-Same}
use nic_autoswitch.Engine.Dispatcher.Names.{profile_rules, rules_of}
use nic_autoswitch.Engine.Dispatcher.Keeps.{executor-get_table_id}

get-profile :
    (n : Text) (m : Map Text WifiProfile) (p : WifiProfile) (r : RouteRule)
    → get n m ≡ some p
    → Memᴰ r p.rules
    → Memᴰ r (profile_rules (values m))
unfolding get values
get-profile n [] p r e m = cc
get-profile n ((s, q) ∷ l) p r e m = elim (Text-discrete s n) [
  | yes same ↦
      let equal : q ≡ p = ground arith in
      Mem-append r q.rules (profile_rules (values l)) (inl (rw equal m))
  | no ne ↦
      Mem-append r q.rules (profile_rules (values l)) (inr (get-profile n l p r (ground arith) m))
]

module _ (net : IpCrate) {K : Type 0} (nl : Netlink K) (c : Config) (P : RuleExecutor → K → Type 0)
    (keep_apply : (r : RouteRule)
      → Memᴰ r (rules_of c)
      → (t : ℕ) (x : RuleExecutor) (k : K) → P x k
      → P (apply_rule net nl r 0 t x k).1 (apply_rule net nl r 0 t x k).2) where
  abbrev Within : List RouteRule → Type 0
  Within rs = (r : RouteRule) → Memᴰ r rs → Memᴰ r (rules_of c)

  rest : (r : RouteRule) (rs : List RouteRule) → Within (r ∷ rs) → Within rs
  rest r rs sub s m = sub s (Memᴰ.tail m)

  profile_applied :
      (rs : List RouteRule) (t n : ℕ) (x : RuleExecutor) (k : K)
      → Within rs
      → P x k
      → P (apply_rules net nl rs 0 t n x k).1 (apply_rules net nl rs 0 t n x k).2
  unfolding apply_rules
  profile_applied [] t n x k sub h = h
  profile_applied (r ∷ rs) t n x k sub h =
      let (o, x', k') = apply_rule net nl r 0 t x k in
      profile_applied rs t (count_ok o n) x' k' (rest r rs sub)
        (keep_apply r (sub r (Memᴰ.head refl)) t x k h)

  each_applied :
      (rs : List RouteRule) (t : ℕ) (x : RuleExecutor) (k : K)
      → Within rs
      → P x k
      → P (apply_each net nl rs t x k).0 (apply_each net nl rs t x k).1
  unfolding apply_each
  each_applied [] t x k sub h = h
  each_applied (r ∷ rs) t x k sub h = elim (Bool-cases (is_route_active r.name x)) [
    | inl old ↦ rw old (each_applied rs t x k (rest r rs sub) h)
    | inr new ↦
        let (o, x', k') = apply_rule net nl r 0 t x k in
        rw new
          (each_applied rs t x' k' (rest r rs sub) (keep_apply r (sub r (Memᴰ.head refl)) t x k h))
  ]

  abbrev Kept : Result (Unit {0}) × EventDispatcher × K → Type 0
  Kept (o, d, k) = P d.executor k

  some_applied :
      (rs : List RouteRule) (i : Text) (d : EventDispatcher) (k : K)
      → Within rs
      → P d.executor k
      → Kept (apply_some net nl rs i d k)
  some_applied [] i d k sub h = h
  some_applied (r ∷ rs) i d k sub h = each_applied (r ∷ rs) _ _ k sub (rw executor-get_table_id h)

  defaults_applied :
      (i : Text) (d : EventDispatcher) (k : K)
      → d.config ≡ c
      → P d.executor k
      → Kept (apply_default_rules net nl i d k)
  unfolding apply_default_rules
  defaults_applied i d k e h =
      some_applied d.config.routing.default_rules i d k
        (λ r m. rw (← e) (
          Mem-append r d.config.routing.default_rules
            (profile_rules (values d.config.wifi_profiles)) (inl m)))
        h

  ignored-Kept :
      (o : Result ℕ × EventDispatcher × K) → P o.1.executor o.2 → Kept (ignore_count net nl o)
  ignored-Kept (ok n, d, k) h = h
  ignored-Kept (err e, d, k) h = h

  profile_within :
      (ssid : Option Text) (d : EventDispatcher) (p : WifiProfile)
      → d.config ≡ c
      → profile_of net nl ssid d ≡ some p
      → Within p.rules
  profile_within none d p e found r m = cc
  profile_within (some ssid) d p e found r m = rw (← e) (
      Mem-append r d.config.routing.default_rules (profile_rules (values d.config.wifi_profiles))
        (inr (get-profile ssid d.config.wifi_profiles p r found m)))

  interface_applied :
      (i : Text) (ssid : Option Text) (d : EventDispatcher) (k : K)
      → d.config ≡ c
      → P d.executor k
      → Kept (apply_rules_for_interface net nl i ssid d k)
  unfolding apply_rules_for_interface
  interface_applied i ssid d k e h = elim (Option-cases (profile_of net nl ssid d)) [
    | inl missing ↦ rw (missing, apply_rules_for_interface) (defaults_applied i d k e h)
    | inr (p, found) ↦
        rw (found, apply_rules_for_interface)
          (ignored-Kept _ (
            profile_applied p.rules _ 0 _ k (profile_within ssid d p e found)
              (rw executor-get_table_id h)))
  ]

  change_applied :
      (i : Text) (change : InterfaceChange) (d : EventDispatcher) (k : K)
      → MayRemove ⊥ change
      → d.config ≡ c
      → P d.executor k
      → Kept (handle_interface_change net nl i change d k)
  unfolding handle_interface_change
  change_applied i down d k may e h = absurd may
  change_applied i removed d k may e h = absurd may
  change_applied i added d k may e h = h
  change_applied i up d k may e h = elim (Bool-cases (should_apply i d)) [
    | inl apply ↦ rw apply (defaults_applied i d k e h)
    | inr skip ↦ rw skip h
  ]

  processed :
      (event : NetworkEvent) (d : EventDispatcher) (k : K)
      → May ⊥ event
      → d.config ≡ c
      → P d.executor k
      → Kept (process_event net nl event d k)
  unfolding process_event
  processed (NetworkEvent.interface_changed i change) d k may e h =
      change_applied i change d k may e h
  processed (NetworkEvent.wifi_connected i ssid) d k may e h =
      interface_applied i (some ssid) (record d { current_ssids = insert i ssid d.current_ssids }) k
        e h
  processed (NetworkEvent.wifi_disconnected i last) d k may e h =
      defaults_applied i (record d { current_ssids = remove i d.current_ssids }) k e h
  processed (NetworkEvent.address_changed i new old) d k may e h =
      interface_applied i (get i d.current_ssids) d k e h
  processed (NetworkEvent.route_changed i n g b) d k may e h = h

  handled :
      (event : NetworkEvent) (d : EventDispatcher) (k : K)
      → May ⊥ event
      → d.config ≡ c
      → P d.executor k
      → Kept (handle_event net nl event d k)
  unfolding handle_event
  handled event d k may e h =
      let (applied, state) = apply_event event d.network_state in
      let d' = record d { network_state = state } in
      elim (Bool-cases (is_running d.state)) [
        | inr off ↦ rw off h
        | inl on ↦ rw on (elim (Result-cases applied) [
          | inl fine ↦ rw fine (processed event d' k may e h)
          | inr (x, failed) ↦ rw failed h
        ])
      ]

  -- Events of which none removes rules.
  pub events_applied :
      (es : List NetworkEvent) (d : EventDispatcher) (k : K)
      → MayAll ⊥ es
      → d.config ≡ c
      → P d.executor k
      → P (handle_events net nl es d k).0.executor (handle_events net nl es d k).1
  unfolding handle_events
  events_applied [] d k may e h = h
  events_applied (event ∷ es) d k may e h =
      let (o, d', k') = handle_event net nl event d k in
      events_applied es d' k' may.1 ((event-Same net nl event d k).config ∙ e)
        (handled event d k may.0 e h)

  -- The default rules on some interfaces.
  pub for_each_applied :
      (names : List Text) (d : EventDispatcher) (k : K)
      → d.config ≡ c
      → P d.executor k
      → P (apply_for_each net nl names d k).0.executor (apply_for_each net nl names d k).1
  unfolding apply_for_each
  for_each_applied [] d k e h = h
  for_each_applied (name ∷ names) d k e h =
      let (o, d', k') = apply_default_rules net nl name d k in
      for_each_applied names d' k' ((defaults-Same net nl name d k).config ∙ e)
        (defaults_applied name d k e h)
