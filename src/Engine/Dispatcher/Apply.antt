-- ===== src/Engine/Dispatcher/Apply.antt =====
-- src/engine/dispatcher.rs: application of default rules and of WiFi profiles, and the removal of
-- the routes of an interface.
use nic_autoswitch.Common.{
  ℕ, Option, none, some, List, [], ◌∷◌, if◌then◌else◌, Text, ◌==◌, Text-discrete, Text-eq, ℕ-eq,
  Map, values, get, insert,
}
use nic_autoswitch.Error.{Result, ok, err}
use nic_autoswitch.Ip.{IpCrate}
use nic_autoswitch.Config.{Config, RouteRule, WifiProfile}
use nic_autoswitch.Router.Kernel.{Netlink}
use nic_autoswitch.Engine.Executor.{
  RuleExecutor, ActiveRoute, is_route_active, apply_rule, apply_wifi_profile, remove_rule,
}
use nic_autoswitch.Engine.Dispatcher.State.{EventDispatcher, get_table_id_for_interface}

-- `map.insert(r.name.clone(), r.clone())` for each rule of a list
unfoldable pub insert_rules : List RouteRule → Map Text RouteRule → Map Text RouteRule
unfolding insert Text-discrete
insert_rules [] m = m
insert_rules (r ∷ rs) m = insert_rules rs (insert r.name r m)

unfoldable pub insert_profiles : List WifiProfile → Map Text RouteRule → Map Text RouteRule
unfolding insert_rules
insert_profiles [] m = m
insert_profiles (p ∷ ps) m = insert_profiles ps (insert_rules p.rules m)

-- The rules of the configuration by name; a later one replaces an earlier.
unfoldable pub rules_map : Config → Map Text RouteRule
unfolding insert_rules insert_profiles values
rules_map c = insert_profiles (values c.wifi_profiles) (insert_rules c.routing.default_rules [])

-- The names and tables of the active routes via an interface.
unfoldable pub routes_via : Text → Map Text ActiveRoute → List (Text × ℕ)
unfolding Text-discrete
routes_via interface [] = []
routes_via interface ((name, active) ∷ m) =
    let rest = routes_via interface m in
    if active.interface == interface then (name, active.table_id) ∷ rest else rest

-- An outcome of the executor within the dispatcher.
abbrev pub within :
    {A K : Type 0} → EventDispatcher → Result A × RuleExecutor × K → Result A × EventDispatcher × K
within d (r, x, k) = (r, record d { executor = x }, k)

module _ (net : IpCrate) {K : Type 0} (nl : Netlink K) where
  -- the loop of `apply_default_rules`; the result of a rule is logged only
  unfoldable pub apply_each : List RouteRule → (table_id : ℕ) → RuleExecutor → K → RuleExecutor × K
  unfolding apply_rule is_route_active
  apply_each [] table_id x k = (x, k)
  apply_each (r ∷ rs) table_id x k =
      let skipped = apply_each rs table_id x k in
      let (_, x', k') = apply_rule net nl r 0 table_id x k in
      let applied = apply_each rs table_id x' k' in
      if is_route_active r.name x then skipped else applied

  abbrev pub apply_some :
      List RouteRule → Text → EventDispatcher → K → Result (Unit {0}) × EventDispatcher × K
  apply_some [] interface d k = (ok tt, d, k)
  apply_some (r ∷ rs) interface d k =
      let (table_id, d') = get_table_id_for_interface interface d in
      let (x, k') = apply_each (r ∷ rs) table_id d'.executor k in
      (ok tt, record d' { executor = x }, k')

  unfoldable pub apply_default_rules :
      Text → EventDispatcher → K → Result (Unit {0}) × EventDispatcher × K
  unfolding get_table_id_for_interface apply_each
  apply_default_rules interface d k = apply_some d.config.routing.default_rules interface d k

  -- The count of applied rules is dropped.
  abbrev pub ignore_count : Result ℕ × EventDispatcher × K → Result (Unit {0}) × EventDispatcher × K
  ignore_count (ok n, d, k) = (ok tt, d, k)
  ignore_count (err e, d, k) = (err e, d, k)

  -- The profile of an SSID, if there is one.
  abbrev pub profile_of : Option Text → EventDispatcher → Option WifiProfile
  profile_of none d = none
  profile_of (some ssid) d = get ssid d.config.wifi_profiles

  unfoldable pub apply_rules_for_interface :
      Text → Option Text → EventDispatcher → K → Result (Unit {0}) × EventDispatcher × K
  unfolding get_table_id_for_interface apply_wifi_profile apply_default_rules
  apply_rules_for_interface interface ssid d k = elim (profile_of ssid d) [
    | some profile ↦
        let (table_id, d') = get_table_id_for_interface interface d in
        ignore_count (within d' (apply_wifi_profile net nl profile 0 table_id d'.executor k))
    | none ↦ apply_default_rules interface d k
  ]

  -- the loop of `handle_interface_down`; a route with no rule in the configuration is passed over
  unfoldable pub remove_each :
      Map Text RouteRule → List (Text × ℕ) → RuleExecutor → K → RuleExecutor × K
  unfolding get Text-discrete remove_rule
  remove_each rules [] x k = (x, k)
  remove_each rules ((name, table_id) ∷ l) x k = elim (get name rules) [
    | some rule ↦
        let (_, x', k') = remove_rule net nl rule table_id x k in remove_each rules l x' k'
    | none ↦ remove_each rules l x k
  ]

  unfoldable pub handle_interface_down :
      Text → EventDispatcher → K → Result (Unit {0}) × EventDispatcher × K
  unfolding routes_via rules_map remove_each
  handle_interface_down interface d k =
      let (x, k') =
        remove_each (rules_map d.config) (routes_via interface d.executor.active_routes) d.executor
          k in
      (ok tt, record d { executor = x }, k')
