-- ===== src/Engine/Executor.antt =====
-- src/engine/executor.rs: application of rules, and the record of what is active. An operation takes
-- the executor and the kernel's state, and returns both with its result.
pub mod Tracking
pub mod Invariant
pub mod Backed
pub mod Shared
pub mod Partial
use nic_autoswitch.Common.{
  ℕ, suc, Bool, not, List, [], ◌∷◌, Text, ◌==◌, Text-discrete, Text-eq, ℕ-eq, length, Map, retain,
  insert, remove, contains_key,
}
use nic_autoswitch.Error.{route, Result, ok, err}
use nic_autoswitch.Ip.{IpCrate}
use nic_autoswitch.Config.{RouteRule, WifiProfile}
use nic_autoswitch.Router.Kernel.{Netlink}
use nic_autoswitch.Router.Manager.{RouteManager, flush_interface_routes}
use nic_autoswitch.Router.Manager
use nic_autoswitch.Router.Rules

pub record ActiveRoute : Type 0 where
  pub rule_name : Text
  pub interface : Text
  pub table_id : ℕ

pub record RuleExecutor : Type 0 where
  pub route_manager : RouteManager
  pub active_routes : Map Text ActiveRoute

unfoldable pub new_executor : RouteManager → RuleExecutor
new_executor rm = record { route_manager = rm; active_routes = [] }

unfoldable pub set_route_manager : RouteManager → RuleExecutor → RuleExecutor
set_route_manager rm x = record x { route_manager = rm }

unfoldable pub active_route_count : RuleExecutor → ℕ
active_route_count x = length x.active_routes

unfoldable pub table_id_v4 : RuleExecutor → ℕ → ℕ
unfolding Manager.table_id_v4
table_id_v4 x index = Manager.table_id_v4 x.route_manager index

unfoldable pub table_id_v6 : RuleExecutor → ℕ → ℕ
unfolding Manager.table_id_v6
table_id_v6 x index = Manager.table_id_v6 x.route_manager index

unfoldable pub is_route_active : Text → RuleExecutor → Bool
is_route_active rule_name x = contains_key rule_name x.active_routes

unfoldable pub track_active_route : (rule_name interface : Text) → ℕ → RuleExecutor → RuleExecutor
track_active_route rule_name interface table_id x = record x {
  active_routes =
      insert rule_name
        (record { rule_name = rule_name; interface = interface; table_id = table_id })
        x.active_routes;
}

unfoldable pub untrack_active_route : Text → RuleExecutor → RuleExecutor
untrack_active_route rule_name x = record x { active_routes = remove rule_name x.active_routes }

unfoldable pub clear_active_routes : RuleExecutor → RuleExecutor
clear_active_routes x = record x { active_routes = [] }

-- The end of an operation: a failure leaves the executor as it was.
abbrev pub tracking :
    {A K : Type 0} → RuleExecutor → (A → RuleExecutor) → Result A × K → Result A × RuleExecutor × K
tracking x f (ok a, k) = (ok a, f a, k)
tracking x f (err e, k) = (err e, x, k)

-- `Ok` counts one rule; a failure is logged and skipped.
abbrev pub count_ok : Result (Unit {0}) → ℕ → ℕ
count_ok (ok _) n = suc n
count_ok (err e) n = n

module _ (net : IpCrate) {K : Type 0} (nl : Netlink K) where
  unfoldable pub apply_rule :
      RouteRule
      → (interface_index table_id : ℕ) → RuleExecutor
      → K
      → Result (Unit {0}) × RuleExecutor × K
  unfolding track_active_route
  apply_rule rule interface_index table_id x k =
      tracking x (λ _. track_active_route rule.name rule.route_via.interface table_id x)
        (Manager.attempt (Rules.validate_rule rule) k
          λ _. Rules.apply_rule net nl x.route_manager rule interface_index table_id k)

  unfoldable pub remove_rule :
      RouteRule → (table_id : ℕ) → RuleExecutor → K → Result (Unit {0}) × RuleExecutor × K
  unfolding untrack_active_route
  remove_rule rule table_id x k =
      tracking x (λ _. untrack_active_route rule.name x)
        (Rules.remove_rule net nl x.route_manager rule table_id k)

  -- the loop of `apply_wifi_profile`
  unfoldable pub apply_rules :
      List RouteRule
      → (interface_index table_id applied_count : ℕ) → RuleExecutor
      → K
      → Result ℕ × RuleExecutor × K
  apply_rules [] interface_index table_id n x k = (ok n, x, k)
  apply_rules (r ∷ rs) interface_index table_id n x k =
      let (applied, x', k') = apply_rule r interface_index table_id x k in
      apply_rules rs interface_index table_id (count_ok applied n) x' k'

  unfoldable pub apply_wifi_profile :
      WifiProfile → (interface_index table_id : ℕ) → RuleExecutor → K → Result ℕ × RuleExecutor × K
  unfolding apply_rules
  apply_wifi_profile profile interface_index table_id x k =
      apply_rules profile.rules interface_index table_id 0 x k

  unfoldable pub flush_interface :
      Text → (table_id : ℕ) → RuleExecutor → K → Result ℕ × RuleExecutor × K
  unfolding Text-discrete
  flush_interface interface table_id x k =
      tracking x
        (λ _. record x {
          active_routes = retain (λ _ route. not (route.interface == interface)) x.active_routes;
        })
        (flush_interface_routes nl x.route_manager interface table_id k)
