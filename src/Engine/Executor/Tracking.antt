-- ===== src/Engine/Executor/Tracking.antt =====
-- src/engine/executor.rs: what the operations do to the record of active routes.
use nic_autoswitch.Common.{
  ℕ, ◌≡◌, refl, ◌⊎◌, inl, inr, some, if◌then◌else◌, Text, ◌==◌, Text-eq, ℕ-eq, get, IsMap,
  get-insert,
}
use nic_autoswitch.Error.{Error, Result, ok, err}
use nic_autoswitch.Ip.{IpCrate}
use nic_autoswitch.Config.{RouteRule}
use nic_autoswitch.Router.Kernel.{Netlink}
use nic_autoswitch.Router.Manager
use nic_autoswitch.Router.Manager.{flush_interface_routes}
use nic_autoswitch.Router.Rules
use nic_autoswitch.Engine.Executor.{ActiveRoute, RuleExecutor, apply_rule}

-- The entry that a rule leaves in a table.
abbrev pub entry : RouteRule → ℕ → ActiveRoute
entry r table_id = record {
  rule_name = r.name;
  interface = r.route_via.interface;
  table_id = table_id;
}

-- Each name stands once, and is the name in its entry.
pub record IsTracked (x : RuleExecutor) : Type 0 where
  pub once : IsMap x.active_routes
  pub named :
      (name : Text) (a : ActiveRoute) → get name x.active_routes ≡ some a → a.rule_name ≡ name

module _ (net : IpCrate) {K : Type 0} (nl : Netlink K) where
  -- What the operator did, after the rule was validated.
  abbrev pub applied : RouteRule → (idx table_id : ℕ) → RuleExecutor → K → Result (Unit {0}) × K
  applied r idx table_id x k =
      Manager.attempt (Rules.validate_rule r) k
        λ _. Rules.apply_rule net nl x.route_manager r idx table_id k

  -- Applying a rule makes it active with its entry if the operator succeeded, and changes no other
  -- entry; if the operator failed, the executor stays as it was and the error is returned.
  pub apply_rule_lem :
      (r : RouteRule) (idx table_id : ℕ) (x : RuleExecutor) (k : K) (name : Text)
      → (((apply_rule net nl r idx table_id x k).0 ≡ ok tt)
          × (get name (apply_rule net nl r idx table_id x k).1.active_routes
              ≡ (if r.name == name then some (entry r table_id) else get name x.active_routes)))
        ⊎ ((e : Error) × ((apply_rule net nl r idx table_id x k).0 ≡ err e)
            × ((apply_rule net nl r idx table_id x k).1 ≡ x))
  unfolding apply_rule
  apply_rule_lem r idx table_id x k name = split (applied r idx table_id x k) refl
    where
      split :
          (o : Result (Unit {0}) × K)
          → applied r idx table_id x k ≡ o
          → (((apply_rule net nl r idx table_id x k).0 ≡ ok tt)
              × (get name (apply_rule net nl r idx table_id x k).1.active_routes
                  ≡ (if r.name == name then some (entry r table_id) else get name x.active_routes)))
            ⊎ ((e : Error) × ((apply_rule net nl r idx table_id x k).0 ≡ err e)
                × ((apply_rule net nl r idx table_id x k).1 ≡ x))
      split (ok tt, k') e =
          inl (rw e, rw e (get-insert r.name name (entry r table_id) x.active_routes))
      split (err e', k') e = inr (e', rw e, rw e)
