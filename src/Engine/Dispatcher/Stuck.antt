-- ===== src/Engine/Dispatcher/Stuck.antt =====
-- src/engine/dispatcher.rs and src/router/manager.rs: an interface that goes down, if no request to delete
-- a route gets through.
use nic_autoswitch.Common.{
  ℕ, ◌≡◌, refl, inl, inr, false, none, some, List, [], ◌∷◌, Option-cases, bytes, Text, Text-eq,
  ℕ-eq, Map, get,
}
use nic_autoswitch.Error.{Error, Result, ok, err, ◌>>◌}
use nic_autoswitch.Ip.{IpCrate, IpNetwork}
use nic_autoswitch.Config.{RouteRule}
use nic_autoswitch.Router.Kernel.{NetlinkError, Reply, failed, RouteMessage, Netlink}
use nic_autoswitch.Router.Rules
use nic_autoswitch.Router.Manager.{
  RouteManager, attempt, judge, handle_or_error, table_id_to_u8, is_no_such_entry, deleted,
  remove_policy_rule, remove_route, route_key,
}
use nic_autoswitch.Engine.Executor.{RuleExecutor, untrack_active_route, tracking, remove_rule}
use nic_autoswitch.Engine.Dispatcher.State.{EventDispatcher}
use nic_autoswitch.Engine.Dispatcher.Apply.{
  rules_map, routes_via, remove_each, handle_interface_down,
}

-- What rtnetlink documents of a request to delete a route: it is of an address family, and one with none
-- is refused as not supported, which is no answer for a missing entry.
pub record FamilyLaw {K : Type 0} (nl : Netlink K) : Type 0 where
  pub unspecified :
      (m : RouteMessage) (k : K)
      → m.family ≡ none
      → (e : NetlinkError) × (is_no_such_entry e ≡ false) × ((nl.route_del m k).0 ≡ failed e)

attempt_fails :
    {A B K : Type 0} (o : Result A) (k : K) (f : A → Result B × K)
    → ((a : A) → (e : Error) × ((f a).0 ≡ err e))
    → (e : Error) × ((attempt o k f).0 ≡ err e)
attempt_fails (ok a) k f h = h a
attempt_fails (err e) k f h = (e, refl)

refusal_fails :
    {K : Type 0} (what : Text) (o : Reply × K) (e : NetlinkError)
    → o.0 ≡ failed e
    → is_no_such_entry e ≡ false
    → (x : Error) × ((judge (deleted what) o).0 ≡ err x)
unfolding deleted
refusal_fails what (reply, k) e refused other = rw (refused, other) (_, refl)

module _ (net : IpCrate) {K : Type 0} (nl : Netlink K) (law : FamilyLaw nl) where
  remove_route_fails :
      (rm : RouteManager) (n : IpNetwork) (t : ℕ) (k : K)
      → rm.dry_run ≡ false
      → (e : Error) × ((remove_route nl rm n t k).0 ≡ err e)
  unfolding remove_route route_key
  remove_route_fails rm n t k live = rw live (
      attempt_fails (handle_or_error rm >> table_id_to_u8 t) k
        (λ table. judge (deleted (bytes "route")) (nl.route_del (route_key n table) k))
        (λ table.
          let (e, other, refused) = law.unspecified (route_key n table) k refl in
          refusal_fails (bytes "route") (nl.route_del (route_key n table) k) e refused other))

  removal_fails :
      (rm : RouteManager) (r : RouteRule) (t : ℕ) (k : K)
      → rm.dry_run ≡ false
      → (e : Error) × ((Rules.remove_rule net nl rm r t k).0 ≡ err e)
  unfolding Rules.remove_rule
  removal_fails rm r t k live =
      attempt_fails (Rules.get_destination net r) k
        (λ n.
          let (ruled, k') = remove_policy_rule nl rm (some n) none t r.priority k in
          attempt ruled k' λ _. remove_route nl rm n t k')
        (λ n.
          let (ruled, k') = remove_policy_rule nl rm (some n) none t r.priority k in
          attempt_fails ruled k' (λ _. remove_route nl rm n t k')
            (λ u. remove_route_fails rm n t k' live))

  failed_tracking :
      (x : RuleExecutor) (f : Unit {0} → RuleExecutor) (o : Result (Unit {0}) × K) (e : Error)
      → o.0 ≡ err e
      → (tracking x f o).1 ≡ x
  failed_tracking x f (ok u, k) e h = cc
  failed_tracking x f (err e', k) e h = refl

  remove_rule_stuck :
      (r : RouteRule) (t : ℕ) (x : RuleExecutor) (k : K)
      → x.route_manager.dry_run ≡ false
      → (remove_rule net nl r t x k).1 ≡ x
  unfolding remove_rule
  remove_rule_stuck r t x k live =
      let (e, fails) = removal_fails x.route_manager r t k live in
      failed_tracking x (λ _. untrack_active_route r.name x) _ e fails

  remove_each_stuck :
      (m : Map Text RouteRule) (l : List (Text × ℕ)) (x : RuleExecutor) (k : K)
      → x.route_manager.dry_run ≡ false
      → (remove_each net nl m l x k).0 ≡ x
  unfolding remove_each
  remove_each_stuck m [] x k live = refl
  remove_each_stuck m ((n, t) ∷ l) x k live = elim (Option-cases (get n m)) [
    | inl missing ↦ rw (missing, remove_each) (remove_each_stuck m l x k live)
    | inr (r, found) ↦
        rw (found, remove_each, remove_rule_stuck r t x k live)
          (remove_each_stuck m l x (remove_rule net nl r t x k).2 live)
  ]

  -- Outside a dry run, and if the kernel refuses to delete a route of no address family: an interface
  -- that goes down or away leaves the executor as it was, and so every route recorded as active.
  pub handle_interface_down-stuck :
      (i : Text) (d : EventDispatcher) (k : K)
      → d.executor.route_manager.dry_run ≡ false
      → (handle_interface_down net nl i d k).1.executor ≡ d.executor
  unfolding handle_interface_down
  handle_interface_down-stuck i d k live =
      remove_each_stuck (rules_map d.config) (routes_via i d.executor.active_routes) d.executor k
        live
