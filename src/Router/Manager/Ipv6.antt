-- ===== src/Router/Manager/Ipv6.antt =====
-- src/router/manager.rs: the IPv6 routes, which no flush asks for.
use nic_autoswitch.Common.{
  ℕ, ◌≡◌, ◌∙◌, inl, inr, true, Bool-cases, Text-eq, ℕ-eq, ◌==◌, if◌then◌else◌,
}
use nic_autoswitch.Error.{Result, ok, ◌>>◌}
use nic_autoswitch.Router.Kernel.{IpVersion, ipv4, ipv6, RouteMessage, RuleMessage, Netlink}
use nic_autoswitch.Router.Backed.{attempt_keeps}
use nic_autoswitch.Router.Manager.Base.{RouteManager, table_id_to_u8}
use nic_autoswitch.Router.Manager.Change.{attempt, handle_or_error}
use nic_autoswitch.Router.Manager.Query.{
  flush_table, flush_rules, flush_table_policy_rules, flush_table_complete,
}
use nic_autoswitch.Router.Manager.Flush.{Listed, delete_each_keeps}

-- What netlink documents of its requests to delete: a route that was listed as one of IPv4 is deleted
-- as such, and no rule takes a route with it.
pub record Ipv6Laws {K : Type 0} (nl : Netlink K) : Type 0 where
  pub ipv4_only :
      (m : RouteMessage) (t : ℕ) (listed : K)
      → Listed m (nl.routes ipv4 t listed)
      → (i : ℕ) (k : K) → nl.routes ipv6 i (nl.route_del m k).1 ≡ nl.routes ipv6 i k
  pub routes_apart :
      (m : RuleMessage) (i : ℕ) (k : K) → nl.routes ipv6 i (nl.rule_del m k).1 ≡ nl.routes ipv6 i k

module _ {K : Type 0} (nl : Netlink K) (laws : Ipv6Laws nl) (rm : RouteManager) (i : ℕ)
    (k : K) where
  abbrev pub Same : K → Type 0
  Same k' = nl.routes ipv6 i k' ≡ nl.routes ipv6 i k

  if_live :
      (table_id : ℕ) (o : Result ℕ × K) (f : ℕ → Result ℕ × K)
      → Same o.1
      → ((table : ℕ) → Same (f table).1)
      → Same
          (if rm.dry_run
            then (ok 0, o.1)
            else attempt (handle_or_error rm >> table_id_to_u8 table_id) o.1 f).1
  if_live table_id o f h g = elim (Bool-cases rm.dry_run) [
    | inl dry ↦ rw dry h
    | inr live ↦
        rw live (attempt_keeps Same (handle_or_error rm >> table_id_to_u8 table_id) o.1 f h g)
  ]

  flush_table-Same : (t : ℕ) (k' : K) → Same k' → Same (flush_table nl rm t k').1
  unfolding flush_table
  flush_table-Same t k' h =
      if_live t (ok 0, k') _ h
        λ table.
          delete_each_keeps (λ _. true) nl.route_del Same (nl.routes ipv4 table k')
            (λ m l k2 e. laws.ipv4_only m table k' l i k2 ∙ e) 0 k' h

  flush_rules-Same :
      (v : IpVersion) (table n : ℕ) (k' : K) → Same k' → Same (flush_rules nl rm v table n k').1
  unfolding flush_rules
  flush_rules-Same v table n k' h =
      delete_each_keeps (λ (r : RuleMessage). r.table == table) nl.rule_del Same (nl.rules v k')
        (λ m l k2 e. laws.routes_apart m i k2 ∙ e) n k' h

  policies-Same : (t : ℕ) (k' : K) → Same k' → Same (flush_table_policy_rules nl rm t k').1
  unfolding flush_table_policy_rules
  policies-Same t k' h =
      if_live t (ok 0, k') _ h
        λ table.
          let first = flush_rules-Same ipv4 table 0 k' h in
          let (counted, k2) = flush_rules nl rm ipv4 table 0 k' in
          attempt_keeps Same counted k2 _ first (λ n. flush_rules-Same ipv6 table n k2 first)

  -- A flush leaves the IPv6 routes of every table, of its own too.
  pub flush_table_complete-Same :
      (t : ℕ) (k' : K) → Same k' → Same (flush_table_complete nl rm t k').1
  unfolding flush_table_complete
  flush_table_complete-Same t k' h =
      let (routes, k1) = flush_table nl rm t k' in
      let after = flush_table-Same t k' h in
      attempt_keeps Same routes k1 _ after λ n.
        let (rules, k2) = flush_table_policy_rules nl rm t k1 in
        attempt_keeps Same rules k2 _ (policies-Same t k1 after) (λ m. policies-Same t k1 after)
