-- ===== src/Router/Manager/Left.antt =====
-- src/router/manager.rs: the tables and the rules after a flush.
use nic_autoswitch.Common.{
  ℕ, ◌+◌, ◌≤◌, ◌≡◌, refl, sym, ap, ◌∙◌, true, false, arith, ◌==◌, Text-eq, ℕ-eq, ==_iff,
}
use nic_autoswitch.Error.{Result, ok, ◌>>◌}
use nic_autoswitch.Router.Kernel.{IpVersion, ipv4, ipv6, RouteMessage, RuleMessage, Netlink}
use nic_autoswitch.Router.Repeat.{attempt_ok}
use nic_autoswitch.Router.Manager.Base.{RouteManager, table_id_to_u8}
use nic_autoswitch.Router.Manager.Change.{attempt, handle_or_error}
use nic_autoswitch.Router.Manager.Query.{
  delete_each, flush_table, flush_rules, flush_table_policy_rules, flush_table_complete,
}
use nic_autoswitch.Router.Manager.Flush.{
  Listed, FlushLaws, Refused, delete_each_keeps, delete_all-Refused,
}

table_named :
    (rm : RouteManager) (t table : ℕ)
    → t ≤ 255
    → (handle_or_error rm >> table_id_to_u8 t) ≡ ok table
    → table ≡ t
unfolding table_id_to_u8
table_named rm t table small h = ground arith

module _ {K : Type 0} (nl : Netlink K) (laws : FlushLaws nl) (rm : RouteManager)
    (live : rm.dry_run ≡ false) (t : ℕ) (small : t ≤ 255) where
  -- The deletions of a flush of the table.
  abbrev deletions : ℕ → K → Result ℕ × K
  deletions table k = delete_each (λ _. true) nl.route_del (nl.routes ipv4 table k) 0 k

  -- The kernel refuses to delete a route while the table is flushed, or a rule while the rules of a
  -- version are.
  abbrev pub RouteRefused : K → RouteMessage → Type 0
  RouteRefused k m = Refused (λ _. true) nl.route_del m (nl.routes ipv4 t k) k

  abbrev pub RuleRefused : IpVersion → K → RuleMessage → Type 0
  RuleRefused v k m = Refused (λ (r : RuleMessage). r.table == t) nl.rule_del m (nl.rules v k) k

  -- The rules of IPv6 are listed once those of IPv4 are flushed.
  abbrev pub when_listed : IpVersion → K → K
  when_listed ipv4 k = k
  when_listed ipv6 k = (flush_rules nl rm ipv4 t 0 k).1

  flushed :
      (n : ℕ) (k : K) → (flush_table nl rm t k).0 ≡ ok n → flush_table nl rm t k ≡ deletions t k
  unfolding flush_table
  flushed n k h =
      let (table, named, same) =
        attempt_ok (handle_or_error rm >> table_id_to_u8 t) k (λ table. deletions table k) n
          (rw live at h) in
      rw live (same ∙ ap (λ (i : ℕ). deletions i k) (table_named rm t table small named))

  routes_left :
      (n : ℕ) (k : K) (m : RouteMessage)
      → (flush_table nl rm t k).0 ≡ ok n
      → Listed m (nl.routes ipv4 t (flush_table nl rm t k).1)
      → RouteRefused k m
  routes_left n k m h l =
      delete_all-Refused (λ _. true) nl.route_del (nl.routes ipv4 t) (λ a k. laws.route_gone a t k)
        (λ a m k. laws.route_shrinks a t m k) 0 k m refl (rw (flushed n k h) at l)

  rules_left :
      (v : IpVersion) (n : ℕ) (k : K) (m : RuleMessage)
      → m.table ≡ t
      → Listed m (nl.rules v (flush_rules nl rm v t n k).1)
      → RuleRefused v k m
  unfolding flush_rules
  rules_left v n k m e l =
      delete_all-Refused (λ (r : RuleMessage). r.table == t) nl.rule_del (nl.rules v)
        (λ a k. laws.rule_gone a v k) (λ a m k. laws.rule_shrinks a v m k) n k m
        ((==_iff m.table t).1 e) l

  -- The rules of one version do not grow while those of another are flushed, and no route moves.
  rules_shrink :
      (v w : IpVersion) (n : ℕ) (k : K) (m : RuleMessage)
      → Listed m (nl.rules w (flush_rules nl rm v t n k).1)
      → Listed m (nl.rules w k)
  unfolding flush_rules
  rules_shrink v w n k m =
      delete_each_keeps (λ (r : RuleMessage). r.table == t) nl.rule_del
        (λ k'. Listed m (nl.rules w k') → Listed m (nl.rules w k)) (nl.rules v k)
        (λ a _ k' ih l. ih (laws.rule_shrinks a w m k' l)) n k (λ l. l)

  routes_same :
      (v w : IpVersion) (i n : ℕ) (k : K)
      → nl.routes w i (flush_rules nl rm v t n k).1 ≡ nl.routes w i k
  unfolding flush_rules
  routes_same v w i n k =
      delete_each_keeps (λ (r : RuleMessage). r.table == t) nl.rule_del
        (λ k'. nl.routes w i k' ≡ nl.routes w i k) (nl.rules v k)
        (λ a _ k' ih. laws.routes_apart a w i k' ∙ ih) n k refl

  -- The two flushes of rules.
  abbrev rule_flushes : ℕ → K → Result ℕ × K
  rule_flushes table k =
      let (counted, k') = flush_rules nl rm ipv4 table 0 k in
      attempt counted k' λ n. flush_rules nl rm ipv6 table n k'

  policies_live :
      (k : K)
      → flush_table_policy_rules nl rm t k
        ≡ attempt (handle_or_error rm >> table_id_to_u8 t) k (λ table. rule_flushes table k)
  unfolding flush_table_policy_rules
  policies_live k = rw live refl

  policies_flushed :
      (n : ℕ) (k : K)
      → (flush_table_policy_rules nl rm t k).0 ≡ ok n
      → (i : ℕ) × (flush_table_policy_rules nl rm t k
          ≡ flush_rules nl rm ipv6 t i (flush_rules nl rm ipv4 t 0 k).1)
  policies_flushed n k h =
      let (table, named, same) =
        attempt_ok (handle_or_error rm >> table_id_to_u8 t) k (λ table. rule_flushes table k) n
          (sym (ap (λ o. o.0) (policies_live k)) ∙ h) in
      let all =
        policies_live k
        ∙ same
        ∙ ap (λ (i : ℕ). rule_flushes i k) (table_named rm t table small named) in
      let (counted, k') = flush_rules nl rm ipv4 t 0 k in
      let (i, fine, last) =
        attempt_ok counted k' (λ i. flush_rules nl rm ipv6 t i k') n
          (sym (ap (λ o. o.0) all) ∙ h) in
      (i, all ∙ last)

  policies_left :
      (v : IpVersion) (n : ℕ) (k : K) (m : RuleMessage)
      → (flush_table_policy_rules nl rm t k).0 ≡ ok n
      → m.table ≡ t
      → Listed m (nl.rules v (flush_table_policy_rules nl rm t k).1)
      → RuleRefused v (when_listed v k) m
  policies_left ipv4 n k m h e l =
      let (i, same) = policies_flushed n k h in
      rules_left ipv4 0 k m e
        (rules_shrink ipv6 ipv4 i (flush_rules nl rm ipv4 t 0 k).1 m (rw same at l))
  policies_left ipv6 n k m h e l =
      let (i, same) = policies_flushed n k h in
      rules_left ipv6 i (flush_rules nl rm ipv4 t 0 k).1 m e (rw same at l)

  policies_keep :
      (i n : ℕ) (k : K)
      → (flush_table_policy_rules nl rm t k).0 ≡ ok n
      → nl.routes ipv4 i (flush_table_policy_rules nl rm t k).1 ≡ nl.routes ipv4 i k
  policies_keep i n k h =
      let (j, same) = policies_flushed n k h in
      let k1 = (flush_rules nl rm ipv4 t 0 k).1 in
      rw same (routes_same ipv6 ipv4 i j k1 ∙ routes_same ipv4 ipv4 i 0 k)

  -- Outside a dry run, for a table up to 255, and under the laws of the requests to delete: whatever a
  -- flush of a table that succeeds leaves of the table, be it an IPv4 route or a policy rule of either
  -- version, the flush asked the kernel to delete, and the kernel refused.
  pub flush_table_complete-left :
      (n : ℕ) (k : K)
      → (flush_table_complete nl rm t k).0 ≡ ok n
      → let k1 = (flush_table nl rm t k).1 in
        let k' = (flush_table_complete nl rm t k).1 in
        ((m : RouteMessage) → Listed m (nl.routes ipv4 t k') → RouteRefused k m)
        × ((v : IpVersion) (m : RuleMessage)
            → m.table ≡ t
            → Listed m (nl.rules v k')
            → RuleRefused v (when_listed v k1) m)
  unfolding flush_table_complete
  flush_table_complete-left n k h =
      let (routes, k1) = flush_table nl rm t k in
      let (a, fine, same) = attempt_ok routes k1 _ n h in
      let (rules, k2) = flush_table_policy_rules nl rm t k1 in
      let (b, fine', same') =
        attempt_ok rules k2 (λ m. (ok (a + m), k2)) n (sym (ap (λ o. o.0) same) ∙ h) in
      rw same (
        rw same' (
          λ m l. routes_left a k m fine (rw (policies_keep t b k1 fine') at l),
          λ v m e l. policies_left v b k1 m fine' e l,
        ))
