-- ===== src/Router/Apart.antt =====
-- src/router/rules.rs: the removal of a rule, and the entries of another.
use mathlib.Core.List.{Memᴰ}
use nic_autoswitch.Common.{
  ◌⊎◌, true, Text, ℕ, ◌≡◌, refl, ◌∙◌, inl, inr, Bool-cases, none, some, [], ◌∷◌, arith, Text-eq,
  ℕ-eq,
}
use nic_autoswitch.Error.{Result, ok, err, ◌>>◌}
use nic_autoswitch.Ip.{IpNetwork, IpCrate, IpAddr-eq, IpNetwork-eq, ip, prefix}
use nic_autoswitch.Config.{RouteRule}
use nic_autoswitch.Router.Kernel.{
  RouteAdd, RuleAdd, RouteAttribute, RouteMessage, found, RuleAttribute, RuleMessage, Netlink,
}
use nic_autoswitch.Router.Rules.{get_destination, remove_rule}
use nic_autoswitch.Router.Manager.{
  RouteManager, attempt, handle_or_error, build_rule_message, is_ipv4_rule, table_id_to_u8,
  route_key, rule_request, route_request, remove_policy_rule, remove_route,
}
use nic_autoswitch.Router.Repeat.{AddLaws}
use nic_autoswitch.Router.Backed.{IsInKernel}

-- A message that names a network may take an entry of another if it is the same, host bits aside. One
-- that names every address is not compared.
abbrev pub MayTake : IpCrate → IpNetwork → IpNetwork → Type 0
MayTake net n n' =
    (prefix n ≡ 0) ⊎ ((prefix n ≡ prefix n') × ((ip n ≡ ip n') ⊎ (net.contains n (ip n') ≡ true)))

-- What netlink documents of its requests to delete: a message that names a network takes no entry of
-- another one, and routes, rules and links are apart.
pub record DeleteLaws (net : IpCrate) {K : Type 0} {nl : Netlink K} (laws : AddLaws nl)
    : Type 0 where
  pub other_rule :
      (n n' : IpNetwork) (m : RuleMessage) (q : RuleAdd) (k : K)
      → Memᴰ (RuleAttribute.destination (ip n)) m.attributes
      → m.dst_len ≡ prefix n
      → q.destination ≡ some (ip n', prefix n')
      → (MayTake net n n' → ⊥)
      → laws.HasRule q k
      → laws.HasRule q (nl.rule_del m k).1
  pub other_route :
      (n n' : IpNetwork) (m : RouteMessage) (q : RouteAdd) (k : K)
      → Memᴰ (RouteAttribute.destination (ip n)) m.attributes
      → m.destination_prefix_length ≡ prefix n
      → q.destination ≡ ip n'
      → q.prefix_length ≡ prefix n'
      → (MayTake net n n' → ⊥)
      → laws.HasRoute q k
      → laws.HasRoute q (nl.route_del m k).1
  pub rule_leaves_route :
      (m : RuleMessage) (q : RouteAdd) (k : K)
      → laws.HasRoute q k
      → laws.HasRoute q (nl.rule_del m k).1
  pub route_leaves_rule :
      (m : RouteMessage) (q : RuleAdd) (k : K)
      → laws.HasRule q k
      → laws.HasRule q (nl.route_del m k).1
  pub rule_leaves_link :
      (m : RuleMessage) (name : Text) (k : K)
      → nl.link_by_name name (nl.rule_del m k).1 ≡ nl.link_by_name name k
  pub route_leaves_link :
      (m : RouteMessage) (name : Text) (k : K)
      → nl.link_by_name name (nl.route_del m k).1 ≡ nl.link_by_name name k

-- The removal of a rule may take the entries of another one.
abbrev pub Shares : IpCrate → RouteRule → RouteRule → Type 0
Shares net r r' =
    (n n' : IpNetwork) × (get_destination net r ≡ ok n)
    × (get_destination net r' ≡ ok n')
    × MayTake net n n'

attempt_keeps_ok :
    {A B K : Type 0} (Q : K → Type 0) (o : Result A) (k : K) (f : A → Result B × K)
    → Q k
    → ((a : A) → o ≡ ok a → Q (f a).1)
    → Q (attempt o k f).1
attempt_keeps_ok Q (ok a) k f h g = g a refl
attempt_keeps_ok Q (err e) k f h g = h

built_message :
    (rm : RouteManager) (n : IpNetwork) (t p : ℕ) (m : RuleMessage)
    → (handle_or_error rm >> build_rule_message (some n) none t p (is_ipv4_rule (some n) none))
      ≡ ok m
    → (m.attributes ≡ RuleAttribute.destination (ip n) ∷ RuleAttribute.priority p ∷ [])
      × (m.dst_len ≡ prefix n)
unfolding build_rule_message table_id_to_u8 is_ipv4_rule
built_message rm (IpNetwork.v4 a l) t p m h = ground arith
built_message rm (IpNetwork.v6 a l) t p m h = ground arith

requested_destination :
    (n : IpNetwork) (t p : ℕ) → (rule_request (some n) none t p).destination ≡ some (ip n, prefix n)
unfolding rule_request is_ipv4_rule
requested_destination (IpNetwork.v4 a l) t p = refl
requested_destination (IpNetwork.v6 a l) t p = refl

module _ (net : IpCrate) {K : Type 0} (nl : Netlink K) (laws : AddLaws nl)
    (deletes : DeleteLaws net laws) (rm : RouteManager) (i : Text) (n' : IpNetwork)
    (index t' p' : ℕ) where
  abbrev Both : K → Type 0
  Both k =
      (nl.link_by_name i k ≡ found index)
      × laws.HasRule (rule_request (some n') none t' p') k
      × laws.HasRoute (route_request n' none index t' p') k

  policy_leaves :
      (n : IpNetwork) (t p : ℕ) (k : K)
      → (MayTake net n n' → ⊥)
      → Both k
      → Both (remove_policy_rule nl rm (some n) none t p k).1
  unfolding remove_policy_rule
  policy_leaves n t p k ne h = elim (Bool-cases rm.dry_run) [
    | inl dry ↦ rw dry h
    | inr live ↦ rw live (
        attempt_keeps_ok Both _ k _ h (λ m built.
          let (named, wide) = built_message rm n t p m built in
          (
            deletes.rule_leaves_link m i k ∙ h.0,
            deletes.other_rule n n' m (rule_request (some n') none t' p') k
                (rw named (Memᴰ.head refl)) wide (requested_destination n' t' p') ne h.1,
            deletes.rule_leaves_route m (route_request n' none index t' p') k h.2,
          )))
  ]

  route_leaves :
      (n : IpNetwork) (t : ℕ) (k : K)
      → (MayTake net n n' → ⊥)
      → Both k
      → Both (remove_route nl rm n t k).1
  unfolding remove_route route_key route_request
  route_leaves n t k ne h = elim (Bool-cases rm.dry_run) [
    | inl dry ↦ rw dry h
    | inr live ↦ rw live (
        attempt_keeps_ok Both _ k _ h (λ table named. (
          deletes.route_leaves_link (route_key n table) i k ∙ h.0,
          deletes.route_leaves_rule (route_key n table) (rule_request (some n') none t' p') k h.1,
          deletes.other_route n n' (route_key n table) (route_request n' none index t' p') k
              (Memᴰ.head refl) refl refl refl ne h.2,
        )))
  ]

  -- The removal of a rule, whatever fails, leaves the entries of another destination.
  remove_rule_leaves :
      (r : RouteRule) (t : ℕ) (k : K)
      → ((n : IpNetwork) → get_destination net r ≡ ok n → MayTake net n n' → ⊥)
      → Both k
      → Both (remove_rule net nl rm r t k).1
  unfolding remove_rule
  remove_rule_leaves r t k apart h = attempt_keeps_ok Both (get_destination net r) k _ h λ n e.
      let ruled = policy_leaves n t r.priority k (apart n e) h in
      let (o, k') = remove_policy_rule nl rm (some n) none t r.priority k in
      attempt_keeps_ok Both o k' _ ruled (λ u fine. route_leaves n t k' (apart n e) ruled)

module _ (net : IpCrate) {K : Type 0} (nl : Netlink K) (laws : AddLaws nl)
    (deletes : DeleteLaws net laws) (rm : RouteManager) where
  pub IsInKernel-remove_rule_other :
      (r r' : RouteRule) (t t' : ℕ) (k : K)
      → (Shares net r r' → ⊥)
      → IsInKernel net nl laws r' t' k
      → IsInKernel net nl laws r' t' (remove_rule net nl rm r t k).1
  IsInKernel-remove_rule_other r r' t t' k apart (n', index, e, linked, ruled, routed) =
      let (linked', ruled', routed') =
        remove_rule_leaves net nl laws deletes rm r'.route_via.interface n' index t' r'.priority r t
          k (λ n f may. apart (n, n', f, e, may)) (linked, ruled, routed) in
      (n', index, e, linked', ruled', routed')
