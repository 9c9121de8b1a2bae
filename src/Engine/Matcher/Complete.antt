-- ===== src/Engine/Matcher/Complete.antt =====
-- src/engine/matcher.rs: which rules the list of all matches holds.
use mathlib.Core.List.{Memᴰ}
use mathlib.Core.Path.{subst}
use nic_autoswitch.Common.{
  ◌≡◌, refl, sym, ◌↔◌, ◌⊎◌, inl, inr, true, not, ◌&&◌, Option, List, [], ◌∷◌, ◌++◌, if◌then◌else◌,
  Bool-cases, Text-eq, ℕ-eq,
}
use nic_autoswitch.Error.{ok}
use nic_autoswitch.Ip.{IpAddr, IpCrate}
use nic_autoswitch.Config.{RouteRule, RouteRule-eq}
use nic_autoswitch.Router.Dns.{DnsCall}
use nic_autoswitch.Engine.Matcher.{
  Destination, RuleMatcher, resolve_destination, or_empty, contains_rule, sort_by_priority,
  rule_matches, matching, push_matching, push_resolved, find_all_matching_rules,
}
use nic_autoswitch.Engine.Matcher.Members.{
  Mem-sort, sort-Mem, Mem-append_left, Mem-append_last, append-Mem, contains_rule-Mem,
}

-- The rule is direct, or for one of the addresses.
abbrev pub Hits : IpCrate → RouteRule → Destination → List IpAddr → Type 0
Hits net r d l =
    (rule_matches net r d ≡ true)
    ⊎ ((a : IpAddr) × Memᴰ a l × (rule_matches net r (Destination.ip a) ≡ true))

module _ (net : IpCrate) (d : Destination) where
  Mem-matching :
      (r : RouteRule) (rules : List RouteRule)
      → Memᴰ r rules
      → rule_matches net r d ≡ true
      → Memᴰ r (matching net d rules)
  unfolding matching
  Mem-matching r [] m h = elim m [ ]
  Mem-matching r (s ∷ rules) (Memᴰ.head e) h =
      let h' : rule_matches net s d ≡ true = subst (λ x. rule_matches net x d ≡ true) e h in
      rw h' (Memᴰ.head e)
  Mem-matching r (s ∷ rules) (Memᴰ.tail m) h = elim (Bool-cases (rule_matches net s d)) [
    | inl also ↦ rw also (Memᴰ.tail (Mem-matching r rules m h))
    | inr misses ↦ rw misses (Mem-matching r rules m h)
  ]

  -- Whatever holds of a rule in front of the list and of those behind.
  wider : {r s : RouteRule} {l : List RouteRule} {P : Type 0} → Memᴰ r l × P → Memᴰ r (s ∷ l) × P
  wider (m, h) = (Memᴰ.tail m, h)

  matching-Mem :
      (r : RouteRule) (rules : List RouteRule)
      → Memᴰ r (matching net d rules)
      → Memᴰ r rules × (rule_matches net r d ≡ true)
  unfolding matching
  matching-Mem r [] m = elim m [ ]
  matching-Mem r (s ∷ rules) m = elim (Bool-cases (rule_matches net s d)) [
    | inl hit ↦ front hit (matching-Mem r rules) (rw hit at m)
    | inr misses ↦ wider (matching-Mem r rules (rw misses at m))
  ]
    where
      front :
          rule_matches net s d ≡ true
          → (Memᴰ r (matching net d rules) → Memᴰ r rules × (rule_matches net r d ≡ true))
          → Memᴰ r (s ∷ matching net d rules)
          → Memᴰ r (s ∷ rules) × (rule_matches net r d ≡ true)
      front hit later (Memᴰ.head e) =
          (Memᴰ.head e, subst (λ x. rule_matches net x d ≡ true) (sym e) hit)
      front hit later (Memᴰ.tail m') = wider (later m')

  Mem-push_found :
      (r : RouteRule) (rules found : List RouteRule)
      → Memᴰ r found
      → Memᴰ r (push_matching net d rules found)
  unfolding push_matching
  Mem-push_found r [] found m = m
  Mem-push_found r (s ∷ rules) found m =
      Mem-push_found r rules _
        (elim (Bool-cases (rule_matches net s d && not (contains_rule found s))) [
          | inl fresh ↦ rw fresh (Mem-append_left r s found m)
          | inr old ↦ rw old m
        ])

  -- The list after one rule.
  abbrev step : RouteRule → List RouteRule → List RouteRule
  step s found =
      if rule_matches net s d && not (contains_rule found s) then found ++ s ∷ [] else found

  pushed :
      (s : RouteRule) (found : List RouteRule) → rule_matches net s d ≡ true → Memᴰ s (step s found)
  pushed s found h = elim (Bool-cases (contains_rule found s)) [
    | inl old ↦ rw (h, old) (contains_rule-Mem found s old)
    | inr fresh ↦ rw (h, fresh) (Mem-append_last s found)
  ]

  Mem-push_new :
      (r : RouteRule) (rules found : List RouteRule)
      → Memᴰ r rules
      → rule_matches net r d ≡ true
      → Memᴰ r (push_matching net d rules found)
  unfolding push_matching
  Mem-push_new r [] found m h = elim m [ ]
  Mem-push_new r (s ∷ rules) found (Memᴰ.head e) h =
      let h' : rule_matches net s d ≡ true = subst (λ x. rule_matches net x d ≡ true) e h in
      Mem-push_found r rules (step s found)
        (subst (λ x. Memᴰ x (step s found)) (sym e) (pushed s found h'))
  Mem-push_new r (s ∷ rules) found (Memᴰ.tail m) h = Mem-push_new r rules _ m h

  step-Mem :
      (r s : RouteRule) (found : List RouteRule)
      → Memᴰ r (step s found)
      → Memᴰ r found ⊎ ((r ≡ s) × (rule_matches net s d ≡ true))
  step-Mem r s found m = elim (Bool-cases (rule_matches net s d)) [
    | inr misses ↦ inl (rw misses at m)
    | inl hit ↦ elim (Bool-cases (contains_rule found s)) [
      | inl old ↦ inl (rw (hit, old) at m)
      | inr fresh ↦ elim (append-Mem r s found (rw (hit, fresh) at m)) [
        | inl inside ↦ inl inside
        | inr last ↦ inr (last, hit)
      ]
    ]
  ]

  push-Mem :
      (r : RouteRule) (rules found : List RouteRule)
      → Memᴰ r (push_matching net d rules found)
      → Memᴰ r found ⊎ (Memᴰ r rules × (rule_matches net r d ≡ true))
  unfolding push_matching
  push-Mem r [] found m = inl m
  push-Mem r (s ∷ rules) found m = elim (push-Mem r rules (step s found) m) [
    | inr later ↦ inr (wider later)
    | inl now ↦ elim (step-Mem r s found now) [
      | inl inside ↦ inl inside
      | inr (e, hit) ↦ inr (Memᴰ.head e, subst (λ x. rule_matches net x d ≡ true) (sym e) hit)
    ]
  ]

-- The rule is for one of the addresses.
abbrev HitsAddress : IpCrate → RouteRule → List IpAddr → Type 0
HitsAddress net r l = (a : IpAddr) × Memᴰ a l × (rule_matches net r (Destination.ip a) ≡ true)

module _ (net : IpCrate) (rules : List RouteRule) where
  Mem-resolved_found :
      (r : RouteRule) (l : List IpAddr) (found : List RouteRule)
      → Memᴰ r found
      → Memᴰ r (push_resolved net rules l found)
  unfolding push_resolved
  Mem-resolved_found r [] found m = m
  Mem-resolved_found r (a ∷ l) found m =
      Mem-resolved_found r l _ (Mem-push_found net (Destination.ip a) r rules found m)

  Mem-resolved_new :
      (r : RouteRule) (l : List IpAddr) (found : List RouteRule)
      → Memᴰ r rules
      → HitsAddress net r l
      → Memᴰ r (push_resolved net rules l found)
  unfolding push_resolved
  Mem-resolved_new r [] found m (a, inside, hit) = elim inside [ ]
  Mem-resolved_new r (b ∷ l) found m (a, Memᴰ.head e, hit) =
      Mem-resolved_found r l (push_matching net (Destination.ip b) rules found) (
        Mem-push_new net (Destination.ip b) r rules found m
          (subst (λ x. rule_matches net r (Destination.ip x) ≡ true) e hit))
  Mem-resolved_new r (b ∷ l) found m (a, Memᴰ.tail inside, hit) =
      Mem-resolved_new r l (push_matching net (Destination.ip b) rules found) m (a, inside, hit)

  resolved-Mem :
      (r : RouteRule) (l : List IpAddr) (found : List RouteRule)
      → Memᴰ r (push_resolved net rules l found)
      → Memᴰ r found ⊎ (Memᴰ r rules × HitsAddress net r l)
  unfolding push_resolved
  resolved-Mem r [] found m = inl m
  resolved-Mem r (b ∷ l) found m =
      elim (resolved-Mem r l (push_matching net (Destination.ip b) rules found) m) [
        | inr (inside, (a, m', hit)) ↦ inr (inside, (a, Memᴰ.tail m', hit))
        | inl now ↦ elim (push-Mem net (Destination.ip b) r rules found now) [
          | inl earlier ↦ inl earlier
          | inr (inside, hit) ↦ inr (inside, (b, Memᴰ.head refl, hit))
        ]
      ]

  listed :
      (d : Destination) (l : List IpAddr) (r : RouteRule)
      → Memᴰ r (sort_by_priority (push_resolved net rules l (matching net d rules)))
        ↔ (Memᴰ r rules × Hits net r d l)
  listed d l r = (
    λ m. elim (resolved-Mem r l (matching net d rules) (sort-Mem r _ m)) [
      | inl direct ↦ let (inside, hit) = matching-Mem net d r rules direct in (inside, inl hit)
      | inr (inside, hit) ↦ (inside, inr hit)
    ],
    λ (inside, hit). Mem-sort r _ (elim hit [
      | inl direct ↦ Mem-resolved_found r l _ (Mem-matching net d r rules inside direct)
      | inr address ↦ Mem-resolved_new r l _ inside address
    ]),
  )

  -- If the resolution of the destination succeeds, the list of all rules that match holds exactly the
  -- rules that match the destination or one of the addresses it resolved to.
  pub find_all_matching_rules-Mem :
      (call : DnsCall) (m : RuleMatcher) (d : Destination) (o : Option (List IpAddr))
      (l : List RouteRule) (r : RouteRule)
      → (resolve_destination call d m.dns_resolver).0 ≡ ok o
      → (find_all_matching_rules net call d rules m).0 ≡ ok l
      → Memᴰ r l ↔ (Memᴰ r rules × Hits net r d (or_empty o))
  unfolding find_all_matching_rules
  find_all_matching_rules-Mem call m d o l r resolved h =
      let e : sort_by_priority (push_resolved net rules (or_empty o) (matching net d rules)) ≡ l =
        (let h' = rw resolved at h in cc) in
      subst (λ x. Memᴰ r x ↔ (Memᴰ r rules × Hits net r d (or_empty o))) e (listed d (or_empty o) r)
