-- ===== src/Engine/Matcher/Agree.antt =====
-- src/engine/matcher.rs: the two searches, and what a call of the resolver adds.
use nic_autoswitch.Common.{
  ◌≡◌, refl, ◌∙◌, Option, none, some, List, [], ◌∷◌, ltb, if◌then◌else◌, Text-eq, ℕ-eq,
}
use nic_autoswitch.Error.{Result, ok, err, ◌>>=◌}
use nic_autoswitch.Ip.{IpAddr, IpAddr-eq, IpNetwork-eq, IpCrate}
use nic_autoswitch.Config.{RouteRule}
use nic_autoswitch.Router.Dns.{DnsCall}
use nic_autoswitch.Engine.Matcher.{
  Destination, RuleMatcher, resolve_destination, or_empty, sort_by_priority, find_direct_match,
  first_address_match, matching, push_resolved, resolved_or, unless_direct, find_matching_rule,
  find_all_matching_rules,
}
use nic_autoswitch.Engine.Matcher.Best.{max_priority}
use nic_autoswitch.Engine.Matcher.Sorted.{
  IsSorted, sort_by_priority-IsSorted, override, first, find_best-first,
}
use mathlib.Core.Path.{subst}

-- The head of a list, if its priority is below 2^32 - 1.
abbrev pub first_below_max : List RouteRule → Option RouteRule
first_below_max [] = none
first_below_max (r ∷ l) = if ltb r.priority max_priority then some r else none

override-none : (l : List RouteRule) → override none max_priority (first l) ≡ first_below_max l
override-none [] = refl
override-none (r ∷ l) = refl

module _ (net : IpCrate) (call : DnsCall) (rules : List RouteRule) (m : RuleMatcher) where
  ok_injective : {l l' : List RouteRule} → ◌≡◌ {A = Result (List RouteRule)} (ok l) (ok l') → l ≡ l'
  ok_injective h = cc

  direct_result :
      (o o' : Option RouteRule)
      → o ≡ o'
      → ◌≡◌ {A = Result (Option RouteRule) × RuleMatcher}
          (
            resolved_or net rules (ok none) o,
            record { dns_resolver = unless_direct net o m.dns_resolver m.dns_resolver },
          )
          (ok o', m)
  unfolding first_address_match
  direct_result none o' e = rw (← e)
  direct_result (some r) o' e = rw (← e)

  IsSorted-of :
      (answered : Result (Option (List IpAddr))) (d : Destination) (l : List RouteRule)
      → (do
        addresses ← answered
        ok (sort_by_priority (push_resolved net rules (or_empty addresses) (matching net d rules))))
        ≡ ok l
      → IsSorted l
  IsSorted-of (ok addresses) d l h = subst IsSorted (ok_injective h) (
      sort_by_priority-IsSorted
        (push_resolved net rules (or_empty addresses) (matching net d rules)))
  IsSorted-of (err e) d l h = cc

  -- The list of all rules that match is sorted by priority, whether or not addresses were resolved.
  pub find_all_matching_rules-IsSorted :
      (d : Destination) (l : List RouteRule)
      → (find_all_matching_rules net call d rules m).0 ≡ ok l
      → IsSorted l
  unfolding find_all_matching_rules
  find_all_matching_rules-IsSorted d l h =
      IsSorted-of (resolve_destination call d m.dns_resolver).0 d l h

  -- For an address, the rule that is found is the first of all rules that match, if its priority is
  -- below 2^32 - 1, and none otherwise. Neither search touches the resolver.
  pub find_matching_rule-first :
      (a : IpAddr) (l : List RouteRule)
      → (find_all_matching_rules net call (Destination.ip a) rules m).0 ≡ ok l
      → (find_matching_rule net call (Destination.ip a) rules m ≡ (ok (first_below_max l), m))
        × ((find_all_matching_rules net call (Destination.ip a) rules m).1 ≡ m)
  unfolding find_all_matching_rules find_matching_rule
  find_matching_rule-first a l h =
      let found : find_direct_match net (Destination.ip a) rules ≡ first_below_max l =
        find_best-first net (Destination.ip a) rules none max_priority
        ∙ (rw (ok_injective h) (override-none l)) in
      (direct_result _ _ found, refl)
