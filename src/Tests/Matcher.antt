-- ===== src/Tests/Matcher.antt =====
-- src/engine/matcher.rs: a host rule and an office rule, and patterns.
use nic_autoswitch.Common.{◌≡◌, refl, ◌↔◌, true, none, some, List, [], ◌∷◌, bytes, Text-eq, ℕ-eq}
use nic_autoswitch.Error.{ok}
use nic_autoswitch.Ip.{IpAddr-eq, IpNetwork-eq}
use nic_autoswitch.Config.{RouteRule}
use nic_autoswitch.Engine.Matcher.{
  Destination, matches_wildcard, RuleMatcher, rule_matches, find_direct_match, find_matching_rule,
  find_all_matching_rules,
}
use nic_autoswitch.Engine.Matcher.Wildcards.{Matches, matches_wildcard_iff}
use nic_autoswitch.Engine.Matcher.Best.{max_priority, IsBest, find_direct_match-IsBest}
use nic_autoswitch.Engine.Matcher.Agree.{find_matching_rule-first}
use nic_autoswitch.Tests.Samples.{sample_net, office_rule, host_rule, host_address, sample_call}

matches_wildcard_iff_example :
    (matches_wildcard (bytes "*.com") (bytes "a.com") ≡ true)
    ↔ Matches (bytes "*.com") (bytes "a.com")
matches_wildcard_iff_example = matches_wildcard_iff (bytes "*.com") (bytes "a.com")

abbrev two_rules : List RouteRule
two_rules = office_rule ∷ host_rule ∷ []

abbrev to_host : Destination
to_host = Destination.ip host_address

find_direct_match-IsBest_example : IsBest sample_net to_host two_rules max_priority host_rule
unfolding find_direct_match rule_matches
find_direct_match-IsBest_example =
    find_direct_match-IsBest sample_net to_host two_rules host_rule refl

abbrev plain_matcher : RuleMatcher
plain_matcher = record { dns_resolver = none }

find_matching_rule-first_example :
    (find_matching_rule sample_net sample_call to_host two_rules plain_matcher
      ≡ (ok (some host_rule), plain_matcher))
    × ((find_all_matching_rules sample_net sample_call to_host two_rules plain_matcher).1
        ≡ plain_matcher)
unfolding find_all_matching_rules rule_matches
find_matching_rule-first_example =
    find_matching_rule-first sample_net sample_call two_rules plain_matcher host_address
      (host_rule ∷ office_rule ∷ []) refl
