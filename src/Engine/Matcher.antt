-- ===== src/Engine/Matcher.antt =====
-- src/engine/matcher.rs
pub mod Wildcards
pub mod Best
pub mod Sorted
pub mod Agree
mod Members
pub mod Complete
use nic_autoswitch.Common.{
  ℕ, Bool, true, false, not, ◌&&◌, ◌||◌, Option, none, some, List, [], ◌∷◌, ◌++◌, ℕ_discrete, ltb,
  leb, if◌then◌else◌, Text, bytes, ◌==◌, Text-discrete, Text-eq, ℕ-eq, length,
}
use nic_autoswitch.Error.{Result, ok, ◌>>=◌, ◌>>◌}
use nic_autoswitch.Ip.{IpAddr, IpAddr-discrete, IpAddr-eq, IpNetwork-eq, prefix, IpCrate}
use nic_autoswitch.Config.{
  MatchOn, RouteRule, RouteRule-discrete, RouteRule-eq, starts_with, ends_with, strip_prefix,
  strip_suffix,
}
use nic_autoswitch.Router.Dns.{DnsResolver, DnsCall, resolve}

pub data Destination : Type 0 where
  ip : IpAddr → Destination
  domain : Text → Destination

abbrev pub as_ip : Destination → Option IpAddr
as_ip (Destination.ip a) = some a
as_ip (Destination.domain d) = none

abbrev pub as_domain : Destination → Option Text
as_domain (Destination.ip a) = none
as_domain (Destination.domain d) = some d

abbrev is_empty : Text → Bool
is_empty [] = true
is_empty (_ ∷ _) = false

-- Lengths of strings are in bytes.
unfoldable pub matches_wildcard : Text → Text → Bool
unfolding Text-discrete strip_prefix strip_suffix starts_with ends_with
matches_wildcard pattern name = if pattern == bytes "*" then true else elim (strip_prefix pattern) [
  | some suffix ↦
      if is_empty suffix then true else ltb (length suffix) (length name) && ends_with suffix name
  | none ↦ elim (strip_suffix pattern) [
    | some prefix ↦
        if is_empty prefix
        then true
        else ltb (length prefix) (length name) && starts_with prefix name
    | none ↦ false
  ]
]

-- The resolver that a matcher has or lacks; a call may fill its cache.
pub record RuleMatcher : Type 0 where
  pub dns_resolver : Option DnsResolver

-- Resolution of a destination that is a domain; `none` where there is nothing to resolve.
unfoldable pub resolve_destination :
    DnsCall → Destination → Option DnsResolver → Result (Option (List IpAddr)) × Option DnsResolver
unfolding resolve
resolve_destination call (Destination.ip a) m = (ok none, m)
resolve_destination call (Destination.domain name) none = (ok none, none)
resolve_destination call (Destination.domain name) (some r) =
    let (answered, r') = resolve call name r in
    (do addresses ← answered; ok (some addresses), some r')

abbrev pub or_empty : Option (List IpAddr) → List IpAddr
or_empty none = []
or_empty (some l) = l

unfoldable pub contains_rule : List RouteRule → RouteRule → Bool
unfolding RouteRule-discrete
contains_rule [] r = false
contains_rule (s ∷ l) r = s == r || contains_rule l r

-- `sort_by_key(|r| r.priority)`, which is stable
unfoldable pub insert_rule : RouteRule → List RouteRule → List RouteRule
insert_rule r [] = r ∷ []
insert_rule r (s ∷ l) = if leb r.priority s.priority then r ∷ s ∷ l else s ∷ insert_rule r l

unfoldable pub sort_by_priority : List RouteRule → List RouteRule
unfolding insert_rule
sort_by_priority [] = []
sort_by_priority (r ∷ l) = insert_rule r (sort_by_priority l)

module _ (net : IpCrate) where
  -- the `match` of `rule_matches`
  unfoldable pub condition_matches : MatchOn → Destination → Bool
  unfolding IpAddr-discrete Text-discrete matches_wildcard
  condition_matches (MatchOn.cidr cidr) (Destination.ip a) = net.contains cidr a
  condition_matches (MatchOn.ip rule_ip) (Destination.ip dest_ip) = rule_ip == dest_ip
  condition_matches (MatchOn.domain name) (Destination.domain dest) = name == dest
  condition_matches (MatchOn.domain_pattern p) (Destination.domain dest) = matches_wildcard p dest
  condition_matches _ _ = false

  unfoldable pub rule_matches : RouteRule → Destination → Bool
  unfolding condition_matches
  rule_matches rule d = condition_matches rule.match_on d

  -- the loop of `find_direct_match`, over the best rule so far and its priority
  unfoldable pub find_best : Destination → List RouteRule → Option RouteRule → ℕ → Option RouteRule
  find_best d [] best_match best_priority = best_match
  find_best d (r ∷ rs) best_match best_priority =
      let later = find_best d rs best_match best_priority in
      let better = find_best d rs (some r) r.priority in
      if rule_matches r d && ltb r.priority best_priority then better else later

  unfoldable pub find_direct_match : Destination → List RouteRule → Option RouteRule
  unfolding find_best ℕ_discrete
  find_direct_match d rules = find_best d rules none 4294967295

  -- `for addr in addresses` of `find_matching_rule`
  unfoldable pub first_address_match : List RouteRule → List IpAddr → Option RouteRule
  first_address_match rules [] = none
  first_address_match rules (a ∷ l) = elim (find_direct_match (Destination.ip a) rules) [
    | some r ↦ some r
    | none ↦ first_address_match rules l
  ]

  -- The rules that match, in the order of the configuration.
  unfoldable pub matching : Destination → List RouteRule → List RouteRule
  matching d [] = []
  matching d (r ∷ rs) = let rest = matching d rs in if rule_matches r d then r ∷ rest else rest

  -- `for rule in rules` for one resolved address
  unfoldable pub push_matching : Destination → List RouteRule → List RouteRule → List RouteRule
  unfolding contains_rule
  push_matching d [] found = found
  push_matching d (r ∷ rs) found =
      push_matching d rs
        (if rule_matches r d && not (contains_rule found r) then found ++ r ∷ [] else found)

  unfoldable pub push_resolved : List RouteRule → List IpAddr → List RouteRule → List RouteRule
  push_resolved rules [] found = found
  push_resolved rules (a ∷ l) found =
      push_resolved rules l (push_matching (Destination.ip a) rules found)

  -- The first match among the resolved addresses, if nothing matched directly.
  abbrev pub resolved_or :
      List RouteRule → Result (Option (List IpAddr)) → Option RouteRule → Result (Option RouteRule)
  resolved_or rules answered (some r) = ok (some r)
  resolved_or rules answered none = do
    addresses ← answered
    ok (first_address_match rules (or_empty addresses))

  -- A direct match leaves the resolver alone.
  abbrev pub unless_direct :
      Option RouteRule → Option DnsResolver → Option DnsResolver → Option DnsResolver
  unless_direct (some r) old new = old
  unless_direct none old new = new

  unfoldable pub find_matching_rule :
      DnsCall → Destination → List RouteRule → RuleMatcher → Result (Option RouteRule) × RuleMatcher
  unfolding resolve_destination first_address_match find_direct_match
  find_matching_rule call d rules m =
      let (answered, resolver) = resolve_destination call d m.dns_resolver in
      let direct = find_direct_match d rules in
      (
        resolved_or rules answered direct,
        record { dns_resolver = unless_direct direct m.dns_resolver resolver },
      )

  unfoldable pub find_all_matching_rules :
      DnsCall → Destination → List RouteRule → RuleMatcher → Result (List RouteRule) × RuleMatcher
  unfolding resolve_destination matching push_resolved push_matching sort_by_priority
  find_all_matching_rules call d rules m =
      let (answered, resolver) = resolve_destination call d m.dns_resolver in
      (
        (do
          addresses ← answered
          ok (sort_by_priority (push_resolved rules (or_empty addresses) (matching d rules)))),
        record { dns_resolver = resolver },
      )
