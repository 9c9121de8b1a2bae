-- ===== src/Router/Rules.antt =====
-- src/router/rules.rs: the rule operator. It has no state but its route manager.
use nic_autoswitch.Common.{
  ℕ, Bool, true, false, Option, none, some, [], ◌∷◌, if◌then◌else◌, Text, Text-eq, ℕ-eq,
}
use nic_autoswitch.Error.{
  invalid_input, empty_rule_name, invalid_ip, empty_route_interface, needs_dns, Result, ok, err,
  ◌>>◌,
}
use nic_autoswitch.Ip.{IpAddr, IpNetwork, IpAddr-eq, IpNetwork-eq, is_ipv4_addr, IpCrate}
use nic_autoswitch.Config.{MatchOn, RouteRule}
use nic_autoswitch.Config
use nic_autoswitch.Router.Kernel.{Netlink}
use nic_autoswitch.Router.Manager.{
  RouteManager, attempt, add_route, remove_route, add_policy_rule, remove_policy_rule,
}

abbrev is_empty : Text → Bool
is_empty [] = true
is_empty (_ ∷ _) = false

-- The parse of "ip/32" or "ip/128".
abbrev parsed : Option IpNetwork → Result IpNetwork
parsed none = err (invalid_input invalid_ip)
parsed (some n) = ok n

module _ (net : IpCrate) where
  unfoldable pub destination_of : MatchOn → Result IpNetwork
  destination_of (MatchOn.cidr cidr) = ok cidr
  destination_of (MatchOn.ip a) = parsed (net.parse_host a (if is_ipv4_addr a then 32 else 128))
  destination_of (MatchOn.domain name) = err (invalid_input (needs_dns name))
  destination_of (MatchOn.domain_pattern p) = err (invalid_input (needs_dns p))

  unfoldable pub get_destination : RouteRule → Result IpNetwork
  unfolding destination_of
  get_destination rule = destination_of rule.match_on

unfoldable pub get_gateway : RouteRule → Result (Option IpAddr)
get_gateway rule = ok none

unfoldable pub validate_rule : RouteRule → Result (Unit {0})
validate_rule rule = do
  Config.validate_rule rule
  if is_empty rule.name
      then err (invalid_input empty_rule_name)
      else if is_empty rule.route_via.interface
      then err (invalid_input empty_route_interface)
      else ok tt

module _ (net : IpCrate) {K : Type 0} (nl : Netlink K) (rm : RouteManager) where
  unfoldable pub apply_rule : RouteRule → (interface_index table_id : ℕ) → K → Result (Unit {0}) × K
  unfolding get_destination get_gateway add_policy_rule add_route
  apply_rule rule interface_index table_id k = attempt (get_destination net rule) k λ dst.
      attempt (get_gateway rule) k λ gw.
        let (ruled, k') = add_policy_rule nl rm (some dst) none table_id rule.priority k in
        attempt ruled k'
          λ _. add_route nl rm dst gw rule.route_via.interface table_id rule.priority k'

  unfoldable pub remove_rule : RouteRule → (table_id : ℕ) → K → Result (Unit {0}) × K
  unfolding get_destination remove_policy_rule remove_route
  remove_rule rule table_id k = attempt (get_destination net rule) k λ dst.
      let (ruled, k') = remove_policy_rule nl rm (some dst) none table_id rule.priority k in
      attempt ruled k' λ _. remove_route nl rm dst table_id k'
