-- ===== src/Config/Validate.antt =====
-- src/config/schema.rs: validation of the configuration.
use nic_autoswitch.Common.{
  ◌+◌, Bool, true, false, not, ◌||◌, List, [], ◌∷◌, map, ℕ_discrete, ltb, leb, if◌then◌else◌, Text,
  bytes, ◌==◌, Text-discrete, Text-eq, ℕ-eq, Map,
}
use nic_autoswitch.Error.{
  config, monitor_interval_zero, table_id_start_range, no_interfaces, empty_interface_name,
  empty_interface_pattern, empty_mac, empty_rule_name, empty_profile_interface, invalid_log_level,
  in_interface, in_wifi_profile, Result, ok, err, ◌>>◌, map_err,
}
use nic_autoswitch.Config.Schema.{
  max_table_id_start, GlobalConfig, MatchBy, InterfaceConfig, MatchOn, RouteRule, RouteRule-eq,
  WifiProfile, RoutingConfig, Config,
}
use nic_autoswitch.Config.Pattern.{validate_domain_pattern}

-- `String::to_lowercase`. Only ASCII letters matter to the one use of it: the sole character
-- beyond ASCII whose lower case is a letter of ASCII becomes a `k`, which no log level has.
abbrev pub to_lowercase : Text → Text
to_lowercase = map (λ c. if leb b'A' c then (if leb c b'Z' then c + 32 else c) else c)

abbrev pub valid_log_levels : List Text
valid_log_levels = bytes "trace" ∷ bytes "debug" ∷ bytes "info" ∷ bytes "warn" ∷ bytes "error" ∷ []

unfoldable pub contains_text : List Text → Text → Bool
unfolding Text-discrete
contains_text [] t = false
contains_text (s ∷ l) t = s == t || contains_text l t

unfoldable pub validate_global : GlobalConfig → Result (Unit {0})
unfolding contains_text ℕ_discrete
validate_global g =
    if g.monitor_interval == 0
    then err (config monitor_interval_zero)
    else if not (contains_text valid_log_levels (to_lowercase g.log_level))
    then err (config (invalid_log_level g.log_level))
    else if ltb g.table_id_start 100 || ltb max_table_id_start g.table_id_start
    then err (config table_id_start_range)
    else ok tt

abbrev pub is_empty : Text → Bool
is_empty [] = true
is_empty (_ ∷ _) = false

abbrev pub validate_match_by : MatchBy → Result (Unit {0})
validate_match_by (MatchBy.name []) = err (config empty_interface_name)
validate_match_by (MatchBy.pattern []) = err (config empty_interface_pattern)
validate_match_by (MatchBy.mac []) = err (config empty_mac)
validate_match_by _ = ok tt

unfoldable pub validate_interface : InterfaceConfig → Result (Unit {0})
validate_interface i = validate_match_by i.match_by

-- The `if let` on a domain pattern.
abbrev pub validate_match_on : MatchOn → Result (Unit {0})
validate_match_on (MatchOn.domain_pattern p) = validate_domain_pattern p
validate_match_on _ = ok tt

unfoldable pub validate_rule : RouteRule → Result (Unit {0})
validate_rule r =
    if is_empty r.name then err (config empty_rule_name) else validate_match_on r.match_on

-- `for rule in rules { rule.validate()?; }`
unfoldable pub validate_rules : List RouteRule → Result (Unit {0})
validate_rules [] = ok tt
validate_rules (r ∷ rs) = validate_rule r >> validate_rules rs

unfoldable pub validate_profile : WifiProfile → Result (Unit {0})
validate_profile p =
    if is_empty p.interface then err (config empty_profile_interface) else validate_rules p.rules

unfoldable pub validate_routing : RoutingConfig → Result (Unit {0})
validate_routing r = validate_rules r.default_rules

unfoldable pub validate_interfaces : Map Text InterfaceConfig → Result (Unit {0})
validate_interfaces [] = ok tt
validate_interfaces ((name, i) ∷ m) =
    map_err (λ e. config (in_interface name e)) (validate_interface i) >> validate_interfaces m

unfoldable pub validate_profiles : Map Text WifiProfile → Result (Unit {0})
validate_profiles [] = ok tt
validate_profiles ((ssid, p) ∷ m) =
    map_err (λ e. config (in_wifi_profile ssid e)) (validate_profile p) >> validate_profiles m

abbrev pub require_some : Map Text InterfaceConfig → Result (Unit {0})
require_some [] = err (config no_interfaces)
require_some (_ ∷ _) = ok tt

unfoldable pub validate : Config → Result (Unit {0})
unfolding validate_global validate_interfaces validate_profiles validate_routing
validate c = do
  validate_global c.global
  require_some c.interfaces
  validate_interfaces c.interfaces
  validate_profiles c.wifi_profiles
  validate_routing c.routing
