-- ===== src/Config/Accepted.antt =====
-- src/config/schema.rs: which configurations the validation accepts.
use nic_autoswitch.Common.{
  ◌≤◌, ◌<◌, ◌≡◌, refl, ◌≢◌, ◌↔◌, ◌⊎◌, true, false, List, [], ◌∷◌, arith, Text, bytes, Text-eq, ℕ-eq,
  All, Map,
}
use nic_autoswitch.Error.{Error, Result, ok, err, ◌>>◌, map_err}
use nic_autoswitch.Config.Schema.{
  GlobalConfig, MatchBy, InterfaceConfig, MatchOn, RouteRule, RouteRule-eq, WifiProfile, Config,
}
use nic_autoswitch.Config.Validate.{
  to_lowercase, valid_log_levels, contains_text, validate_global, is_empty, validate_match_by,
  validate_interface, validate_match_on, validate_rule, validate_rules, validate_profile,
  validate_interfaces, validate_profiles, require_some, validate,
}
use nic_autoswitch.Config.Wildcards.{IsDomainPattern, validate_domain_pattern_iff}

abbrev pub IsValidMatchBy : MatchBy → Type 0
IsValidMatchBy (MatchBy.name t) = t ≢ []
IsValidMatchBy (MatchBy.pattern t) = t ≢ []
IsValidMatchBy (MatchBy.mac t) = t ≢ []

abbrev pub IsValidMatchOn : MatchOn → Type 0
IsValidMatchOn (MatchOn.domain_pattern p) = IsDomainPattern p
IsValidMatchOn _ = Unit

abbrev pub IsValidRule : RouteRule → Type 0
IsValidRule r = (r.name ≢ []) × IsValidMatchOn r.match_on

abbrev pub IsValidProfile : WifiProfile → Type 0
IsValidProfile p = (p.interface ≢ []) × All IsValidRule p.rules

abbrev pub IsLogLevel : Text → Type 0
IsLogLevel t =
    (to_lowercase t ≡ bytes "trace")
    ⊎ (to_lowercase t ≡ bytes "debug")
    ⊎ (to_lowercase t ≡ bytes "info")
    ⊎ (to_lowercase t ≡ bytes "warn")
    ⊎ (to_lowercase t ≡ bytes "error")

IsLogLevel-iff :
    (t : Text) → (contains_text valid_log_levels (to_lowercase t) ≡ true) ↔ IsLogLevel t
unfolding contains_text
IsLogLevel-iff t = ground arith

pub record IsValid (c : Config) : Type 0 where
  pub interval : 0 < c.global.monitor_interval
  pub level : IsLogLevel c.global.log_level
  pub start_bounds : (100 ≤ c.global.table_id_start) × (c.global.table_id_start ≤ 252)
  pub some_interface : c.interfaces ≢ []
  pub interfaces : All (λ i. IsValidMatchBy i.1.match_by) c.interfaces
  pub profiles : All (λ p. IsValidProfile p.1) c.wifi_profiles
  pub rules : All IsValidRule c.routing.default_rules

-- The first of two checks succeeds where both do, and then the second.
>>-ok : (m n : Result (Unit {0})) → (m >> n) ≡ ok tt → (m ≡ ok tt) × (n ≡ ok tt)
>>-ok (ok x) n h = (refl, h)
>>-ok (err e) n h = cc

map_err-ok : (f : Error → Error) (m : Result (Unit {0})) → map_err f m ≡ ok tt → m ≡ ok tt
map_err-ok f (ok x) h = refl
map_err-ok f (err e) h = cc

match_on_sound : (m : MatchOn) → validate_match_on m ≡ ok tt → IsValidMatchOn m
match_on_sound (MatchOn.domain_pattern p) h = (validate_domain_pattern_iff p).0 h
match_on_sound (MatchOn.cidr n) h = tt
match_on_sound (MatchOn.ip a) h = tt
match_on_sound (MatchOn.domain t) h = tt

match_on_complete : (m : MatchOn) → IsValidMatchOn m → validate_match_on m ≡ ok tt
match_on_complete (MatchOn.domain_pattern p) h = (validate_domain_pattern_iff p).1 h
match_on_complete (MatchOn.cidr n) h = refl
match_on_complete (MatchOn.ip a) h = refl
match_on_complete (MatchOn.domain t) h = refl

is_empty-false : (t : Text) → is_empty t ≡ false → t ≢ []
is_empty-false [] h = cc
is_empty-false (c ∷ t) h = λ e. cc

not_empty : (t : Text) → t ≢ [] → is_empty t ≡ false
not_empty [] h = absurd (h refl)
not_empty (c ∷ t) h = refl

-- A rule is accepted exactly if it has a name, and its pattern, if any, is a domain pattern.
pub validate_rule_iff : (r : RouteRule) → (validate_rule r ≡ ok tt) ↔ IsValidRule r
unfolding validate_rule
validate_rule_iff r = (
  λ h. (is_empty-false r.name (ground arith), match_on_sound r.match_on (ground arith)),
  λ v. rw (not_empty r.name v.0) (match_on_complete r.match_on v.1),
)

rules_sound : (l : List RouteRule) → validate_rules l ≡ ok tt → All IsValidRule l
unfolding validate_rules
rules_sound [] h = tt
rules_sound (r ∷ l) h =
    let (here, later) = >>-ok _ _ h in ((validate_rule_iff r).0 here, rules_sound l later)

rules_complete : (l : List RouteRule) → All IsValidRule l → validate_rules l ≡ ok tt
unfolding validate_rules
rules_complete [] h = refl
rules_complete (r ∷ l) (v, h) = rw ((validate_rule_iff r).1 v) (rules_complete l h)

pub validate_profile_iff : (p : WifiProfile) → (validate_profile p ≡ ok tt) ↔ IsValidProfile p
unfolding validate_profile
validate_profile_iff p = (
  λ h. (is_empty-false p.interface (ground arith), rules_sound p.rules (ground arith)),
  λ v. rw (not_empty p.interface v.0) (rules_complete p.rules v.1),
)

match_by_sound : (m : MatchBy) → validate_match_by m ≡ ok tt → IsValidMatchBy m
match_by_sound (MatchBy.name []) h = cc
match_by_sound (MatchBy.pattern []) h = cc
match_by_sound (MatchBy.mac []) h = cc
match_by_sound (MatchBy.name (c ∷ t)) h = λ e. cc
match_by_sound (MatchBy.pattern (c ∷ t)) h = λ e. cc
match_by_sound (MatchBy.mac (c ∷ t)) h = λ e. cc

match_by_complete : (m : MatchBy) → IsValidMatchBy m → validate_match_by m ≡ ok tt
match_by_complete (MatchBy.name []) h = absurd (h refl)
match_by_complete (MatchBy.pattern []) h = absurd (h refl)
match_by_complete (MatchBy.mac []) h = absurd (h refl)
match_by_complete (MatchBy.name (c ∷ t)) h = refl
match_by_complete (MatchBy.pattern (c ∷ t)) h = refl
match_by_complete (MatchBy.mac (c ∷ t)) h = refl

interfaces_sound :
    (m : Map Text InterfaceConfig)
    → validate_interfaces m ≡ ok tt
    → All (λ i. IsValidMatchBy i.1.match_by) m
unfolding validate_interfaces validate_interface
interfaces_sound [] h = tt
interfaces_sound ((n, i) ∷ m) h =
    let (here, later) = >>-ok _ _ h in
    (match_by_sound i.match_by (map_err-ok _ _ here), interfaces_sound m later)

interfaces_complete :
    (m : Map Text InterfaceConfig)
    → All (λ i. IsValidMatchBy i.1.match_by) m
    → validate_interfaces m ≡ ok tt
unfolding validate_interfaces validate_interface
interfaces_complete [] h = refl
interfaces_complete ((n, i) ∷ m) (v, h) =
    rw (match_by_complete i.match_by v) (interfaces_complete m h)

profiles_sound :
    (m : Map Text WifiProfile) → validate_profiles m ≡ ok tt → All (λ p. IsValidProfile p.1) m
unfolding validate_profiles
profiles_sound [] h = tt
profiles_sound ((n, p) ∷ m) h =
    let (here, later) = >>-ok _ _ h in
    ((validate_profile_iff p).0 (map_err-ok _ _ here), profiles_sound m later)

profiles_complete :
    (m : Map Text WifiProfile) → All (λ p. IsValidProfile p.1) m → validate_profiles m ≡ ok tt
unfolding validate_profiles
profiles_complete [] h = refl
profiles_complete ((n, p) ∷ m) (v, h) = rw ((validate_profile_iff p).1 v) (profiles_complete m h)

require_some_iff : (m : Map Text InterfaceConfig) → (require_some m ≡ ok tt) ↔ (m ≢ [])
require_some_iff [] = (λ h. cc, λ h. absurd (h refl))
require_some_iff (i ∷ m) = (λ h e. cc, λ h. refl)

global_sound :
    (g : GlobalConfig)
    → validate_global g ≡ ok tt
    → (0 < g.monitor_interval)
      × IsLogLevel g.log_level
      × (100 ≤ g.table_id_start)
      × (g.table_id_start ≤ 252)
unfolding validate_global
global_sound g h =
    (ground arith, (IsLogLevel-iff g.log_level).0 (ground arith), ground arith, ground arith)

global_complete :
    (g : GlobalConfig)
    → 0 < g.monitor_interval
    → IsLogLevel g.log_level
    → 100 ≤ g.table_id_start
    → g.table_id_start ≤ 252
    → validate_global g ≡ ok tt
unfolding validate_global
global_complete g h level low high = ground (arith, (IsLogLevel-iff g.log_level).1 level)

validate_sound : (c : Config) → validate c ≡ ok tt → IsValid c
unfolding validate
validate_sound c h =
    let (at_global, h1) = >>-ok (validate_global c.global) _ h in
    let (at_some, h2) = >>-ok (require_some c.interfaces) _ h1 in
    let (at_interfaces, h3) = >>-ok (validate_interfaces c.interfaces) _ h2 in
    let (at_profiles, at_routing) = >>-ok (validate_profiles c.wifi_profiles) _ h3 in
    let (positive, level, low, high) = global_sound c.global at_global in
    record {
      interval = positive;
      level = level;
      start_bounds = (low, high);
      some_interface = (require_some_iff c.interfaces).0 at_some;
      interfaces = interfaces_sound c.interfaces at_interfaces;
      profiles = profiles_sound c.wifi_profiles at_profiles;
      rules = rules_sound c.routing.default_rules at_routing;
    }

validate_complete : (c : Config) → IsValid c → validate c ≡ ok tt
unfolding validate
validate_complete c v =
    let at_global : validate_global c.global ≡ ok tt =
      global_complete c.global v.interval v.level v.start_bounds.0 v.start_bounds.1 in
    rw
      (
        at_global,
        (require_some_iff c.interfaces).1 v.some_interface,
        interfaces_complete c.interfaces v.interfaces,
        profiles_complete c.wifi_profiles v.profiles,
      )
      (rules_complete c.routing.default_rules v.rules)

-- Validation accepts a configuration exactly if the interval is positive, the log level is one of
-- the five in any case, the first table lies in 100 to 252, there is an interface, no interface is
-- matched by an empty text, and each profile and each rule is valid. Of a rule it asks for a name
-- and, where it has a pattern, for a domain pattern; it asks nothing of the rule's interface, and
-- names may be the same.
pub validate_iff : (c : Config) → (validate c ≡ ok tt) ↔ IsValid c
validate_iff c = (validate_sound c, validate_complete c)
