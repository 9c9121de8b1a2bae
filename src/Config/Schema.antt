-- ===== src/Config/Schema.antt =====
-- src/config/schema.rs: the types of the configuration and their default values. The serde
-- attributes, which say how the types are written in TOML, are not modelled.
use nic_autoswitch.Common.{
  ℕ, Bool, false, List, [], ℕ_discrete, Text, bytes, Eq, Text-eq, ℕ-eq, Map,
}
use nic_autoswitch.Ip.{IpAddr, IpNetwork, IpAddr-eq, IpNetwork-eq}

-- Netlink's one-byte table number leaves 252 as the largest start.
abbrev pub max_table_id_start : ℕ
max_table_id_start = 252

pub record GlobalConfig : Type 0 where
  pub monitor_interval : ℕ  -- u64
  pub log_level : Text
  pub dry_run : Bool
  pub table_id_start : ℕ  -- u32

abbrev default_monitor_interval : ℕ
default_monitor_interval = 5

abbrev default_log_level : Text
default_log_level = bytes "info"

abbrev default_table_id_start : ℕ
default_table_id_start = 100

abbrev pub default_global : GlobalConfig
default_global = record {
  monitor_interval = default_monitor_interval;
  log_level = default_log_level;
  dry_run = false;
  table_id_start = default_table_id_start;
}

pub data InterfaceType : Type 0 where
  lan wlan vpn : InterfaceType

pub data MatchBy : Type 0 where
  name pattern mac : Text → MatchBy

pub record InterfaceConfig : Type 0 where
  pub interface_type : InterfaceType
  pub match_by : MatchBy
  pub priority : ℕ  -- u32

abbrev pub default_interface_priority : ℕ
default_interface_priority = 100

pub data MatchOn : Type 0 where
  cidr : IpNetwork → MatchOn
  ip : IpAddr → MatchOn
  domain domain_pattern : Text → MatchOn

pub record RouteVia : Type 0 where
  pub interface : Text

pub record RouteRule : Type 0 where
  pub name : Text
  pub match_on : MatchOn
  pub route_via : RouteVia
  pub priority : ℕ  -- u32

unfoldable pub RouteRule-discrete : Discrete RouteRule
unfolding ℕ_discrete
RouteRule-discrete = hlevel ℕ_discrete

instance abbrev pub RouteRule-eq : Eq RouteRule
RouteRule-eq = record { dec = RouteRule-discrete }

pub record WifiProfile : Type 0 where
  pub interface : Text
  pub rules : List RouteRule

pub record RoutingConfig : Type 0 where
  pub default_rules : List RouteRule

pub record Config : Type 0 where
  pub global : GlobalConfig
  pub interfaces : Map Text InterfaceConfig
  pub wifi_profiles : Map Text WifiProfile
  pub routing : RoutingConfig

abbrev pub default_config : Config
default_config = record {
  global = default_global;
  interfaces = [];
  wifi_profiles = [];
  routing = record { default_rules = [] };
}
