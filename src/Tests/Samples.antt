-- ===== src/Tests/Samples.antt =====
-- A configuration with two interfaces, a kernel that counts the requests and grants each of them,
-- and a dispatcher that has applied its default rule.
use Prim.Native.Nat.{◌/◌, ◌^◌}
use nic_autoswitch.Common.{
  ℕ, suc, ◌-◌, Bool, true, false, Option, none, some, [], ◌∷◌, leb, if◌then◌else◌, Text, bytes,
  ◌==◌, Text-eq, ℕ-eq,
}
use nic_autoswitch.Ip.{IpAddr, IpNetwork, IpAddr-eq, IpNetwork-eq, IpCrate}
use nic_autoswitch.Monitor.State
use nic_autoswitch.Config.{
  lan, InterfaceConfig, MatchBy, MatchOn, RouteRule, Config, default_global,
}
use nic_autoswitch.Monitor.State.{InterfaceInfo, NetworkState}
use nic_autoswitch.Router.Dns.{DnsResolver, DnsCall}
use nic_autoswitch.Router.Kernel.{done, end, found, Netlink}
use nic_autoswitch.Router.Manager.{RouteManager}
use nic_autoswitch.Engine.Executor.{RuleExecutor}
use nic_autoswitch.Engine.Dispatcher.{EventDispatcher, running}

-- Addresses are in the network if their leading bits agree.
abbrev pub sample_contains : IpNetwork → IpAddr → Bool
sample_contains (IpNetwork.v4 a n) (IpAddr.v4 b) = a / (2 ^ (32 - n)) == b / (2 ^ (32 - n))
sample_contains (IpNetwork.v6 a n) (IpAddr.v6 b) = a / (2 ^ (128 - n)) == b / (2 ^ (128 - n))
sample_contains _ _ = false

abbrev pub sample_parse : IpAddr → ℕ → Option IpNetwork
sample_parse (IpAddr.v4 a) n = if leb n 32 then some (IpNetwork.v4 a n) else none
sample_parse (IpAddr.v6 a) n = if leb n 128 then some (IpNetwork.v6 a n) else none

abbrev pub sample_net : IpCrate
sample_net = record { contains = sample_contains; parse_host = sample_parse }

abbrev pub sample_netlink : Netlink ℕ
sample_netlink = record {
  route_add = λ m k. (done, suc k);
  route_del = λ m k. (done, suc k);
  rule_add = λ m k. (done, suc k);
  rule_del = λ m k. (done, suc k);
  routes = λ v t k. end;
  rules = λ v k. end;
  link_by_name = λ name k. found 2;
}

abbrev pub eth0 : Text
eth0 = bytes "eth0"

abbrev pub wlan0 : Text
wlan0 = bytes "wlan0"

abbrev pub vpn0 : Text
vpn0 = bytes "vpn0"

-- 10.0.0.0/8 via eth0
abbrev pub office_rule : RouteRule
office_rule = record {
  name = bytes "office";
  match_on = MatchOn.cidr (IpNetwork.v4 167772160 8);
  route_via = record { interface = eth0 };
  priority = 100;
}

-- 10.1.2.3 via wlan0
abbrev pub host_rule : RouteRule
host_rule = record {
  name = bytes "host";
  match_on = MatchOn.ip (IpAddr.v4 167838211);
  route_via = record { interface = wlan0 };
  priority = 50;
}

abbrev pub host_address : IpAddr
host_address = IpAddr.v4 167838211

abbrev pub sample_interface : Text → InterfaceConfig
sample_interface name = record {
  interface_type = lan;
  match_by = MatchBy.name name;
  priority = 100;
}

abbrev pub sample_config : Config
sample_config = record {
  global = record default_global { log_level = bytes "Debug" };
  interfaces = (eth0, sample_interface eth0) ∷ (wlan0, sample_interface wlan0) ∷ [];
  wifi_profiles = (bytes "home", record { interface = wlan0; rules = host_rule ∷ [] }) ∷ [];
  routing = record { default_rules = office_rule ∷ [] };
}

abbrev pub sample_manager : RouteManager
sample_manager = record { base_table_id = 100; dry_run = false; handle = true }

abbrev pub sample_executor : RuleExecutor
sample_executor = record {
  route_manager = sample_manager;
  active_routes =
      (bytes "office", record { rule_name = bytes "office"; interface = eth0; table_id = 100 })
      ∷ [];
}

abbrev pub eth0_info : InterfaceInfo
eth0_info = record {
  name = eth0;
  interface_type = State.lan;
  addresses = IpNetwork.v4 167837697 24 ∷ [];
  is_up = true;
  ssid = none;
}

abbrev pub sample_state : NetworkState
sample_state = record { interfaces = (eth0, eth0_info) ∷ [] }

abbrev pub sample_dispatcher : EventDispatcher
sample_dispatcher = record {
  config = sample_config;
  network_state = sample_state;
  executor = sample_executor;
  current_ssids = [];
  interface_indices = (eth0, 0) ∷ (wlan0, 1) ∷ [];
  state = running;
}

-- The library answers with one address, now and ten nanoseconds later.
abbrev pub sample_call : DnsCall
sample_call = record {
  checked_at = 0;
  stored_at = 10;
  lookup_ip = λ name. some (host_address ∷ []);
}

abbrev pub failing_call : DnsCall
failing_call = record { checked_at = 20; stored_at = 30; lookup_ip = λ name. none }

abbrev pub sample_resolver : DnsResolver
sample_resolver = record { cache = []; default_ttl = 60 }
