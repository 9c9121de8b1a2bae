-- ===== src/Router/Kernel.antt =====
-- What src/router/manager.rs uses of rtnetlink and netlink-packet-route: the messages that it builds
-- and reads, and the requests, which are a parameter. `K` is the state of the kernel's tables.
use nic_autoswitch.Common.{ℕ, Option, List, Text, Text-eq, ℕ-eq, ℤ}
use nic_autoswitch.Ip.{IpAddr, IpAddr-eq, IpNetwork-eq}

-- `rtnetlink::Error`: a reply of the kernel with its code, or a failure of the connection.
pub data NetlinkError : Type 0 where
  netlink_error : Option ℤ → NetlinkError
  other_error : NetlinkError

pub data Reply : Type 0 where
  done : Reply
  failed : NetlinkError → Reply

pub data IpVersion : Type 0 where
  ipv4 ipv6 : IpVersion

pub data RouteProtocol : Type 0 where
  unspec static_route : RouteProtocol
  protocol_code : ℕ → RouteProtocol

pub data RouteAttribute : Type 0 where
  destination gateway : IpAddr → RouteAttribute
  oif priority : ℕ → RouteAttribute
  other : RouteAttribute

-- The family is `none` where the message leaves it `Unspec`. Scope `Universe` and kind `Unicast` are those
-- of every message that the daemon builds.
pub record RouteMessage : Type 0 where
  pub family : Option IpVersion
  pub table : ℕ
  pub protocol : RouteProtocol
  pub destination_prefix_length : ℕ
  pub attributes : List RouteAttribute

-- The values that the builder of an add request is given.
pub record RouteAdd : Type 0 where
  pub version : IpVersion
  pub destination : IpAddr
  pub prefix_length : ℕ
  pub output_interface : ℕ
  pub table_id : ℕ
  pub protocol : RouteProtocol
  pub gateway : Option IpAddr
  pub metric : ℕ

pub data RuleAction : Type 0 where
  unspec to_table : RuleAction

pub data RuleAttribute : Type 0 where
  destination source : IpAddr → RuleAttribute
  priority : ℕ → RuleAttribute
  other : RuleAttribute

pub record RuleMessage : Type 0 where
  pub family : IpVersion
  pub table : ℕ
  pub action : RuleAction
  pub dst_len : ℕ
  pub src_len : ℕ
  pub attributes : List RuleAttribute

pub record RuleAdd : Type 0 where
  pub version : IpVersion
  pub action : RuleAction
  pub destination : Option (IpAddr × ℕ)
  pub source : Option (IpAddr × ℕ)
  pub table_id : ℕ
  pub priority : ℕ

-- A stream: its items up to the end, or up to an error.
pub data Stream {ℓ} (A : Type ℓ) : Type ℓ where
  end : Stream A
  broken : NetlinkError → Stream A
  item : A → Stream A → Stream A

-- The answer to a query for a link by its name.
pub data LinkAnswer : Type 0 where
  found : ℕ → LinkAnswer
  missing : LinkAnswer
  query_failed : NetlinkError → LinkAnswer

pub record Netlink (K : Type 0) : Type 0 where
  pub route_add : RouteAdd → K → Reply × K
  pub route_del : RouteMessage → K → Reply × K
  pub rule_add : RuleAdd → K → Reply × K
  pub rule_del : RuleMessage → K → Reply × K
  -- The routes of a version and a table, and the rules of a version.
  pub routes : IpVersion → ℕ → K → Stream RouteMessage
  pub rules : IpVersion → K → Stream RuleMessage
  pub link_by_name : Text → K → LinkAnswer
