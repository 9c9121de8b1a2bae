-- ===== src/Router/Manager/Base.antt =====
-- src/router/manager.rs: error codes, table numbers, rule messages and the manager itself.
use nic_autoswitch.Common.{
  ℕ, ◌+◌, ◌%◌, Bool, true, false, not, ◌&&◌, ◌||◌, Option, none, some, List, [], ◌∷◌, ◌++◌,
  ℕ_discrete, ltb, leb, if◌then◌else◌, ◌==◌, Text-eq, ℕ-eq, abs,
}
use nic_autoswitch.Error.{
  network, route, invalid_input, base_table_range, connection_failed, table_id_too_large, Result,
  ok, err, ◌>>=◌,
}
use nic_autoswitch.Ip.{IpAddr, IpNetwork, IpAddr-eq, IpNetwork-eq, ip, prefix}
use nic_autoswitch.Router.Kernel.{
  NetlinkError, netlink_error, other_error, IpVersion, ipv4, ipv6, to_table, RuleAttribute,
  RuleMessage,
}

unfoldable pub netlink_errno : NetlinkError → Option ℕ
netlink_errno (netlink_error (some code)) = some (abs code)
netlink_errno (netlink_error none) = none
netlink_errno other_error = none

abbrev errno_is : Option ℕ → ℕ → Bool
errno_is none n = false
errno_is (some m) n = m == n

-- EEXIST
unfoldable pub is_already_exists : NetlinkError → Bool
unfolding netlink_errno ℕ_discrete
is_already_exists e = errno_is (netlink_errno e) 17

-- ENOENT or ENXIO
unfoldable pub is_no_such_entry : NetlinkError → Bool
unfolding netlink_errno ℕ_discrete
is_no_such_entry e = errno_is (netlink_errno e) 2 || errno_is (netlink_errno e) 6

abbrev pub ipv4_table_start : ℕ
ipv4_table_start = 100

abbrev pub ipv4_table_end : ℕ
ipv4_table_end = 199

abbrev pub ipv6_table_start : ℕ
ipv6_table_start = 200

abbrev pub max_table_id : ℕ
max_table_id = 255

unfoldable pub table_id_to_u8 : ℕ → Result ℕ
table_id_to_u8 table_id =
    if ltb max_table_id table_id
    then err (route (table_id_too_large table_id))
    else ok (table_id % 256)

-- The network of an option, if it is of the family.
abbrev pub of_version : Bool → Option IpNetwork → Option IpNetwork
of_version want_v4 none = none
of_version true (some (IpNetwork.v4 a n)) = some (IpNetwork.v4 a n)
of_version true (some (IpNetwork.v6 a n)) = none
of_version false (some (IpNetwork.v4 a n)) = none
of_version false (some (IpNetwork.v6 a n)) = some (IpNetwork.v6 a n)

abbrev length_of : Option IpNetwork → ℕ
length_of none = 0
length_of (some n) = prefix n

abbrev attribute : (IpAddr → RuleAttribute) → Option IpNetwork → List RuleAttribute
attribute f none = []
attribute f (some n) = f (ip n) ∷ []

abbrev pub version : Bool → IpVersion
version true = ipv4
version false = ipv6

unfoldable pub build_rule_message :
    Option IpNetwork → Option IpNetwork → (table_id priority : ℕ) → Bool → Result RuleMessage
unfolding table_id_to_u8
build_rule_message dst src table_id priority v4 = do
  table ← table_id_to_u8 table_id
  ok (record {
    family = version v4;
    table = table;
    action = to_table;
    dst_len = length_of (of_version v4 dst);
    src_len = length_of (of_version v4 src);
    attributes =
        attribute RuleAttribute.destination (of_version v4 dst)
        ++ attribute RuleAttribute.source (of_version v4 src)
        ++ RuleAttribute.priority priority ∷ [];
  })

-- `handle` is whether there is a connection.
pub record RouteManager : Type 0 where
  pub base_table_id : ℕ
  pub dry_run : Bool
  pub handle : Bool

abbrev in_ipv4_range : ℕ → Bool
in_ipv4_range n = leb ipv4_table_start n && leb n ipv4_table_end

-- `connects` is whether `rtnetlink::new_connection` succeeds.
unfoldable pub with_connection : (connects : Bool) → ℕ → Bool → Result RouteManager
with_connection connects base dry =
    if not (in_ipv4_range base)
    then err (invalid_input base_table_range)
    else if dry
    then ok (record { base_table_id = base; dry_run = dry; handle = false })
    else if connects
    then ok (record { base_table_id = base; dry_run = dry; handle = true })
    else err (network connection_failed)

unfoldable pub new_route_manager : ℕ → Result RouteManager
new_route_manager base =
    if not (in_ipv4_range base)
    then err (invalid_input base_table_range)
    else ok (record { base_table_id = base; dry_run = true; handle = false })

unfoldable pub default_route_manager : RouteManager
default_route_manager = record { base_table_id = ipv4_table_start; dry_run = true; handle = false }

-- The index is a u8, so the sum fits a u32.
unfoldable pub table_id_v4 : RouteManager → ℕ → ℕ
table_id_v4 rm index = rm.base_table_id + index

unfoldable pub table_id_v6 : RouteManager → ℕ → ℕ
table_id_v6 rm index = ipv6_table_start + index
