-- ===== src/Ip.antt =====
-- `std::net::IpAddr`, and `IpNetwork` of the crate ipnetwork, of which the sources read the address
-- family, the address and the prefix length. Addresses are 32-bit and 128-bit numbers. What the
-- crate computes is a parameter.
use nic_autoswitch.Common.{ℕ, ◌≡◌, Bool, true, false, Option, some, ℕ_discrete, Eq, Text-eq, ℕ-eq}

pub data IpAddr : Type 0 where
  v4 v6 : ℕ → IpAddr

-- The address, which may have host bits, and the prefix length.
pub data IpNetwork : Type 0 where
  v4 v6 : ℕ → ℕ → IpNetwork

unfoldable pub IpAddr-discrete : Discrete IpAddr
unfolding ℕ_discrete
IpAddr-discrete = hlevel ℕ_discrete

unfoldable pub IpNetwork-discrete : Discrete IpNetwork
unfolding ℕ_discrete
IpNetwork-discrete = hlevel ℕ_discrete

instance abbrev pub IpAddr-eq : Eq IpAddr
IpAddr-eq = record { dec = IpAddr-discrete }

instance abbrev pub IpNetwork-eq : Eq IpNetwork
IpNetwork-eq = record { dec = IpNetwork-discrete }

abbrev pub is_ipv4_addr : IpAddr → Bool
is_ipv4_addr (IpAddr.v4 a) = true
is_ipv4_addr (IpAddr.v6 a) = false

abbrev pub is_ipv4 : IpNetwork → Bool
is_ipv4 (IpNetwork.v4 a n) = true
is_ipv4 (IpNetwork.v6 a n) = false

abbrev pub ip : IpNetwork → IpAddr
ip (IpNetwork.v4 a n) = IpAddr.v4 a
ip (IpNetwork.v6 a n) = IpAddr.v6 a

abbrev pub prefix : IpNetwork → ℕ
prefix (IpNetwork.v4 a n) = n
prefix (IpNetwork.v6 a n) = n

-- `network.contains(ip)`, and the parse of the text "ip/n" made from an address and a number.
pub record IpCrate : Type 0 where
  pub contains : IpNetwork → IpAddr → Bool
  pub parse_host : IpAddr → ℕ → Option IpNetwork

-- The text "ip/n" with n at most the width of the address parses to that address and prefix.
pub record ParsesHosts (c : IpCrate) : Type 0 where
  pub parse_v4 : (a : ℕ) → c.parse_host (IpAddr.v4 a) 32 ≡ some (IpNetwork.v4 a 32)
  pub parse_v6 : (a : ℕ) → c.parse_host (IpAddr.v6 a) 128 ≡ some (IpNetwork.v6 a 128)
