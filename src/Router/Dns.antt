-- ===== src/Router/Dns.antt =====
-- src/router/dns.rs: the cache of resolved names. A call gets the times at which it reads the clock
-- and the answer of the resolver library. The semaphore only delays calls and is not modelled.
pub mod Cache
use nic_autoswitch.Common.{
  ℕ, suc, ◌-◌, ◌*◌, Bool, true, false, not, Option, none, some, ◌∷◌, ltb, if◌then◌else◌, Text,
  Text-eq, ℕ-eq, length, Map, values, retain, get, insert,
}
use nic_autoswitch.Error.{dns, request_failed, no_addresses, Result, ok, err, ◌>>=◌, ◌>>◌}
use nic_autoswitch.Ip.{IpAddr, IpAddr-eq, IpNetwork-eq}
use mathlib.Core.List.{List, []}

-- Times are numbers of nanoseconds.
abbrev nanos_per_sec : ℕ
nanos_per_sec = 1000000000

pub record CacheEntry : Type 0 where
  pub addresses : List IpAddr
  pub created_at : ℕ
  pub ttl : ℕ  -- seconds, u64

-- `elapsed` is 0 if the clock stands before the creation.
unfoldable pub is_expired : ℕ → CacheEntry → Bool
is_expired now e = ltb (e.ttl * nanos_per_sec) (now - e.created_at)

pub record DnsResolver : Type 0 where
  pub cache : Map Text CacheEntry
  pub default_ttl : ℕ

-- What one call of `resolve` meets: the time of the cache check and the later one of the write, and
-- `lookup_ip`, `none` where it fails.
pub record DnsCall : Type 0 where
  pub checked_at : ℕ
  pub stored_at : ℕ
  pub lookup_ip : Text → Option (List IpAddr)

unfoldable pub new_dns_resolver : ℕ → DnsResolver
new_dns_resolver ttl = record { cache = []; default_ttl = ttl }

-- The cached addresses of a domain, if the entry has not expired.
unfoldable pub cached : ℕ → Text → DnsResolver → Option (List IpAddr)
unfolding is_expired
cached now domain r = elim (get domain r.cache) [
  | none ↦ none
  | some e ↦ if is_expired now e then none else some e.addresses
]

abbrev pub store : DnsCall → Text → List IpAddr → DnsResolver → DnsResolver
store call domain addresses r = record r {
  cache =
      insert domain
        (record { addresses = addresses; created_at = call.stored_at; ttl = r.default_ttl })
        r.cache;
}

-- The answer of the library; an empty one is an error, and is not cached.
abbrev pub answer :
    DnsCall → Text → DnsResolver → Option (List IpAddr) → Result (List IpAddr) × DnsResolver
answer call domain r none = (err (dns (request_failed domain)), r)
answer call domain r (some []) = (err (dns (no_addresses domain)), r)
answer call domain r (some (a ∷ l)) = (ok (a ∷ l), store call domain (a ∷ l) r)

abbrev pub hit_or :
    Result (List IpAddr) × DnsResolver
    → DnsResolver
    → Option (List IpAddr)
    → Result (List IpAddr) × DnsResolver
hit_or miss r (some addresses) = (ok addresses, r)
hit_or miss r none = miss

unfoldable pub resolve : DnsCall → Text → DnsResolver → Result (List IpAddr) × DnsResolver
resolve call domain r =
    hit_or (answer call domain r (call.lookup_ip domain)) r (cached call.checked_at domain r)

unfoldable pub filter_family : Bool → List IpAddr → List IpAddr
filter_family want_v4 [] = []
filter_family want_v4 (IpAddr.v4 a ∷ l) =
    let rest = filter_family want_v4 l in if want_v4 then IpAddr.v4 a ∷ rest else rest
filter_family want_v4 (IpAddr.v6 a ∷ l) =
    let rest = filter_family want_v4 l in if want_v4 then rest else IpAddr.v6 a ∷ rest

abbrev some_address : Text → List IpAddr → Result (List IpAddr)
some_address domain [] = err (dns (no_addresses domain))
some_address domain (a ∷ l) = ok (a ∷ l)

unfoldable pub resolve_ipv4 : DnsCall → Text → DnsResolver → Result (List IpAddr) × DnsResolver
unfolding resolve filter_family
resolve_ipv4 call domain r =
    let (answered, r') = resolve call domain r in
    (do addresses ← answered; some_address domain (filter_family true addresses), r')

unfoldable pub resolve_ipv6 : DnsCall → Text → DnsResolver → Result (List IpAddr) × DnsResolver
unfolding resolve filter_family
resolve_ipv6 call domain r =
    let (answered, r') = resolve call domain r in
    (do addresses ← answered; some_address domain (filter_family false addresses), r')

unfoldable pub clear_cache : DnsResolver → DnsResolver
clear_cache r = record r { cache = [] }

unfoldable pub prune_cache : ℕ → DnsResolver → DnsResolver
unfolding is_expired
prune_cache now r = record r { cache = retain (λ _ e. not (is_expired now e)) r.cache }

unfoldable pub count_expired : ℕ → List CacheEntry → ℕ
unfolding is_expired
count_expired now [] = 0
count_expired now (e ∷ es) =
    let rest = count_expired now es in if is_expired now e then suc rest else rest

unfoldable pub cache_stats : ℕ → DnsResolver → ℕ × ℕ
unfolding count_expired
cache_stats now r = (length r.cache, count_expired now (values r.cache))
