-- ===== src/Router/Dns/Cache.antt =====
-- src/router/dns.rs: what the cache does.
use nic_autoswitch.Common.{
  ℕ, ◌+◌, ◌*◌, ◌≤◌, ◌≡◌, refl, ap, ◌≢◌, not, Option, none, some, List, [], ◌∷◌, arith, Text,
  Text-eq, ℕ-eq, get, IsMap, get-insert, get-retain,
}
use nic_autoswitch.Error.{Error, ok, err}
use nic_autoswitch.Ip.{IpAddr, IpAddr-eq, IpNetwork-eq}
use nic_autoswitch.Router.Dns.{
  CacheEntry, is_expired, DnsResolver, DnsCall, cached, store, answer, resolve, prune_cache,
}

answer_stores :
    (call : DnsCall) (name : Text) (r : DnsResolver) (l : List IpAddr) (o : Option (List IpAddr))
    → (answer call name r o).0 ≡ ok l
    → (answer call name r o).1 ≡ store call name l r
answer_stores call name r l none h = cc
answer_stores call name r l (some []) h = cc
answer_stores call name r l (some (a ∷ l')) h =
    let same : a ∷ l' ≡ l = cc in ap (λ x. store call name x r) same

cached-store :
    (call : DnsCall) (name : Text) (r : DnsResolver) (l : List IpAddr) (now : ℕ)
    → now ≤ call.stored_at + r.default_ttl * 1000000000
    → cached now name (store call name l r) ≡ some l
unfolding cached is_expired
cached-store call name r l now fresh =
    let e : CacheEntry = record {
      addresses = l;
      created_at = call.stored_at;
      ttl = r.default_ttl;
    } in
    ground (arith, get-insert name name e r.cache)

-- After an answer of the library, the same domain is answered from the cache while at most the
-- default number of seconds has passed, with the same addresses and no change, whatever the library
-- would answer now.
pub resolve-resolve :
    (call later : DnsCall) (name : Text) (r : DnsResolver) (l : List IpAddr)
    → cached call.checked_at name r ≡ none
    → (resolve call name r).0 ≡ ok l
    → later.checked_at ≤ call.stored_at + r.default_ttl * 1000000000
    → resolve later name (resolve call name r).1 ≡ (ok l, (resolve call name r).1)
unfolding resolve
resolve-resolve call later name r l miss h fresh =
    let stored : (resolve call name r).1 ≡ store call name l r =
      rw miss (answer_stores call name r l (call.lookup_ip name) (rw miss at h)) in
    rw (stored, cached-store call name r l later.checked_at fresh)

-- A failed resolution leaves the resolver as it was.
pub resolve_error_unchanged :
    (call : DnsCall) (name : Text) (r : DnsResolver) (e : Error)
    → (resolve call name r).0 ≡ err e
    → (resolve call name r).1 ≡ r
unfolding resolve
resolve_error_unchanged call name r e h = ground arith

get-answer_ne :
    (call : DnsCall) (name away : Text) (r : DnsResolver)
    → name ≢ away
    → (o : Option (List IpAddr)) → get away (answer call name r o).1.cache ≡ get away r.cache
get-answer_ne call name away r ne none = refl
get-answer_ne call name away r ne (some []) = refl
get-answer_ne call name away r ne (some (a ∷ l)) = rw get-insert (ground arith)

-- Resolution never changes what is cached for another domain.
pub get-resolve_ne :
    (call : DnsCall) (name away : Text) (r : DnsResolver)
    → name ≢ away
    → get away (resolve call name r).1.cache ≡ get away r.cache
unfolding resolve
get-resolve_ne call name away r ne =
    ground (arith, get-answer_ne call name away r ne (call.lookup_ip name))

-- If each name stands once in the cache, then pruning changes no answer at that time: what it
-- removes was expired.
pub cached-prune_cache :
    (now : ℕ) (name : Text) (r : DnsResolver)
    → IsMap r.cache
    → cached now name (prune_cache now r) ≡ cached now name r
unfolding cached prune_cache
cached-prune_cache now name r h =
    ground
      (arith, get-retain (λ (_ : Text) (e : CacheEntry). not (is_expired now e)) name r.cache h)
