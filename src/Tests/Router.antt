-- ===== src/Tests/Router.antt =====
-- src/router/dns.rs: one resolution and what the next one finds.
use nic_autoswitch.Common.{◌≡◌, refl, [], ◌∷◌, arith, Text, bytes, Text-eq, ℕ-eq, get}
use nic_autoswitch.Error.{ok}
use nic_autoswitch.Router.Dns.{cached, resolve}
use nic_autoswitch.Router.Dns.Cache.{resolve-resolve}
use nic_autoswitch.Tests.Samples.{host_address, sample_call, failing_call, sample_resolver}

abbrev site : Text
site = bytes "a.com"

resolve-resolve_example :
    resolve failing_call site (resolve sample_call site sample_resolver).1
    ≡ (ok (host_address ∷ []), (resolve sample_call site sample_resolver).1)
unfolding resolve cached get
resolve-resolve_example =
    resolve-resolve sample_call failing_call site sample_resolver (host_address ∷ []) refl refl
      (omega arith)
