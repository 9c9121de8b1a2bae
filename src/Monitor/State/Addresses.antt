-- ===== src/Monitor/State/Addresses.antt =====
-- src/monitor/state.rs: the addresses of an interface after an address change.
use nic_autoswitch.Common.{
  ◌≡◌, refl, ap, ◌∙◌, inl, inr, not, ◌&&◌, ◌||◌, some, List, [], ◌∷◌, ◌++◌, arith, Bool-cases, Text,
  ◌==◌, Text-eq, ℕ-eq, get-insert,
}
use nic_autoswitch.Ip.{IpNetwork, IpNetwork-discrete, IpAddr-eq, IpNetwork-eq}
use nic_autoswitch.Monitor.State.{
  InterfaceInfo, NetworkState, get_interface, modify, contains_address, retain_addresses,
  push_addresses, apply_address_change,
}

contains-append :
    (a b : IpNetwork) (l : List IpNetwork)
    → contains_address (l ++ b ∷ []) a ≡ (contains_address l a || (b == a))
unfolding contains_address
contains-append a b [] = ground arith
contains-append a b (c ∷ l) = ground (arith, contains-append a b l)

contains-retain :
    (a : IpNetwork) (old l : List IpNetwork)
    → contains_address (retain_addresses old l) a
      ≡ (contains_address l a && not (contains_address old a))
unfolding contains_address retain_addresses
contains-retain a old [] = ground arith
contains-retain a old (b ∷ l) = elim (IpNetwork-discrete b a) [
  | yes e ↦ ground (arith, contains-retain a old l, ap (contains_address old) e)
  | no ne ↦ ground (arith, contains-retain a old l)
]

contains-push :
    (a : IpNetwork) (new l : List IpNetwork)
    → contains_address (push_addresses new l) a ≡ (contains_address l a || contains_address new a)
unfolding contains_address push_addresses
contains-push a [] l = ground arith
contains-push a (b ∷ new) l = elim (Bool-cases (contains_address l b)) [
  | inl old ↦ elim (IpNetwork-discrete b a) [
    | yes e ↦ rw old (ground (arith, contains-push a new l, ap (contains_address l) e))
    | no ne ↦ rw old (ground (arith, contains-push a new l))
  ]
  | inr fresh ↦ rw fresh (ground (arith, contains-push a new (l ++ b ∷ []), contains-append a b l))
]

-- After an address change a known interface has an address exactly if the address was added, or was
-- there and was not removed; nothing else of the interface changes.
pub apply_address_change_lem :
    (name : Text) (new old : List IpNetwork) (s : NetworkState) (info : InterfaceInfo)
    → get_interface name s ≡ some info
    → (info' : InterfaceInfo) × (get_interface name (apply_address_change name new old s)
        ≡ some info')
      × ((a : IpNetwork)
          → contains_address info'.addresses a ≡ (
              (contains_address info.addresses a && not (contains_address old a))
              || contains_address new a))
      × (info' ≡ record info { addresses = info'.addresses })
unfolding apply_address_change get_interface
apply_address_change_lem name new old s info found =
    let addresses = push_addresses new (retain_addresses old info.addresses) in
    let info' : InterfaceInfo = record info { addresses = addresses } in
    (
      info',
      rw (found, modify) (rw get-insert (ground arith)),
      λ a.
          contains-push a new (retain_addresses old info.addresses)
          ∙ ap (λ b. b || contains_address new a) (contains-retain a old info.addresses),
      refl,
    )
