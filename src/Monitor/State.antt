-- ===== src/Monitor/State.antt =====
-- src/monitor/state.rs: the interfaces that the daemon knows. `SharedNetworkState` only adds a lock.
pub mod Frame
pub mod Addresses
use nic_autoswitch.Common.{
  Bool, true, false, not, ◌||◌, Option, none, some, List, [], ◌∷◌, ◌++◌, if◌then◌else◌, Text, ◌==◌,
  Text-eq, ℕ-eq, Map, values, get, insert, remove, contains_key,
}
use nic_autoswitch.Error.{Result, ok}
use nic_autoswitch.Ip.{IpNetwork, IpNetwork-discrete, IpAddr-eq, IpNetwork-eq, is_ipv4}
use nic_autoswitch.Monitor.Events.{InterfaceChange, up, down, added, removed, NetworkEvent}

pub data InterfaceType : Type 0 where
  lan wlan vpn : InterfaceType

pub record InterfaceInfo : Type 0 where
  pub name : Text
  pub interface_type : InterfaceType
  pub addresses : List IpNetwork
  pub is_up : Bool
  pub ssid : Option Text

unfoldable pub new_interface_info : Text → InterfaceType → InterfaceInfo
new_interface_info name kind = record {
  name = name;
  interface_type = kind;
  addresses = [];
  is_up = false;
  ssid = none;
}

-- `addresses.iter().filter(..)` by family
unfoldable pub of_family : Bool → List IpNetwork → List IpNetwork
of_family want_v4 [] = []
of_family want_v4 (a ∷ l) =
    let rest = of_family want_v4 l in
    if is_ipv4 a then (if want_v4 then a ∷ rest else rest) else (if want_v4 then rest else a ∷ rest)

unfoldable pub ipv4_addresses : InterfaceInfo → List IpNetwork
unfolding of_family
ipv4_addresses i = of_family true i.addresses

unfoldable pub ipv6_addresses : InterfaceInfo → List IpNetwork
unfolding of_family
ipv6_addresses i = of_family false i.addresses

-- `addresses.iter().any(..)` by family
unfoldable pub any_family : Bool → List IpNetwork → Bool
any_family want_v4 [] = false
any_family want_v4 (a ∷ l) =
    (if want_v4 then is_ipv4 a else not (is_ipv4 a)) || any_family want_v4 l

unfoldable pub has_ipv4 : InterfaceInfo → Bool
unfolding any_family
has_ipv4 i = any_family true i.addresses

unfoldable pub has_ipv6 : InterfaceInfo → Bool
unfolding any_family
has_ipv6 i = any_family false i.addresses

pub record NetworkState : Type 0 where
  pub interfaces : Map Text InterfaceInfo

unfoldable pub new_network_state : NetworkState
new_network_state = record { interfaces = [] }

unfoldable pub get_interface : Text → NetworkState → Option InterfaceInfo
get_interface name s = get name s.interfaces

unfoldable pub has_interface : Text → NetworkState → Bool
has_interface name s = contains_key name s.interfaces

unfoldable pub update_interface : InterfaceInfo → NetworkState → NetworkState
update_interface info s = record { interfaces = insert info.name info s.interfaces }

unfoldable pub remove_interface : Text → NetworkState → Option InterfaceInfo × NetworkState
remove_interface name s = (get name s.interfaces, record { interfaces = remove name s.interfaces })

unfoldable pub select : (InterfaceInfo → Bool) → List InterfaceInfo → List InterfaceInfo
select p [] = []
select p (i ∷ l) = let rest = select p l in if p i then i ∷ rest else rest

abbrev is_type : InterfaceType → InterfaceType → Bool
is_type lan lan = true
is_type wlan wlan = true
is_type vpn vpn = true
is_type _ _ = false

unfoldable pub active_interfaces : NetworkState → List InterfaceInfo
unfolding select
active_interfaces s = select (λ i. i.is_up) (values s.interfaces)

unfoldable pub wlan_interfaces : NetworkState → List InterfaceInfo
unfolding select
wlan_interfaces s = select (λ i. is_type i.interface_type wlan) (values s.interfaces)

unfoldable pub lan_interfaces : NetworkState → List InterfaceInfo
unfolding select
lan_interfaces s = select (λ i. is_type i.interface_type lan) (values s.interfaces)

-- `if let Some(info) = self.interfaces.get_mut(interface) { .. }`
unfoldable pub modify : Text → (InterfaceInfo → InterfaceInfo) → NetworkState → NetworkState
modify name f s = elim (get name s.interfaces) [
  | none ↦ s
  | some info ↦ record { interfaces = insert name (f info) s.interfaces }
]

unfoldable pub apply_interface_change : Text → InterfaceChange → NetworkState → NetworkState
unfolding modify
apply_interface_change name up s = modify name (λ i. record i { is_up = true }) s
apply_interface_change name down s = modify name (λ i. record i { is_up = false }) s
apply_interface_change name added s = s
apply_interface_change name removed s = record { interfaces = remove name s.interfaces }

unfoldable pub apply_wifi_connected : Text → Text → NetworkState → NetworkState
unfolding modify
apply_wifi_connected name ssid s = modify name (λ i. record i { ssid = some ssid; is_up = true }) s

unfoldable pub apply_wifi_disconnected : Text → NetworkState → NetworkState
unfolding modify
apply_wifi_disconnected name s = modify name (λ i. record i { ssid = none }) s

unfoldable pub contains_address : List IpNetwork → IpNetwork → Bool
unfolding IpNetwork-discrete
contains_address [] a = false
contains_address (b ∷ l) a = b == a || contains_address l a

-- `addresses.retain(|addr| !removed.contains(addr))`
unfoldable pub retain_addresses : List IpNetwork → List IpNetwork → List IpNetwork
unfolding contains_address
retain_addresses old [] = []
retain_addresses old (a ∷ l) =
    let rest = retain_addresses old l in if contains_address old a then rest else a ∷ rest

-- `for addr in added { .. }`
unfoldable pub push_addresses : List IpNetwork → List IpNetwork → List IpNetwork
unfolding contains_address
push_addresses [] l = l
push_addresses (a ∷ new) l = push_addresses new (if contains_address l a then l else l ++ a ∷ [])

unfoldable pub apply_address_change :
    Text → (new old : List IpNetwork) → NetworkState → NetworkState
unfolding modify push_addresses retain_addresses
apply_address_change name new old s =
    modify name
      (λ i. record i { addresses = push_addresses new (retain_addresses old i.addresses) }) s

-- `apply_event` returns `Ok(())` on every path.
unfoldable pub apply_event : NetworkEvent → NetworkState → Result (Unit {0}) × NetworkState
unfolding apply_interface_change apply_wifi_connected apply_wifi_disconnected apply_address_change
apply_event (NetworkEvent.interface_changed i change) s = (ok tt, apply_interface_change i change s)
apply_event (NetworkEvent.wifi_connected i ssid) s = (ok tt, apply_wifi_connected i ssid s)
apply_event (NetworkEvent.wifi_disconnected i last) s = (ok tt, apply_wifi_disconnected i s)
apply_event (NetworkEvent.address_changed i new old) s = (ok tt, apply_address_change i new old s)
apply_event (NetworkEvent.route_changed i destination gateway new) s = (ok tt, s)
