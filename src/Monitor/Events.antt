-- ===== src/Monitor/Events.antt =====
-- src/monitor/events.rs
use nic_autoswitch.Common.{Bool, true, false, Option, some, List, Text, Text-eq, ℕ-eq}
use nic_autoswitch.Ip.{IpAddr, IpNetwork, IpAddr-eq, IpNetwork-eq}

pub data InterfaceChange : Type 0 where
  up down added removed : InterfaceChange

pub data NetworkEvent : Type 0 where
  interface_changed : Text → InterfaceChange → NetworkEvent
  wifi_connected : (iface ssid : Text) → NetworkEvent
  wifi_disconnected : Text → (last_ssid : Option Text) → NetworkEvent
  address_changed : Text → (new old : List IpNetwork) → NetworkEvent
  route_changed : Option Text → IpNetwork → Option IpAddr → Bool → NetworkEvent

unfoldable pub interface : NetworkEvent → Option Text
interface (NetworkEvent.interface_changed i change) = some i
interface (NetworkEvent.wifi_connected i ssid) = some i
interface (NetworkEvent.wifi_disconnected i last) = some i
interface (NetworkEvent.address_changed i new old) = some i
interface (NetworkEvent.route_changed i destination gateway new) = i

unfoldable pub requires_route_update : NetworkEvent → Bool
requires_route_update (NetworkEvent.route_changed i destination gateway new) = false
requires_route_update _ = true
