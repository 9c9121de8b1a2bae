-- ===== src/Engine/Dispatcher/Removing.antt =====
-- src/monitor/events.rs and src/engine/dispatcher.rs: the events whose handling removes rules.
use nic_autoswitch.Common.{List, [], ◌∷◌, Text-eq, ℕ-eq}
use nic_autoswitch.Monitor.Events.{InterfaceChange, up, down, added, removed, NetworkEvent}

-- An event that removes rules may come only if `R` holds.
abbrev pub MayRemove : Type 0 → InterfaceChange → Type 0
MayRemove R up = Unit
MayRemove R added = Unit
MayRemove R down = R
MayRemove R removed = R

abbrev pub May : Type 0 → NetworkEvent → Type 0
May R (NetworkEvent.interface_changed i c) = MayRemove R c
May R (NetworkEvent.wifi_connected i ssid) = Unit
May R (NetworkEvent.wifi_disconnected i last) = Unit
May R (NetworkEvent.address_changed i new old) = Unit
May R (NetworkEvent.route_changed i n g b) = Unit

abbrev pub MayAll : Type 0 → List NetworkEvent → Type 0
MayAll R [] = Unit
MayAll R (e ∷ es) = May R e × MayAll R es

may_remove : (c : InterfaceChange) → MayRemove Unit c
may_remove up = tt
may_remove added = tt
may_remove down = tt
may_remove removed = tt

may : (e : NetworkEvent) → May Unit e
may (NetworkEvent.interface_changed i c) = may_remove c
may (NetworkEvent.wifi_connected i ssid) = tt
may (NetworkEvent.wifi_disconnected i last) = tt
may (NetworkEvent.address_changed i new old) = tt
may (NetworkEvent.route_changed i n g b) = tt

pub may_all : (es : List NetworkEvent) → MayAll Unit es
may_all [] = tt
may_all (e ∷ es) = (may e, may_all es)
