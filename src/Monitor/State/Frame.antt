-- ===== src/Monitor/State/Frame.antt =====
-- src/monitor/state.rs: what an event changes.
use nic_autoswitch.Common.{
  ◌≡◌, refl, ap, ◌≢◌, inl, inr, none, some, List, [], ◌∷◌, arith, Option-cases, Text, Text-discrete,
  Text-eq, ℕ-eq, get, remove, get-insert, get-remove,
}
use nic_autoswitch.Ip.{IpAddr-eq, IpNetwork-eq}
use nic_autoswitch.Monitor.Events.{up, down, added, removed, NetworkEvent, interface}
use nic_autoswitch.Monitor.State.{InterfaceInfo, NetworkState, get_interface, modify, apply_event}

-- The state after an event.
abbrev pub after : NetworkEvent → NetworkState → NetworkState
after event s = (apply_event event s).1

unfoldable pub after_all : List NetworkEvent → NetworkState → NetworkState
after_all [] s = s
after_all (e ∷ es) s = after_all es (after e s)

get-modify_ne :
    (name j : Text) (f : InterfaceInfo → InterfaceInfo) (s : NetworkState)
    → name ≢ j
    → get_interface j (modify name f s) ≡ get_interface j s
unfolding modify get_interface
get-modify_ne name j f s ne = elim (Option-cases (get name s.interfaces)) [
  | inl missing ↦ rw (missing, modify)
  | inr (info, found) ↦ rw (found, modify) (rw get-insert (ground arith))
]

get-remove_ne :
    (name j : Text) (s : NetworkState)
    → name ≢ j
    → get_interface j (record { interfaces = remove name s.interfaces }) ≡ get_interface j s
unfolding get_interface
get-remove_ne name j s ne = rw get-remove (ground arith)

-- An event changes what is known of its own interface only.
pub get-apply_event_ne :
    (e : NetworkEvent) (j : Text) (s : NetworkState)
    → interface e ≢ some j
    → get_interface j (after e s) ≡ get_interface j s
unfolding apply_event interface
get-apply_event_ne (NetworkEvent.interface_changed i up) j s ne =
    get-modify_ne i j _ s (λ e. ne (ap some e))
get-apply_event_ne (NetworkEvent.interface_changed i down) j s ne =
    get-modify_ne i j _ s (λ e. ne (ap some e))
get-apply_event_ne (NetworkEvent.interface_changed i added) j s ne = refl
get-apply_event_ne (NetworkEvent.interface_changed i removed) j s ne =
    get-remove_ne i j s (λ e. ne (ap some e))
get-apply_event_ne (NetworkEvent.wifi_connected i ssid) j s ne =
    get-modify_ne i j _ s (λ e. ne (ap some e))
get-apply_event_ne (NetworkEvent.wifi_disconnected i last) j s ne =
    get-modify_ne i j _ s (λ e. ne (ap some e))
get-apply_event_ne (NetworkEvent.address_changed i new old) j s ne =
    get-modify_ne i j _ s (λ e. ne (ap some e))
get-apply_event_ne (NetworkEvent.route_changed i n g b) j s ne = refl

get-modify-none :
    (name j : Text) (f : InterfaceInfo → InterfaceInfo) (s : NetworkState)
    → get_interface j s ≡ none
    → get_interface j (modify name f s) ≡ none
unfolding modify get_interface
get-modify-none name j f s h = elim (Option-cases (get name s.interfaces)) [
  | inl missing ↦ rw (missing, modify) h
  | inr (info, found) ↦
      rw (found, modify)
        (rw get-insert (elim (Text-discrete name j) [
          | yes e ↦ absurd (ground (arith, ap (λ x. get x s.interfaces) e))
          | no ne ↦ ground arith
        ]))
]

unknown-step :
    (e : NetworkEvent) (j : Text) (s : NetworkState)
    → get_interface j s ≡ none
    → get_interface j (after e s) ≡ none
unfolding apply_event get_interface
unknown-step (NetworkEvent.interface_changed i up) j s h = get-modify-none i j _ s h
unknown-step (NetworkEvent.interface_changed i down) j s h = get-modify-none i j _ s h
unknown-step (NetworkEvent.interface_changed i added) j s h = h
unknown-step (NetworkEvent.interface_changed i removed) j s h = rw get-remove (ground arith)
unknown-step (NetworkEvent.wifi_connected i ssid) j s h = get-modify-none i j _ s h
unknown-step (NetworkEvent.wifi_disconnected i last) j s h = get-modify-none i j _ s h
unknown-step (NetworkEvent.address_changed i new old) j s h = get-modify-none i j _ s h
unknown-step (NetworkEvent.route_changed i n g b) j s h = h

-- No sequence of events, an `Added` among them, makes an interface known that was not known.
pub after_all_unknown :
    (es : List NetworkEvent) (j : Text) (s : NetworkState)
    → get_interface j s ≡ none
    → get_interface j (after_all es s) ≡ none
unfolding after_all
after_all_unknown [] j s h = h
after_all_unknown (e ∷ es) j s h = after_all_unknown es j (after e s) (unknown-step e j s h)
