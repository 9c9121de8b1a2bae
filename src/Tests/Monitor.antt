-- ===== src/Tests/Monitor.antt =====
-- src/monitor: events on a state that knows eth0, and two polls.
use mathlib.Core.List.{Memᴰ}
use nic_autoswitch.Common.{
  ℕ, ◌≡◌, refl, ◌↔◌, true, Option, none, some, List, [], ◌∷◌, Text, Text-discrete, Text-eq, ℕ-eq,
  Map, get, insert,
}
use nic_autoswitch.Ip.{IpAddr-eq, IpNetwork-eq}
use nic_autoswitch.Monitor.Events.{up, added, NetworkEvent}
use nic_autoswitch.Monitor.State.{get_interface}
use nic_autoswitch.Monitor.State.Frame.{after_all, after_all_unknown}
use nic_autoswitch.Monitor.Netlink.{
  LinkMessage, LinkSnapshot, LinkItem, extract_link_snapshot, collect_snapshot, snapshot_interfaces,
  NetlinkMonitor, transition, detect_changes, detect_removed, poll_changes,
}
use nic_autoswitch.Monitor.Netlink.Reported.{SomeReported, poll_changes_iff}
use nic_autoswitch.Tests.Samples.{eth0, wlan0, sample_state}

abbrev plugged : List NetworkEvent
plugged = NetworkEvent.interface_changed wlan0 added ∷ NetworkEvent.interface_changed wlan0 up ∷ []

after_all_unknown_example : get_interface wlan0 (after_all plugged sample_state) ≡ none
unfolding get_interface get Text-discrete
after_all_unknown_example = after_all_unknown plugged wlan0 sample_state refl

abbrev eth0_link : LinkMessage
eth0_link = record { index = 2; up_flag = true; running_flag = true; if_name = some eth0 }

abbrev one_link : Option (List LinkItem)
one_link = some (LinkItem.link eth0_link ∷ [])

abbrev fresh_monitor : NetlinkMonitor
fresh_monitor = record { prev_state = []; pending = [] }

abbrev seen_link : Map ℕ LinkSnapshot
seen_link = (2, record { name = eth0; is_up = true }) ∷ []

abbrev eth0_up : NetworkEvent
eth0_up = NetworkEvent.interface_changed eth0 up

abbrev no_digits : ℕ → Text
no_digits n = []

poll_changes_iff_example :
    Memᴰ eth0_up (eth0_up ∷ []) ↔ SomeReported fresh_monitor.prev_state seen_link eth0_up
unfolding poll_changes snapshot_interfaces collect_snapshot extract_link_snapshot insert get
    detect_changes detect_removed transition
poll_changes_iff_example =
    poll_changes_iff no_digits one_link fresh_monitor seen_link (eth0_up ∷ []) eth0_up tt refl refl
