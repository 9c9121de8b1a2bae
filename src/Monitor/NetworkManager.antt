-- ===== src/Monitor/NetworkManager.antt =====
-- src/monitor/networkmanager.rs: a monitor that asks nothing of NetworkManager yet.
use nic_autoswitch.Common.{Bool, false, not, Option, none, if◌then◌else◌, Text, Text-eq, ℕ-eq}
use nic_autoswitch.Error.{Result, ok}
use nic_autoswitch.Monitor.Events.{NetworkEvent}

pub record NetworkManagerMonitor : Type 0 where
  pub available : Bool

abbrev pub check_availability : Bool
check_availability = false

unfoldable pub new_networkmanager_monitor : Result NetworkManagerMonitor
new_networkmanager_monitor = ok (record { available = check_availability })

-- Both branches of the test give no SSID.
unfoldable pub get_ssid : Text → NetworkManagerMonitor → Result (Option Text)
get_ssid interface m = if not m.available then ok none else ok none

-- `none` is `Poll::Pending`.
unfoldable pub poll_next : NetworkManagerMonitor → Option NetworkEvent × NetworkManagerMonitor
poll_next m = (none, m)
