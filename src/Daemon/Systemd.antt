-- ===== src/Daemon/Systemd.antt =====
-- src/daemon/systemd.rs: the notifications and the interval of the watchdog. The variables of the
-- environment are arguments; `sent` are the texts that were handed to the socket, whether or not it
-- took them.
pub mod Watchdog
use Prim.Native.Nat.{◌/◌, ◌^◌}
use nic_autoswitch.Common.{
  ℕ, ◌+◌, ◌-◌, ◌*◌, ◌%◌, Bool, ◌&&◌, Option, none, some, List, [], ◌∷◌, ◌++◌, ltb, leb,
  if◌then◌else◌, Text, bytes, ◌==◌, Text-eq, ℕ-eq, is_some,
}

pub data NotifyState : Type 0 where
  ready reloading stopping : NotifyState
  status custom : Text → NotifyState

unfoldable pub as_str : NotifyState → Text
as_str ready = bytes "READY=1"
as_str reloading = bytes "RELOADING=1"
as_str stopping = bytes "STOPPING=1"
as_str (status msg) = msg
as_str (custom msg) = msg

pub record SystemdNotify : Type 0 where
  pub enabled : Bool
  pub watchdog_interval_ms : ℕ  -- u64

abbrev pub u64_limit : ℕ
u64_limit = 18446744073709551616

abbrev pub is_digit : ℕ → Bool
is_digit c = leb 48 c && leb c 57

-- The digits of a u64; one that does not fit ends it.
unfoldable pub parse_digits : Text → (value : ℕ) → Option ℕ
parse_digits [] value = some value
parse_digits (c ∷ t) value =
    let next = value * 10 + (c - 48) in
    let rest = parse_digits t next in if is_digit c && ltb next u64_limit then rest else none

-- `parse::<u64>()`: a plus sign may come first.
unfoldable pub parse_u64 : Text → Option ℕ
unfolding parse_digits
parse_u64 [] = none
parse_u64 (c ∷ []) = parse_digits (c ∷ []) 0
parse_u64 (c ∷ d ∷ t) = if c == 43 then parse_digits (d ∷ t) 0 else parse_digits (c ∷ d ∷ t) 0

-- 75 % of the interval that systemd asks for.
unfoldable pub get_watchdog_interval : (watchdog_usec : Option Text) → ℕ
unfolding parse_u64
get_watchdog_interval none = 0
get_watchdog_interval (some v) = elim (parse_u64 v) [
  | none ↦ 0
  | some usec ↦ (usec / 1000 * 3 % u64_limit) / 4
]

unfoldable pub new_systemd : (notify_socket watchdog_usec : Option Text) → SystemdNotify
unfolding get_watchdog_interval
new_systemd notify_socket watchdog_usec = record {
  enabled = is_some notify_socket;
  watchdog_interval_ms = get_watchdog_interval watchdog_usec;
}

unfoldable pub is_watchdog_enabled : SystemdNotify → Bool
is_watchdog_enabled s = ltb 0 s.watchdog_interval_ms

unfoldable pub notify : NotifyState → SystemdNotify → (sent : List Text) → List Text
unfolding as_str
notify state s sent = if s.enabled then sent ++ as_str state ∷ [] else sent

unfoldable pub notify_ready : SystemdNotify → List Text → List Text
unfolding notify
notify_ready s sent = notify ready s sent

unfoldable pub notify_reloading : SystemdNotify → List Text → List Text
unfolding notify
notify_reloading s sent = notify reloading s sent

unfoldable pub notify_stopping : SystemdNotify → List Text → List Text
unfolding notify
notify_stopping s sent = notify stopping s sent

unfoldable pub notify_status : Text → SystemdNotify → List Text → List Text
unfolding notify
notify_status msg s sent = notify (status msg) s sent

unfoldable pub watchdog_keepalive : SystemdNotify → List Text → List Text
unfolding notify is_watchdog_enabled
watchdog_keepalive s sent =
    if is_watchdog_enabled s then notify (custom (bytes "WATCHDOG=1")) s sent else sent
