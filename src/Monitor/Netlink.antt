-- ===== src/Monitor/Netlink.antt =====
-- src/monitor/netlink.rs: detection of interface changes by comparing two snapshots.
pub mod Polling
pub mod Reported
use nic_autoswitch.Common.{
  ℕ, Bool, true, false, not, ◌&&◌, ◌||◌, Option, none, some, List, [], ◌∷◌, ◌++◌, ℕ_discrete,
  if◌then◌else◌, Text, bytes, Text-eq, ℕ-eq, Map, get, insert, contains_key,
}
use nic_autoswitch.Error.{network, request_failed, Result, ok, err}
use nic_autoswitch.Config.{starts_with}
use nic_autoswitch.Monitor.Events.{InterfaceChange, up, down, removed, NetworkEvent}
use nic_autoswitch.Monitor.State.{lan, wlan, InterfaceInfo, new_interface_info}

-- What the monitor reads of a `LinkMessage` of netlink-packet-route: the index, whether the flags
-- hold `Up` and `Running`, and the first `IfName` attribute.
pub record LinkMessage : Type 0 where
  pub index : ℕ  -- u32
  pub up_flag : Bool
  pub running_flag : Bool
  pub if_name : Option Text

pub record LinkSnapshot : Type 0 where
  pub name : Text
  pub is_up : Bool

-- An item of the stream of links.
pub data LinkItem : Type 0 where
  link : LinkMessage → LinkItem
  failed : LinkItem

-- `format!("{}", n)` is a parameter of what names a link.
module _ (to_decimal : ℕ → Text) where
  unfoldable pub link_name : LinkMessage → Text
  link_name l = elim l.if_name [ some n ↦ n | none ↦ bytes "if" ++ to_decimal l.index ]

  unfoldable pub extract_link_snapshot : LinkMessage → LinkSnapshot
  unfolding link_name
  extract_link_snapshot l = record { name = link_name l; is_up = l.up_flag && l.running_flag }

  unfoldable pub link_to_interface_info : LinkMessage → InterfaceInfo
  unfolding link_name starts_with new_interface_info
  link_to_interface_info l =
      let n = link_name l in
      record (new_interface_info n
        (if starts_with (bytes "wl") n || starts_with (bytes "wlan") n then wlan else lan)) {
          is_up = l.up_flag;
        }

  -- the loop of `snapshot_interfaces`; a failing item ends it with an error
  unfoldable pub collect_snapshot : List LinkItem → Map ℕ LinkSnapshot → Result (Map ℕ LinkSnapshot)
  unfolding extract_link_snapshot insert ℕ_discrete
  collect_snapshot [] m = ok m
  collect_snapshot (link l ∷ items) m =
      collect_snapshot items (insert l.index (extract_link_snapshot l) m)
  collect_snapshot (failed ∷ items) m = err (network (request_failed (bytes "links")))

  -- `none` stands for a monitor with no handle.
  unfoldable pub snapshot_interfaces : Option (List LinkItem) → Result (Map ℕ LinkSnapshot)
  unfolding collect_snapshot
  snapshot_interfaces none = ok []
  snapshot_interfaces (some items) = collect_snapshot items []

  unfoldable pub collect_interfaces :
      List LinkItem → List InterfaceInfo → Result (List InterfaceInfo)
  unfolding link_to_interface_info
  collect_interfaces [] found = ok found
  collect_interfaces (link l ∷ items) found =
      collect_interfaces items (found ++ link_to_interface_info l ∷ [])
  collect_interfaces (failed ∷ items) found = err (network (request_failed (bytes "links")))

  unfoldable pub get_interfaces : Option (List LinkItem) → Result (List InterfaceInfo)
  unfolding collect_interfaces
  get_interfaces none = ok []
  get_interfaces (some items) = collect_interfaces items []

pub record NetlinkMonitor : Type 0 where
  pub prev_state : Map ℕ LinkSnapshot
  pub pending : List NetworkEvent

abbrev change_of : Bool → InterfaceChange
change_of true = up
change_of false = down

-- `!=` on `bool`
abbrev differ : Bool → Bool → Bool
differ true b = not b
differ false b = b

-- The event for one interface of the current snapshot, if any.
unfoldable pub transition : Option LinkSnapshot → LinkSnapshot → List NetworkEvent
transition (some prev) now =
    if differ prev.is_up now.is_up
    then NetworkEvent.interface_changed now.name (change_of now.is_up) ∷ []
    else []
transition none now = if now.is_up then NetworkEvent.interface_changed now.name up ∷ [] else []

-- `for (index, current_snap) in &current`
unfoldable pub detect_changes : Map ℕ LinkSnapshot → Map ℕ LinkSnapshot → List NetworkEvent
unfolding transition get ℕ_discrete
detect_changes prev [] = []
detect_changes prev ((index, snap) ∷ current) =
    transition (get index prev) snap ++ detect_changes prev current

-- `for (index, prev_snap) in &self.prev_state`
unfoldable pub detect_removed : Map ℕ LinkSnapshot → Map ℕ LinkSnapshot → List NetworkEvent
unfolding get ℕ_discrete
detect_removed current [] = []
detect_removed current ((index, snap) ∷ prev) =
    let rest = detect_removed current prev in
    if contains_key index current
    then rest
    else NetworkEvent.interface_changed snap.name removed ∷ rest

-- What `new` keeps of its first snapshot.
abbrev initial_state : Result (Map ℕ LinkSnapshot) → Map ℕ LinkSnapshot
initial_state (ok interfaces) = interfaces
initial_state (err e) = []

-- A connection that fails leaves a monitor with no handle.
unfoldable pub new_netlink_monitor :
    (to_decimal : ℕ → Text) → Option (List LinkItem) → Result NetlinkMonitor
unfolding snapshot_interfaces
new_netlink_monitor to_decimal links =
    ok (record { prev_state = initial_state (snapshot_interfaces to_decimal links); pending = [] })

abbrev active_names : List InterfaceInfo → List Text
active_names [] = []
active_names (i ∷ l) = let rest = active_names l in if i.is_up then i.name ∷ rest else rest

abbrev names_of : Result (List InterfaceInfo) → Result (List Text)
names_of (ok l) = ok (active_names l)
names_of (err e) = err e

unfoldable pub get_active_interface_names :
    (to_decimal : ℕ → Text) → Option (List LinkItem) → Result (List Text)
unfolding get_interfaces
get_active_interface_names to_decimal links = names_of (get_interfaces to_decimal links)

-- `poll_changes` on the snapshot that it took, which fails with the snapshot.
unfoldable pub poll_changes :
    Result (Map ℕ LinkSnapshot) → NetlinkMonitor → Result (List NetworkEvent) × NetlinkMonitor
unfolding detect_changes detect_removed
poll_changes (err e) m = (err e, m)
poll_changes (ok current) m =
    let events = detect_changes m.prev_state current ++ detect_removed current m.prev_state in
    (ok events, record { prev_state = current; pending = m.pending ++ events })

abbrev next_pending : List NetworkEvent → NetlinkMonitor → Option NetworkEvent × NetlinkMonitor
next_pending [] m = (none, m)
next_pending (e ∷ l) m = (some e, record m { pending = l })

-- `poll_next`: the oldest pending event; `none` is `Poll::Pending`.
unfoldable pub poll_next : NetlinkMonitor → Option NetworkEvent × NetlinkMonitor
poll_next m = next_pending m.pending m
