-- ===== src/Engine/Dispatcher/State.antt =====
-- src/engine/dispatcher.rs: the dispatcher's state, its life cycle and the indices of interfaces.
use nic_autoswitch.Common.{
  ℕ, suc, ◌+◌, ◌%◌, Bool, true, false, Option, none, some, List, [], ◌∷◌, ltb, if◌then◌else◌, Text,
  Text-discrete, Text-eq, ℕ-eq, length, Map, keys, get, insert,
}
use nic_autoswitch.Config.{Config}
use nic_autoswitch.Monitor.State.{NetworkState, new_network_state}
use nic_autoswitch.Router.Manager.{RouteManager}
use nic_autoswitch.Engine.Executor.{
  RuleExecutor, ActiveRoute, new_executor, table_id_v4, clear_active_routes,
}
use nic_autoswitch.Engine.Executor

pub data DispatcherState : Type 0 where
  initializing running stopping stopped : DispatcherState

abbrev pub is_running : DispatcherState → Bool
is_running running = true
is_running _ = false

pub record EventDispatcher : Type 0 where
  pub config : Config
  pub network_state : NetworkState
  pub executor : RuleExecutor
  pub current_ssids : Map Text Text
  pub interface_indices : Map Text ℕ  -- u8
  pub state : DispatcherState

-- `for (idx, name) in config.interfaces.keys().enumerate()`
unfoldable pub assign_indices : List Text → (idx : ℕ) → Map Text ℕ → Map Text ℕ
unfolding insert Text-discrete
assign_indices [] idx m = m
assign_indices (name ∷ names) idx m =
    assign_indices names (suc idx) (if ltb idx 255 then insert name (idx % 256) m else m)

unfoldable pub new_dispatcher : Config → RouteManager → EventDispatcher
unfolding keys assign_indices new_network_state new_executor
new_dispatcher config rm = record {
  config = config;
  network_state = new_network_state;
  executor = new_executor rm;
  current_ssids = [];
  interface_indices = assign_indices (keys config.interfaces) 0 [];
  state = initializing;
}

unfoldable pub start : EventDispatcher → EventDispatcher
start d = if is_running d.state then d else record d { state = running }

-- The state passes through `stopping`, which nothing else of the call reads.
unfoldable pub stop : EventDispatcher → EventDispatcher
unfolding clear_active_routes
stop d = record d { executor = clear_active_routes d.executor; state = stopped }

-- The index of an interface; a new one gets the number of the indices as a u8.
unfoldable pub index_of_interface : Text → EventDispatcher → ℕ × EventDispatcher
index_of_interface interface d = elim (get interface d.interface_indices) [
  | some idx ↦ (idx, d)
  | none ↦
      let idx = length d.interface_indices % 256 in
      (idx, record d { interface_indices = insert interface idx d.interface_indices })
]

unfoldable pub get_table_id_for_interface : Text → EventDispatcher → ℕ × EventDispatcher
unfolding index_of_interface table_id_v4
get_table_id_for_interface interface d =
    let (index, d') = index_of_interface interface d in (table_id_v4 d'.executor index, d')

-- `for name in config.interfaces.keys()` of `update_config`
unfoldable pub rebuild_indices :
    (existing : Map Text ℕ) → List Text → (next_idx : ℕ) → Map Text ℕ → Map Text ℕ
unfolding get insert Text-discrete
rebuild_indices existing [] next_idx m = m
rebuild_indices existing (name ∷ names) next_idx m =
    let skipped = rebuild_indices existing names next_idx m in
    let appended = rebuild_indices existing names (next_idx + 1) (insert name next_idx m) in
    elim (get name existing) [
      | some idx ↦ rebuild_indices existing names next_idx (insert name idx m)
      | none ↦ if ltb next_idx 255 then appended else skipped
    ]

unfoldable pub update_config : Config → EventDispatcher → EventDispatcher
unfolding keys rebuild_indices
update_config config d = record d {
  interface_indices =
      rebuild_indices d.interface_indices (keys config.interfaces)
        (length d.interface_indices % 256) [];
  config = config;
}

unfoldable pub set_route_manager : RouteManager → EventDispatcher → EventDispatcher
unfolding Executor.set_route_manager
set_route_manager rm d = record d { executor = Executor.set_route_manager rm d.executor }

unfoldable pub current_ssid : Text → EventDispatcher → Option Text
current_ssid interface d = get interface d.current_ssids

unfoldable pub active_routes : EventDispatcher → Map Text ActiveRoute
active_routes d = d.executor.active_routes
