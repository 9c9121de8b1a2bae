-- ===== src/Config/Watcher.antt =====
-- src/config/watcher.rs: the watcher of the configuration file. Its task runs beside the calls on the
-- watcher and shares the flag with them.
use nic_autoswitch.Common.{
  ℕ, ◌≡◌, refl, Bool, true, false, Option, none, some, List, [], ◌∷◌, ◌++◌, ltb, if◌then◌else◌,
  Text, Text-eq, ℕ-eq,
}
use nic_autoswitch.Error.{Result}
use nic_autoswitch.Config.Schema.{Config}
use nic_autoswitch.Config.Loader.{FileRead, load_from_path, load_config}

pub data ConfigEvent : Type 0 where
  modified deleted : ConfigEvent

pub record ConfigWatcher : Type 0 where
  pub config_path : Text
  pub enabled : Bool
  pub shutdown : Bool

unfoldable pub new_watcher : Text → ConfigWatcher
new_watcher path = record { config_path = path; enabled = false; shutdown = false }

-- `start` without the task, which is `watch` below.
unfoldable pub start : ConfigWatcher → ConfigWatcher
start w = record w { enabled = true }

unfoldable pub stop : ConfigWatcher → ConfigWatcher
stop w = record w { enabled = false; shutdown = true }

unfoldable pub reload : ConfigWatcher → FileRead → Result Config
unfolding load_from_path
reload w read = load_config w.config_path read

-- The calls on the watcher that change it.
pub data WatcherCall : Type 0 where
  starts stops : WatcherCall

unfoldable pub after_calls : List WatcherCall → ConfigWatcher → ConfigWatcher
unfolding start stop
after_calls [] w = w
after_calls (starts ∷ l) w = after_calls l (start w)
after_calls (stops ∷ l) w = after_calls l (stop w)

-- The event for two modification times of the file; `none` where the file has none.
unfoldable pub change : (last current : Option ℕ) → List ConfigEvent
change none current = []
change (some last) none = deleted ∷ []
change (some last) (some current) = if ltb last current then modified ∷ [] else []

-- The task: in each turn of its loop, the calls since the turn before, and the time that it reads
-- after its sleep. The events that it sends.
unfoldable pub watch :
    (last_modified : Option ℕ)
    → List (List WatcherCall × Option ℕ)
    → ConfigWatcher
    → List ConfigEvent
unfolding after_calls change
watch last_modified [] w = []
watch last_modified ((calls, current) ∷ turns) w =
    let w' = after_calls calls w in
    let later = watch current turns w' in
    if w'.shutdown then [] else change last_modified current ++ later

shutdown-after_calls :
    (calls : List WatcherCall) (w : ConfigWatcher)
    → w.shutdown ≡ true
    → (after_calls calls w).shutdown ≡ true
unfolding after_calls start stop
shutdown-after_calls [] w set = set
shutdown-after_calls (starts ∷ l) w set = shutdown-after_calls l (start w) set
shutdown-after_calls (stops ∷ l) w set = shutdown-after_calls l (stop w) refl

-- Once a watcher was stopped, no task of it sends an event, whichever calls follow, a start among
-- them.
pub watch-stop :
    (calls : List WatcherCall) (last : Option ℕ) (turns : List (List WatcherCall × Option ℕ))
    (w : ConfigWatcher)
    → watch last turns (after_calls calls (stop w)) ≡ []
unfolding watch stop
watch-stop calls last [] w = refl
watch-stop calls last ((more, current) ∷ turns) w =
    rw
      (shutdown-after_calls more (after_calls calls (stop w))
        (shutdown-after_calls calls (stop w) refl))
      refl
