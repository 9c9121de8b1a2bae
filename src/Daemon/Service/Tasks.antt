-- ===== src/Daemon/Service/Tasks.antt =====
-- src/daemon/service.rs and src/engine/dispatcher.rs: reloads by several tasks at once. A move is what
-- happens between two acquisitions of a lock; what is sent to systemd is left out.
use nic_autoswitch.Error.{Error, ok, err}
use nic_autoswitch.Common.{ℕ, zero, suc, ◌≡◌, ◌%◌, [], Text, Text-eq, ℕ-eq, length, keys, Map}
use nic_autoswitch.Config.{Config}
use nic_autoswitch.Config.Loader.{FileRead}
use nic_autoswitch.Engine.Dispatcher.{rebuild_indices}
use nic_autoswitch.Daemon.Service.{DaemonService, running, reloading, load_twice}

-- Where a task stands in its reload: the configuration that it has loaded, from where it has written it
-- to the service on, and the indices that it has computed from those it read.
pub data Progress : Type 0 where
  idle ready ended : Progress
  loaded stored indexed : Config → Progress
  computed : Config → Map Text ℕ → Progress

-- Task 0 is the main loop, at a signal; each other one serves a call of the control interface, which
-- leaves the state of the service alone.
abbrev pub enter : ℕ → DaemonService → DaemonService
enter zero s = record s { state = reloading }
enter (suc i) s = s

abbrev pub leave : ℕ → DaemonService → DaemonService
leave zero s = record s { state = running }
leave (suc i) s = s

abbrev pub write_indices : Map Text ℕ → DaemonService → DaemonService
write_indices m s = record s { dispatcher = record s.dispatcher { interface_indices = m } }

abbrev pub write_config : Config → DaemonService → DaemonService
write_config c s = record s { dispatcher = record s.dispatcher { config = c } }

-- The indices that `update_config` computes while it reads the old ones.
abbrev pub new_indices : Config → DaemonService → Map Text ℕ
new_indices c s =
    rebuild_indices s.dispatcher.interface_indices (keys c.interfaces)
      (length s.dispatcher.interface_indices % 256) []

pub data Move (i : ℕ) (s : DaemonService) : Progress → DaemonService → Progress → Type 0 where
  begin : Move i s idle (enter i s) ready
  load :
      (first second : FileRead) (c : Config)
      → load_twice s.service_config.config_path first second ≡ ok c
      → Move i s ready s (loaded c)
  refuse :
      (first second : FileRead) (e : Error)
      → load_twice s.service_config.config_path first second ≡ err e
      → Move i s ready s ended
  store : (c : Config) → Move i s (loaded c) (record s { config = c }) (stored c)
  compute : (c : Config) → Move i s (stored c) s (computed c (new_indices c s))
  put_indices :
      (c : Config) (m : Map Text ℕ) → Move i s (computed c m) (write_indices m s) (indexed c)
  put_config : (c : Config) → Move i s (indexed c) (write_config c s) ended
  finish : Move i s ended (leave i s) idle

-- Whether a move reads from the file what is given, where it reads.
abbrev pub Reads :
    {i : ℕ} {s s' : DaemonService} {p p' : Progress}
    → FileRead
    → FileRead
    → Move i s p s' p'
    → Type 0
Reads first second (load a b c h) = (a ≡ first) × (b ≡ second)
Reads first second (refuse a b e h) = (a ≡ first) × (b ≡ second)
Reads first second _ = Unit

-- The moves of one task that no other interrupts, all of which read the same from the file.
pub data Solo (i : ℕ) (first second : FileRead) (s : DaemonService) (p : Progress)
    : DaemonService → Progress → Type 0 where
  unmoved : Solo i first second s p s p
  and_then :
      {s' s'' : DaemonService} {p' p'' : Progress}
      → Solo i first second s p s' p'
      → (m : Move i s' p' s'' p'') → Reads first second m
      → Solo i first second s p s'' p''

pub record Tasks : Type 0 where
  pub service : DaemonService
  pub progress : ℕ → Progress

abbrev pub set_progress : ℕ → Progress → (ℕ → Progress) → ℕ → Progress
set_progress zero p f zero = p
set_progress zero p f (suc j) = f (suc j)
set_progress (suc i) p f zero = f zero
set_progress (suc i) p f (suc j) = set_progress i p (λ k. f (suc k)) j

abbrev pub moved : ℕ → DaemonService → Progress → Tasks → Tasks
moved i s p t = record { service = s; progress = set_progress i p t.progress }

-- Any tasks move, in any order.
pub data Reach (t : Tasks) : Tasks → Type 0 where
  here : Reach t t
  next :
      {u : Tasks} (i : ℕ) {s : DaemonService} {p : Progress}
      → Reach t u
      → Move i u.service (u.progress i) s p
      → Reach t (moved i s p u)

abbrev pub at_rest : DaemonService → Tasks
at_rest s = record { service = s; progress = λ _. idle }
