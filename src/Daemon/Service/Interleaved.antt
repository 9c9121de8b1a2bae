-- ===== src/Daemon/Service/Interleaved.antt =====
-- src/daemon/service.rs: what holds of the two copies of the configuration while several tasks reload.
use nic_autoswitch.Common.{ℕ, zero, suc, ◌≡◌, Text-eq, ℕ-eq}
use nic_autoswitch.Error.{ok}
use nic_autoswitch.Config.{validate}
use nic_autoswitch.Daemon.Service.{DaemonService}
use nic_autoswitch.Daemon.Service.Start.{load_twice_accepted}
use nic_autoswitch.Daemon.Service.Progress.{set_progress-all}
use nic_autoswitch.Daemon.Service.Tasks.{
  Progress, idle, ready, ended, loaded, stored, indexed, computed, enter, leave, Move, begin, load,
  refuse, store, compute, put_indices, put_config, finish, Tasks, Reach, here, next, at_rest,
}

-- What a task has taken from the file is accepted.
abbrev Accepted : Progress → Type 0
Accepted idle = Unit {0}
Accepted ready = Unit {0}
Accepted ended = Unit {0}
Accepted (loaded c) = validate c ≡ ok tt
Accepted (stored c) = validate c ≡ ok tt
Accepted (indexed c) = validate c ≡ ok tt
Accepted (computed c m) = validate c ≡ ok tt

-- Both copies of the configuration are.
abbrev pub IsAccepted : DaemonService → Type 0
IsAccepted s = (validate s.config ≡ ok tt) × (validate s.dispatcher.config ≡ ok tt)

enter-IsAccepted : (i : ℕ) (s : DaemonService) → IsAccepted s → IsAccepted (enter i s)
enter-IsAccepted zero s h = h
enter-IsAccepted (suc i) s h = h

leave-IsAccepted : (i : ℕ) (s : DaemonService) → IsAccepted s → IsAccepted (leave i s)
leave-IsAccepted zero s h = h
leave-IsAccepted (suc i) s h = h

Move-IsAccepted :
    {i : ℕ} {s s' : DaemonService} {p p' : Progress}
    → Move i s p s' p'
    → IsAccepted s
    → Accepted p
    → IsAccepted s' × Accepted p'
Move-IsAccepted {i} {s} begin h a = (enter-IsAccepted i s h, tt)
Move-IsAccepted {i} {s} (load first second c e) h a =
    (h, load_twice_accepted s.service_config.config_path first second c e)
Move-IsAccepted (refuse first second c e) h a = (h, tt)
Move-IsAccepted (store c) h a = ((a, h.1), a)
Move-IsAccepted (compute c) h a = (h, a)
Move-IsAccepted (put_indices c m) h a = (h, a)
Move-IsAccepted (put_config c) h a = ((h.0, a), tt)
Move-IsAccepted {i} {s} finish h a = (leave-IsAccepted i s h, tt)

Reach-Accepted :
    (s : DaemonService) {t : Tasks}
    → IsAccepted s
    → Reach (at_rest s) t
    → IsAccepted t.service × ((i : ℕ) → Accepted (t.progress i))
Reach-Accepted s h here = (h, λ i. tt)
Reach-Accepted s h (next {u} i {s = s'} {p} r m) =
    let (before, all) = Reach-Accepted s h r in
    let (after, new) = Move-IsAccepted m before (all i) in
    (after, set_progress-all Accepted i p u.progress new all)

-- If both copies of the configuration are accepted by the validation, then they are in every state
-- that any tasks reach that reload, in any order of their moves.
pub Reach-IsAccepted :
    (s : DaemonService) (t : Tasks) → IsAccepted s → Reach (at_rest s) t → IsAccepted t.service
Reach-IsAccepted s t h r = (Reach-Accepted s h r).0
