-- ===== src/Daemon/Service/Alternating.antt =====
-- src/daemon/service.rs: reloads by several tasks, of which one begins when the one before has ended.
use nic_autoswitch.Common.{ℕ, zero, suc, ◌≡◌, ◌≢◌, refl, sym, ◌∙◌, ℕ_discrete, Text-eq, ℕ-eq}
use nic_autoswitch.Daemon.Service.{DaemonService}
use nic_autoswitch.Daemon.Service.Progress.{set_progress_same, set_progress_other}
use nic_autoswitch.Daemon.Service.Tasks.{
  Progress, idle, ready, ended, loaded, stored, indexed, computed, enter, leave, Move, begin, load,
  refuse, store, compute, put_indices, put_config, finish, Tasks, set_progress, moved, at_rest,
  Reach, here, next,
}

-- Every task but `i` is idle.
abbrev pub OthersIdle : ℕ → Tasks → Type 0
OthersIdle i t = (j : ℕ) → j ≢ i → t.progress j ≡ idle

-- A task moves only while every other one is idle: a reload comes to its end before another begins.
pub data Alternating (t : Tasks) : Tasks → Type 0 where
  still : Alternating t t
  after :
      {u : Tasks} (i : ℕ) {s : DaemonService} {p : Progress}
      → Alternating t u
      → OthersIdle i u
      → Move i u.service (u.progress i) s p
      → Alternating t (moved i s p u)

-- Such moves are moves in some order.
pub Alternating-Reach : {t u : Tasks} → Alternating t u → Reach t u
Alternating-Reach still = here
Alternating-Reach (after i r others m) = next i (Alternating-Reach r) m

-- A move of a task leaves the others where they were.
pub OthersIdle-moved :
    (i : ℕ) (s : DaemonService) (p : Progress) (t : Tasks)
    → OthersIdle i t
    → OthersIdle i (moved i s p t)
OthersIdle-moved i s p t h j ne = set_progress_other i j p t.progress ne ∙ h j ne

-- From the write to the service up to that to the dispatcher, the service has the task's
-- configuration; before and after, both have the same one.
abbrev Agrees : DaemonService → Progress → Type 0
Agrees s idle = s.dispatcher.config ≡ s.config
Agrees s ready = s.dispatcher.config ≡ s.config
Agrees s ended = s.dispatcher.config ≡ s.config
Agrees s (loaded c) = s.dispatcher.config ≡ s.config
Agrees s (stored c) = s.config ≡ c
Agrees s (indexed c) = s.config ≡ c
Agrees s (computed c m) = s.config ≡ c

enter-Agrees :
    (i : ℕ) (s : DaemonService)
    → s.dispatcher.config ≡ s.config
    → (enter i s).dispatcher.config ≡ (enter i s).config
enter-Agrees zero s h = h
enter-Agrees (suc i) s h = h

leave-Agrees :
    (i : ℕ) (s : DaemonService)
    → s.dispatcher.config ≡ s.config
    → (leave i s).dispatcher.config ≡ (leave i s).config
leave-Agrees zero s h = h
leave-Agrees (suc i) s h = h

Move-Agrees :
    {i : ℕ} {s s' : DaemonService} {p p' : Progress} → Move i s p s' p' → Agrees s p → Agrees s' p'
Move-Agrees {i} {s} begin h = enter-Agrees i s h
Move-Agrees (load first second c e) h = h
Move-Agrees (refuse first second e x) h = h
Move-Agrees (store c) h = refl
Move-Agrees (compute c) h = h
Move-Agrees (put_indices c m) h = h
Move-Agrees (put_config c) h = sym h
Move-Agrees {i} {s} finish h = leave-Agrees i s h

-- A task that is idle while every other one is as well.
idle-Agrees :
    (s : DaemonService) (p : Progress) → p ≡ idle → Agrees s p → s.dispatcher.config ≡ s.config
idle-Agrees s p e h = rw e at h

Agrees-idle :
    (s : DaemonService) (p : Progress) → p ≡ idle → s.dispatcher.config ≡ s.config → Agrees s p
Agrees-idle s p e h = rw e h

Alternating-Agrees :
    (s : DaemonService) {t : Tasks}
    → s.dispatcher.config ≡ s.config
    → Alternating (at_rest s) t
    → (i : ℕ) → OthersIdle i t
    → Agrees t.service (t.progress i)
Alternating-Agrees s h still i only = h
Alternating-Agrees s h (after {u} j {s = s'} {p} r others m) i only =
    let before = Alternating-Agrees s h r j others in
    let new = Move-Agrees m before in
    elim (ℕ_discrete i j) [
      | yes e ↦ rw (e, set_progress_same j p u.progress) new
      | no ne ↦
          let done : p ≡ idle = sym (set_progress_same j p u.progress) ∙ only j (λ e. ne (sym e)) in
          Agrees-idle s' (set_progress j p u.progress i)
            (set_progress_other j i p u.progress ne ∙ others i ne) (idle-Agrees s' p done new)
    ]

abbrev pub IsAtRest : Tasks → Type 0
IsAtRest t = (i : ℕ) → t.progress i ≡ idle

-- If a reload begins only when the one before has ended, and the service and the dispatcher had the same
-- configuration before, then they have the same one whenever all tasks are idle.
pub Alternating-agree :
    (s : DaemonService) (t : Tasks)
    → s.dispatcher.config ≡ s.config
    → Alternating (at_rest s) t
    → IsAtRest t
    → t.service.dispatcher.config ≡ t.service.config
Alternating-agree s t h r rest =
    idle-Agrees t.service (t.progress 0) (rest 0) (Alternating-Agrees s h r 0 (λ j ne. rest j))
