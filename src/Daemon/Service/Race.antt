-- ===== src/Daemon/Service/Race.antt =====
-- src/daemon/service.rs: what one reload comes to by its moves, and what two at once may.
use mathlib.Core.Path.{subst, fun_ext}
use nic_autoswitch.Common.{ℕ, zero, suc, ◌≡◌, refl, Text-eq, ℕ-eq}
use nic_autoswitch.Error.{ok}
use nic_autoswitch.Config.{Config}
use nic_autoswitch.Config.Loader.{FileRead}
use nic_autoswitch.Engine.Dispatcher.{update_config}
use nic_autoswitch.Daemon.Service.{DaemonService, load_twice}
use nic_autoswitch.Daemon.Service.Alternating.{IsAtRest}
use nic_autoswitch.Daemon.Service.Progress.{
  set_progress_same, set_progress-set_progress, set_progress_kept,
}
use nic_autoswitch.Daemon.Service.Tasks.{
  Progress, idle, loaded, stored, enter, leave, Move, begin, load, store, compute, put_indices,
  put_config, finish, Tasks, set_progress, moved, Reach, here, next, at_rest, new_indices,
}

module _ {r : Tasks} (i : ℕ) where
  -- A first move of a task, and one that follows a move of the same task.
  pub first_move :
      (t : Tasks) {s : DaemonService} {p q : Progress}
      → t.progress i ≡ p
      → Reach r t
      → Move i t.service p s q
      → Reach r (moved i s q t)
  first_move t e h m = next i h (rw e m)

  pub then_move :
      (t : Tasks) {s s' : DaemonService} {p q : Progress}
      → Reach r (moved i s p t)
      → Move i s p s' q
      → Reach r (moved i s' q t)
  then_move t {s} {s'} {p} {q} h m =
      rw (← fun_ext (set_progress-set_progress i q p t.progress))
        (next i h (rw (set_progress_same i p t.progress) m))

  -- From the file to what was loaded, and from there to the end.
  take :
      (t : Tasks) (first second : FileRead) (c : Config)
      → t.progress i ≡ idle
      → load_twice (enter i t.service).service_config.config_path first second ≡ ok c
      → Reach r t
      → Reach r (moved i (enter i t.service) (loaded c) t)
  take t first second c e l h = then_move t (first_move t e h begin) (load first second c l)

  pub updated :
      (t : Tasks) (s : DaemonService) (c : Config)
      → Reach r (moved i s (stored c) t)
      → Reach r (moved i (leave i (record s { dispatcher = update_config c s.dispatcher })) idle t)
  unfolding update_config
  updated t s c h =
      let m = new_indices c s in
      then_move t
        (then_move t (then_move t (then_move t h (compute c)) (put_indices c m)) (put_config c))
        finish

-- If two tasks reload at once, and one loads a configuration and the other another, then the tasks can
-- all come to rest with the first in the service and the second in the dispatcher.
pub reload-diverges :
    (s : DaemonService) (a b : Config) (first second third fourth : FileRead)
    → load_twice s.service_config.config_path first second ≡ ok a
    → load_twice s.service_config.config_path third fourth ≡ ok b
    → (t : Tasks) × Reach (at_rest s) t
      × IsAtRest t
      × (t.service.config ≡ a)
      × (t.service.dispatcher.config ≡ b)
unfolding update_config
reload-diverges s a b first second third fourth la lb =
    let s0 = enter 0 s in
    let s1 : DaemonService = record s0 { config = b } in
    let s2 : DaemonService = record s1 { config = a } in
    let t0 = moved 0 s0 (loaded a) (at_rest s) in
    let r0 : Reach (at_rest s) t0 = take 0 (at_rest s) first second a refl la here in
    let t1 = moved 1 s1 (stored b) t0 in
    let r1 : Reach (at_rest s) t1 =
      then_move 1 t0 (take 1 t0 third fourth b refl lb r0) (store b) in
    let s3 = leave 0 (record s2 { dispatcher = update_config a s2.dispatcher }) in
    let t2 = moved 0 s3 idle t1 in
    let r2 : Reach (at_rest s) t2 = updated 0 t1 s2 a (first_move 0 t1 refl r1 (store a)) in
    let s4 = leave 1 (record s3 { dispatcher = update_config b s3.dispatcher }) in
    (
      moved 1 s4 idle t2,
      updated 1 t2 s3 b (
          subst (λ f. Reach (at_rest s) (record { service = s3; progress = f }))
            (fun_ext (set_progress_kept 1 (stored b) t2.progress refl)) r2),
      rest,
      refl,
      refl,
    )
  where
    during : ℕ → Progress
    during = set_progress 1 (stored b) (set_progress 0 (loaded a) (λ _. idle))

    rest : (i : ℕ) → set_progress 1 idle (set_progress 0 idle during) i ≡ idle
    rest zero = refl
    rest (suc zero) = refl
    rest (suc (suc i)) = refl
