-- ===== src/Daemon/Service/Progress.antt =====
-- src/daemon/service.rs: the progress of many tasks, of which one moves.
use nic_autoswitch.Common.{ℕ, zero, suc, ◌≡◌, ◌≢◌, refl, ap, Text-eq, ℕ-eq}
use nic_autoswitch.Daemon.Service.Tasks.{Progress, set_progress}

-- A predicate on the progress of all tasks survives a move if it holds of the new progress.
pub set_progress-all :
    (P : Progress → Type 0) (i : ℕ) (p : Progress) (f : ℕ → Progress)
    → P p
    → ((j : ℕ) → P (f j))
    → (j : ℕ) → P (set_progress i p f j)
set_progress-all P zero p f h g zero = h
set_progress-all P zero p f h g (suc j) = g (suc j)
set_progress-all P (suc i) p f h g zero = g zero
set_progress-all P (suc i) p f h g (suc j) =
    set_progress-all P i p (λ k. f (suc k)) h (λ k. g (suc k)) j

pub set_progress_same : (i : ℕ) (p : Progress) (f : ℕ → Progress) → set_progress i p f i ≡ p
set_progress_same zero p f = refl
set_progress_same (suc i) p f = set_progress_same i p (λ k. f (suc k))

pub set_progress_other :
    (i j : ℕ) (p : Progress) (f : ℕ → Progress) → j ≢ i → set_progress i p f j ≡ f j
set_progress_other zero zero p f h = absurd (h refl)
set_progress_other zero (suc j) p f h = refl
set_progress_other (suc i) zero p f h = refl
set_progress_other (suc i) (suc j) p f h =
    set_progress_other i j p (λ k. f (suc k)) (λ e. h (ap suc e))

pub set_progress-set_progress :
    (i : ℕ) (p q : Progress) (f : ℕ → Progress) (j : ℕ)
    → set_progress i p (set_progress i q f) j ≡ set_progress i p f j
set_progress-set_progress zero p q f zero = refl
set_progress-set_progress zero p q f (suc j) = refl
set_progress-set_progress (suc i) p q f zero = refl
set_progress-set_progress (suc i) p q f (suc j) = set_progress-set_progress i p q (λ k. f (suc k)) j

pub set_progress_kept :
    (i : ℕ) (p : Progress) (f : ℕ → Progress) → f i ≡ p → (j : ℕ) → f j ≡ set_progress i p f j
set_progress_kept zero p f h zero = h
set_progress_kept zero p f h (suc j) = refl
set_progress_kept (suc i) p f h zero = refl
set_progress_kept (suc i) p f h (suc j) = set_progress_kept i p (λ k. f (suc k)) h j
