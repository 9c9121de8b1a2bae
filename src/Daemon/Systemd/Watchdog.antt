-- ===== src/Daemon/Systemd/Watchdog.antt =====
-- src/daemon/systemd.rs: the bounds of the watchdog's interval.
use nic_autoswitch.Common.{
  ℕ, ◌+◌, ◌-◌, ◌*◌, ◌≤◌, ◌<◌, ◌≡◌, ◌↔◌, inl, inr, ◌&&◌, some, [], ◌∷◌, arith, ltb, Bool-cases, Text,
  ◌==◌, Text-eq, ℕ-eq,
}
use nic_autoswitch.Daemon.Systemd.{
  u64_limit, is_digit, parse_digits, parse_u64, get_watchdog_interval,
}

parse_digits_bound :
    (t : Text) (value n : ℕ) → value < u64_limit → parse_digits t value ≡ some n → n < u64_limit
unfolding parse_digits
parse_digits_bound [] value n fits h = ground arith
parse_digits_bound (c ∷ t) value n fits h =
    elim (Bool-cases (is_digit c && ltb (value * 10 + (c - 48)) u64_limit)) [
      | inr bad ↦ ground arith
      | inl good ↦ parse_digits_bound t (value * 10 + (c - 48)) n (ground arith) (ground arith)
    ]

parse_u64_bound : (t : Text) (n : ℕ) → parse_u64 t ≡ some n → n < u64_limit
unfolding parse_u64
parse_u64_bound [] n h = cc
parse_u64_bound (c ∷ []) n h = parse_digits_bound (c ∷ []) 0 n (omega arith) h
parse_u64_bound (c ∷ d ∷ t) n h = elim (Bool-cases (c == 43)) [
  | inl plus ↦ parse_digits_bound (d ∷ t) 0 n (omega arith) (ground arith)
  | inr digit ↦ parse_digits_bound (c ∷ d ∷ t) 0 n (omega arith) (ground arith)
]

-- If the variable of the watchdog holds a u64, in µs, then the interval in ms is never longer than
-- 3/4 of it, is shorter by less than 1.5 ms, and is enabled exactly from 2000 µs on.
pub get_watchdog_interval_bounds :
    (v : Text) (usec : ℕ)
    → parse_u64 v ≡ some usec
    → (get_watchdog_interval (some v) * 4000 ≤ usec * 3)
      × (usec * 3 < get_watchdog_interval (some v) * 4000 + 6000)
      × ((0 < get_watchdog_interval (some v)) ↔ (2000 ≤ usec))
unfolding get_watchdog_interval
get_watchdog_interval_bounds v usec read =
    let fits = parse_u64_bound v usec read in
    rw (read, get_watchdog_interval)
      (omega arith, omega arith, (λ h. omega arith, λ h. omega arith))
