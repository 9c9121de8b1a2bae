-- ===== src/Error.antt =====
-- src/error.rs. A message keeps the values that the source formats into it, and not the wording or
-- the text of a foreign error.
pub mod Display
use nic_autoswitch.Common.{ℕ, ◌≡◌, refl, ◌⊎◌, inl, inr, Bool, true, false, Text, Text-eq, ℕ-eq}

mutual
  pub data Error : Type 0 where
    config network dns route io dbus invalid_input toml json : Message → Error
    timeout : Error

  pub data Message : Type 0 where
    -- src/config/schema.rs
    monitor_interval_zero table_id_start_range no_interfaces : Message
    empty_interface_name empty_interface_pattern empty_mac empty_rule_name : Message
    empty_profile_interface : Message
    invalid_log_level star_missing star_inside : Text → Message
    in_interface in_wifi_profile : Text → Error → Message
    -- src/config/loader.rs
    file_not_found file_not_read file_not_parsed : Text → Message
    -- src/daemon and src/cli
    invalid_command configuration_reloaded shutdown_requested : Message
    reload_failed : Error → Message
    connection_broken not_serialized not_parsed daemon_not_running unknown_error
          runtime_not_created :
        Message
    signals_not_registered signal_channel_closed : Message
    -- src/router
    base_table_range no_connection connection_failed invalid_ip empty_route_interface : Message
    table_id_too_large : ℕ → Message
    request_failed interface_not_found needs_dns no_addresses : Text → Message

pub data Result {ℓ} (A : Type ℓ) : Type ℓ where
  ok : A → Result A
  err : Error → Result A

abbrev pub is_ok {ℓ} : {A : Type ℓ} → Result A → Bool
is_ok (ok _) = true
is_ok (err _) = false

abbrev pub map_err {ℓ} : {A : Type ℓ} → (Error → Error) → Result A → Result A
map_err f (ok a) = ok a
map_err f (err e) = err (f e)

-- The operator `?`, as the bind of `do`.
infixl 5 ◌>>=◌ ◌>>◌
abbrev pub ◌>>=◌ {ℓ κ} : {A : Type ℓ} {B : Type κ} (m : Result A) → (A → Result B) → Result B
err failure >>= next = err failure
ok value >>= next = next value

abbrev pub ◌>>◌ {ℓ} : {B : Type ℓ} (m : Result (Unit {0})) → Result B → Result B
checked >> next = checked >>= λ _. next

pub Result-cases : (r : Result (Unit {0})) → (r ≡ ok tt) ⊎ ((e : Error) × (r ≡ err e))
Result-cases (ok x) = inl refl
Result-cases (err e) = inr (e, refl)
