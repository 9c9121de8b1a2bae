-- ===== src/Daemon/Main.antt =====
-- src/main.rs: the choice of the logger, and the exit code. The parse of the arguments, the filter of
-- the environment and the connection to journald are of libraries.
use nic_autoswitch.Common.{
  ℕ, Bool, Option, none, some, List, ◌++◌, if◌then◌else◌, Text, bytes, Text-eq, ℕ-eq,
}
use nic_autoswitch.Error.{Result, ok, err}
use nic_autoswitch.Ip.{IpCrate}
use nic_autoswitch.Router.Kernel.{Netlink}
use nic_autoswitch.Daemon.Service.Run.{Wakeup, Args, Environment, run_daemon}

pub data LogTarget : Type 0 where
  to_stdout to_journald : LogTarget

pub record Logging : Type 0 where
  pub filter : Text
  pub target : LogTarget

abbrev pub or_default : Text → Option Text → Text
or_default fallback none = fallback
or_default fallback (some t) = t

-- `env_filter` is that of the environment, if there is one, and `journald` whether it can be reached.
unfoldable pub init_logging :
    (env_filter : Option Text)
    → (journald : Bool) → (level : Option Text) → (foreground : Bool) → Result Logging
init_logging env_filter journald level foreground =
    let log_level = or_default (bytes "info") level in
    ok (record {
      filter = or_default (bytes "nic_autoswitch=" ++ log_level) env_filter;
      target = if foreground then to_stdout else if journald then to_journald else to_stdout;
    })

abbrev pub code_of : Result (Unit {0}) → ℕ
code_of (ok _) = 0
code_of (err e) = 1

abbrev pub finished : {K : Type 0} → Option (Result (Unit {0})) × K → Option ℕ × K
finished (none, k) = (none, k)
finished (some r, k) = (some (code_of r), k)

-- `none`: the program runs on.
unfoldable pub main :
    (to_decimal : ℕ → Text)
    → IpCrate
    → {K : Type 0} → Netlink K
    → (env_filter : Option Text) → (journald : Bool) → Args
    → Environment
    → List Wakeup
    → K
    → Option ℕ × K
unfolding init_logging run_daemon
main to_decimal net nl env_filter journald args env l k =
    elim (init_logging env_filter journald args.log_level args.foreground) [
      | err e ↦ (some 1, k)
      | ok logging ↦ finished (run_daemon to_decimal net nl args env l k)
    ]
