-- ===== src/Config/Loader.antt =====
-- src/config/loader.rs: the loader, which keeps the last accepted configuration and passes it on.
pub mod Accepts
use nic_autoswitch.Common.{
  ℕ, ◌+◌, Bool, true, not, ◌&&◌, List, [], ◌∷◌, if◌then◌else◌, Text, ◌==◌, Text-eq, ℕ-eq,
}
use nic_autoswitch.Error.{
  config, file_not_found, file_not_read, file_not_parsed, Result, ok, err, ◌>>=◌, ◌>>◌,
}
use nic_autoswitch.Config.Schema.{Config}
use nic_autoswitch.Config.Validate.{validate}

-- What one read of the file meets. The reading and the parse of TOML are not of the sources.
pub data FileRead : Type 0 where
  absent unreadable malformed : FileRead
  parsed : Config → FileRead

-- `tokio::sync::watch`: the value that receivers see, and their number. `send` fails where there are
-- no receivers, and then leaves the value as it is.
pub record Channel : Type 0 where
  pub value : Config
  pub receivers : ℕ

abbrev pub send : Config → Channel → Channel
send c ch = if ch.receivers == 0 then ch else record ch { value = c }

pub record ConfigLoader : Type 0 where
  pub path : Text
  pub current : Config
  pub sender : Channel

unfoldable pub load_from_path : Text → FileRead → Result Config
unfolding validate
load_from_path path absent = err (config (file_not_found path))
load_from_path path unreadable = err (config (file_not_read path))
load_from_path path malformed = err (config (file_not_parsed path))
load_from_path path (parsed c) = do validate c; ok c

abbrev pub load_config : Text → FileRead → Result Config
load_config path read = load_from_path path read

-- The receiver that comes with the channel is dropped.
unfoldable pub new_loader : Text → FileRead → Result ConfigLoader
unfolding load_from_path
new_loader path read = do
  c ← load_from_path path read
  ok (record { path = path; current = c; sender = record { value = c; receivers = 0 } })

-- Reads the file again, and leaves the loader as it is.
unfoldable pub load : ConfigLoader → FileRead → Result Config
unfolding load_from_path
load l read = load_from_path l.path read

-- The configuration that the new receiver sees.
unfoldable pub subscribe : ConfigLoader → Config × ConfigLoader
subscribe l =
    let ch = l.sender in
    (ch.value, record l { sender = record ch { receivers = ch.receivers + 1 } })

unfoldable pub override_dry_run : Bool → ConfigLoader → ConfigLoader
override_dry_run dry_run l =
    let c = record l.current { global = record l.current.global { dry_run = true } } in
    if dry_run && not l.current.global.dry_run
    then record l { current = c; sender = send c l.sender }
    else l

abbrev pub accept : Result Config → ConfigLoader → Result Config × ConfigLoader
accept (err e) l = (err e, l)
accept (ok c) l = (ok c, record l { current = c; sender = send c l.sender })

-- The configuration is validated a second time.
unfoldable pub reload : FileRead → ConfigLoader → Result Config × ConfigLoader
unfolding load_from_path validate
reload read l = accept (do c ← load_from_path l.path read; validate c; ok c) l

-- What the daemon does with a loader.
pub data LoaderCall : Type 0 where
  reloads : FileRead → LoaderCall
  overrides : Bool → LoaderCall
  subscribes : LoaderCall

unfoldable pub after_call : LoaderCall → ConfigLoader → ConfigLoader
unfolding reload override_dry_run subscribe
after_call (reloads read) l = (reload read l).1
after_call (overrides dry_run) l = override_dry_run dry_run l
after_call subscribes l = (subscribe l).1

unfoldable pub after_calls : List LoaderCall → ConfigLoader → ConfigLoader
unfolding after_call
after_calls [] l = l
after_calls (c ∷ cs) l = after_calls cs (after_call c l)
