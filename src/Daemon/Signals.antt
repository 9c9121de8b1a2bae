-- ===== src/Daemon/Signals.antt =====
-- src/daemon/signals.rs: the signals of the process, and the waits for one of a kind. The streams of
-- signals and the broadcast channel are not of the sources: what they give is an argument.
use nic_autoswitch.Common.{
  ℕ, Bool, not, ◌||◌, Option, none, some, List, [], ◌∷◌, if◌then◌else◌, ◌==◌, Text-eq, ℕ-eq,
}
use nic_autoswitch.Error.{
  invalid_input, signals_not_registered, signal_channel_closed, Result, ok, err,
}

pub data Signal : Type 0 where
  shutdown reload : Signal

-- The numbers of the signals.
abbrev sigint : ℕ
sigint = 2

abbrev sigterm : ℕ
sigterm = 15

-- Whether each of the two registrations succeeds.
unfoldable pub register_signals : (terms hangups : Bool) → Result (Unit {0})
register_signals terms hangups =
    if not terms
    then err (invalid_input signals_not_registered)
    else if hangups
    then ok tt
    else err (invalid_input signals_not_registered)

-- What the task for SIGTERM and SIGINT sends for the signals that it gets.
unfoldable pub forward_terms : List ℕ → List Signal
forward_terms [] = []
forward_terms (signal ∷ l) =
    let rest = forward_terms l in
    if signal == sigterm || signal == sigint then shutdown ∷ rest else rest

-- The task for SIGHUP sends for each item of its stream.
unfoldable pub forward_hangups : List ℕ → List Signal
forward_hangups [] = []
forward_hangups (signal ∷ l) = reload ∷ forward_hangups l

-- What `recv` gives.
pub data Received : Type 0 where
  signalled : Signal → Received
  closed lagged : Received

-- The result of a wait, where it ends, and what is left to receive.
unfoldable pub wait_shutdown : List Received → Option (Result Signal) × List Received
wait_shutdown [] = (none, [])
wait_shutdown (signalled shutdown ∷ l) = (some (ok shutdown), l)
wait_shutdown (signalled reload ∷ l) = wait_shutdown l
wait_shutdown (closed ∷ l) = (some (err (invalid_input signal_channel_closed)), l)
wait_shutdown (lagged ∷ l) = wait_shutdown l

unfoldable pub wait_reload : List Received → Option (Result Signal) × List Received
wait_reload [] = (none, [])
wait_reload (signalled reload ∷ l) = (some (ok reload), l)
wait_reload (signalled shutdown ∷ l) = wait_reload l
wait_reload (closed ∷ l) = (some (err (invalid_input signal_channel_closed)), l)
wait_reload (lagged ∷ l) = wait_reload l

-- What `try_recv` gives.
pub data TryReceived : Type 0 where
  now : Signal → TryReceived
  empty now_closed now_lagged : TryReceived

-- `ShutdownFuture::poll`; `none` is `Poll::Pending`.
unfoldable pub poll_shutdown : TryReceived → Option (Result Signal)
poll_shutdown (now signal) = some (ok signal)
poll_shutdown empty = none
poll_shutdown now_closed = some (err (invalid_input signal_channel_closed))
poll_shutdown now_lagged = none
