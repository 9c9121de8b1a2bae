-- ===== src/Tests/Executor.antt =====
-- src/engine/executor.rs: the record of one active route.
use nic_autoswitch.Common.{◌≡◌, refl, some, arith, Text, bytes, Text-discrete, Text-eq, ℕ-eq, get}
use nic_autoswitch.Engine.Executor.{ActiveRoute}
use nic_autoswitch.Engine.Executor.Tracking.{IsTracked}
use nic_autoswitch.Tests.Samples.{sample_executor}

named_once :
    (name : Text) (a : ActiveRoute)
    → get name sample_executor.active_routes ≡ some a
    → a.rule_name ≡ name
unfolding get
named_once name a e = elim (Text-discrete (bytes "office") name) [
  | yes same ↦ ground (arith, same)
  | no ne ↦ absurd (ground arith)
]

pub sample-IsTracked : IsTracked sample_executor
unfolding get
sample-IsTracked = record { once = (refl, tt); named = named_once }
