-- ===== src/Monitor/Netlink/Polling.antt =====
-- src/monitor/netlink.rs: what a poll reports.
use mathlib.Core.Path.{subst}
use nic_autoswitch.Common.{
  ℕ, ◌≡◌, refl, ap, Option, none, some, List, [], ◌∷◌, arith, ℕ_discrete, Text, Text-eq, ℕ-eq, All,
  Map, get, insert, IsMap, insert-IsMap,
}
use nic_autoswitch.Error.{Result, ok, err}
use nic_autoswitch.Monitor.Events.{NetworkEvent}
use nic_autoswitch.Monitor.Netlink.{
  LinkSnapshot, LinkItem, link, failed, extract_link_snapshot, collect_snapshot,
  snapshot_interfaces, NetlinkMonitor, transition, detect_changes, detect_removed, poll_changes,
}

abbrev pub Holds : Map ℕ LinkSnapshot → ℕ × LinkSnapshot → Type 0
Holds m (i, s) = get i m ≡ some s

Holds-later :
    (i : ℕ) (s : LinkSnapshot) (m l : Map ℕ LinkSnapshot)
    → get i m ≡ none
    → All (Holds m) l
    → All (Holds ((i, s) ∷ m)) l
unfolding get
Holds-later i s m [] fresh h = tt
Holds-later i s m ((j, t) ∷ l) fresh (p, h) = (
  elim (ℕ_discrete i j) [
    | yes e ↦ absurd (ground (arith, ap (λ (x : ℕ). get x m) e))
    | no ne ↦ ground arith
  ],
  Holds-later i s m l fresh h,
)

pub IsMap-Holds : (m : Map ℕ LinkSnapshot) → IsMap m → All (Holds m) m
unfolding get
IsMap-Holds [] h = tt
IsMap-Holds ((i, s) ∷ m) (fresh, h) = (ground arith, Holds-later i s m m fresh (IsMap-Holds m h))

no_transition : (s : LinkSnapshot) → transition (some s) s ≡ []
unfolding transition
no_transition s = ground arith

detect_changes_same : (m l : Map ℕ LinkSnapshot) → All (Holds m) l → detect_changes m l ≡ []
unfolding detect_changes
detect_changes_same m [] h = refl
detect_changes_same m ((i, s) ∷ l) (p, h) = rw (p, no_transition s) (detect_changes_same m l h)

detect_removed_same : (m l : Map ℕ LinkSnapshot) → All (Holds m) l → detect_removed m l ≡ []
unfolding detect_removed
detect_removed_same m [] h = refl
detect_removed_same m ((i, s) ∷ l) (p, h) = rw p (detect_removed_same m l h)

collect_snapshot-IsMap :
    (to_decimal : ℕ → Text) (items : List LinkItem) (m found : Map ℕ LinkSnapshot)
    → IsMap m
    → collect_snapshot to_decimal items m ≡ ok found
    → IsMap found
unfolding collect_snapshot
collect_snapshot-IsMap td [] m found h e = let same : m ≡ found = cc in rw same at h
collect_snapshot-IsMap td (link l ∷ items) m found h e =
    collect_snapshot-IsMap td items (insert l.index (extract_link_snapshot td l) m) found
      (insert-IsMap l.index (extract_link_snapshot td l) m h) e
collect_snapshot-IsMap td (failed ∷ items) m found h e = cc

pub snapshot_interfaces-IsMap :
    (to_decimal : ℕ → Text) (links : Option (List LinkItem)) (found : Map ℕ LinkSnapshot)
    → snapshot_interfaces to_decimal links ≡ ok found
    → IsMap found
unfolding snapshot_interfaces
snapshot_interfaces-IsMap td none found e =
    let same : ◌≡◌ {A = Map ℕ LinkSnapshot} [] found = cc in subst (λ m. IsMap m) same tt
snapshot_interfaces-IsMap td (some items) found e = collect_snapshot-IsMap td items [] found tt e

-- Of two polls that see the same links, the second reports nothing, if the first succeeds.
pub poll_changes_again :
    (to_decimal : ℕ → Text) (links : Option (List LinkItem)) (m : NetlinkMonitor)
    → (events : List NetworkEvent)
    → (poll_changes (snapshot_interfaces to_decimal links) m).0 ≡ ok events
    → (poll_changes
        (snapshot_interfaces to_decimal links)
        (poll_changes (snapshot_interfaces to_decimal links) m).1).0
      ≡ ok []
unfolding poll_changes
poll_changes_again td links m events h = again (snapshot_interfaces td links) refl
  where
    again :
        (r : Result (Map ℕ LinkSnapshot))
        → snapshot_interfaces td links ≡ r
        → (poll_changes
            (snapshot_interfaces td links)
            (poll_changes (snapshot_interfaces td links) m).1).0
          ≡ ok []
    again (err e) same = absurd (ground arith)
    again (ok found) same =
        let held = IsMap-Holds found (snapshot_interfaces-IsMap td links found same) in
        rw same (rw (detect_changes_same found found held, detect_removed_same found found held))
