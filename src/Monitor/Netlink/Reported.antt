-- ===== src/Monitor/Netlink/Reported.antt =====
-- src/monitor/netlink.rs: which events a poll reports.
use mathlib.Core.List.{Memᴰ}
use nic_autoswitch.Common.{
  ℕ, ◌≡◌, ◌↔◌, ◌⊎◌, inl, inr, true, false, Option, none, some, List, [], ◌∷◌, ◌++◌, arith,
  ℕ_discrete, Bool-cases, Option-cases, Text, Text-eq, ℕ-eq, All, Mem-append, append-Mem, Map, get,
  contains_key, IsMap,
}
use nic_autoswitch.Error.{ok}
use nic_autoswitch.Monitor.Events.{up, down, removed, NetworkEvent}
use nic_autoswitch.Monitor.Netlink.{
  LinkSnapshot, LinkItem, snapshot_interfaces, NetlinkMonitor, transition, detect_changes,
  detect_removed, poll_changes,
}
use nic_autoswitch.Monitor.Netlink.Polling.{Holds, IsMap-Holds, snapshot_interfaces-IsMap}

-- The event of one index, by what was seen of it before and what is seen now.
abbrev pub Reported : (before now : Option LinkSnapshot) → NetworkEvent → Type 0
Reported none none e = ⊥
Reported (some before) none e = e ≡ NetworkEvent.interface_changed before.name removed
Reported none (some now) e = (now.is_up ≡ true) × (e ≡ NetworkEvent.interface_changed now.name up)
Reported (some before) (some now) e =
    ((before.is_up ≡ false) × (now.is_up ≡ true) × (e ≡ NetworkEvent.interface_changed now.name up))
    ⊎ ((before.is_up ≡ true)
        × (now.is_up ≡ false)
        × (e ≡ NetworkEvent.interface_changed now.name down))

first_or_later : {A : Type 0} {x y : A} {l : List A} → Memᴰ x (y ∷ l) → (x ≡ y) ⊎ Memᴰ x l
first_or_later (Memᴰ.head e) = inl e
first_or_later (Memᴰ.tail m) = inr m

single : {A : Type 0} {x y : A} → Memᴰ x (y ∷ []) → x ≡ y
single (Memᴰ.head e) = e
single (Memᴰ.tail m) = elim m [ ]

transition_sound :
    (before : Option LinkSnapshot) (now : LinkSnapshot) (e : NetworkEvent)
    → Memᴰ e (transition before now)
    → Reported before (some now) e
unfolding transition
transition_sound none now e m = elim (Bool-cases now.is_up) [
  | inl on ↦ (on, single (rw on at m))
  | inr off ↦ elim (rw off at m) [ ]
]
transition_sound (some before) now e m = elim (Bool-cases before.is_up) [
  | inl was_on ↦ elim (Bool-cases now.is_up) [
    | inl on ↦ elim (rw (was_on, on) at m) [ ]
    | inr off ↦ inr (was_on, off, single (rw (was_on, off) at m))
  ]
  | inr was_off ↦ elim (Bool-cases now.is_up) [
    | inl on ↦ inl (was_off, on, single (rw (was_off, on) at m))
    | inr off ↦ elim (rw (was_off, off) at m) [ ]
  ]
]

transition_complete :
    (before : Option LinkSnapshot) (now : LinkSnapshot) (e : NetworkEvent)
    → Reported before (some now) e
    → Memᴰ e (transition before now)
unfolding transition
transition_complete none now e (on, same) = rw on (Memᴰ.head same)
transition_complete (some before) now e (inl (off, on, same)) = rw (off, on) (Memᴰ.head same)
transition_complete (some before) now e (inr (on, off, same)) = rw (on, off) (Memᴰ.head same)

found_first :
    (i j : ℕ) (t s : LinkSnapshot) (l : Map ℕ LinkSnapshot)
    → j ≡ i
    → get i ((j, t) ∷ l) ≡ some s
    → t ≡ s
unfolding get ℕ_discrete
found_first i j t s l same found =
    let head : ◌≡◌ {A = Option LinkSnapshot} (some t) (some s) = ground arith in cc

module _ (prev current : Map ℕ LinkSnapshot) (e : NetworkEvent) where
  abbrev pub SomeReported : Type 0
  SomeReported = (i : ℕ) × Reported (get i prev) (get i current) e

  changes_sound :
      (l : Map ℕ LinkSnapshot)
      → All (Holds current) l
      → Memᴰ e (detect_changes prev l)
      → SomeReported
  unfolding detect_changes
  changes_sound [] h m = elim m [ ]
  changes_sound ((i, s) ∷ l) (here, h) m = elim (append-Mem e _ _ m) [
    | inl now ↦ (i, rw here (transition_sound (get i prev) s e now))
    | inr later ↦ changes_sound l h later
  ]

  changes_complete :
      (l : Map ℕ LinkSnapshot) (i : ℕ) (s : LinkSnapshot)
      → get i l ≡ some s
      → Memᴰ e (transition (get i prev) s)
      → Memᴰ e (detect_changes prev l)
  unfolding detect_changes get
  changes_complete [] i s found m = cc
  changes_complete ((j, t) ∷ l) i s found m = elim (ℕ_discrete j i) [
    | yes same ↦
        let first : t ≡ s = found_first i j t s l same found in
        Mem-append e (transition (get j prev) t) (detect_changes prev l) (inl (rw (same, first) m))
    | no other ↦
        Mem-append e (transition (get j prev) t) (detect_changes prev l)
          (inr (changes_complete l i s (ground arith) m))
  ]

  removed_sound :
      (l : Map ℕ LinkSnapshot)
      → All (Holds prev) l
      → Memᴰ e (detect_removed current l)
      → SomeReported
  unfolding detect_removed
  removed_sound [] h m = elim m [ ]
  removed_sound ((i, s) ∷ l) (here, h) m = elim (Option-cases (get i current)) [
    | inl gone ↦ elim (first_or_later (rw gone at m)) [
      | inl this ↦ (i, rw (here, gone) this)
      | inr later ↦ removed_sound l h later
    ]
    | inr (t, there) ↦ removed_sound l h (rw there at m)
  ]

  removed_complete :
      (l : Map ℕ LinkSnapshot) (i : ℕ) (s : LinkSnapshot)
      → get i l ≡ some s
      → get i current ≡ none
      → e ≡ NetworkEvent.interface_changed s.name removed
      → Memᴰ e (detect_removed current l)
  unfolding detect_removed get
  removed_complete [] i s found gone same = cc
  removed_complete ((j, t) ∷ l) i s found gone same = elim (ℕ_discrete j i) [
    | yes equal ↦
        let first : t ≡ s = found_first i j t s l equal found in
        rw (equal, gone, first) (Memᴰ.head same)
    | no other ↦
        let later = removed_complete l i s (ground arith) gone same in
        elim (Bool-cases (contains_key j current)) [
          | inl there ↦ rw there later
          | inr lost ↦ rw lost (Memᴰ.tail later)
        ]
  ]

  changes_iff :
      IsMap prev
      → IsMap current
      → Memᴰ e (detect_changes prev current ++ detect_removed current prev) ↔ SomeReported
  changes_iff p c = (
    λ m. elim (append-Mem e _ _ m) [
      | inl change ↦ changes_sound current (IsMap-Holds current c) change
      | inr removal ↦ removed_sound prev (IsMap-Holds prev p) removal
    ],
    λ h. Mem-append e (detect_changes prev current) (detect_removed current prev) (of_index h),
  )
    where
      of_index :
          SomeReported → Memᴰ e (detect_changes prev current) ⊎ Memᴰ e (detect_removed current prev)
      of_index (i, h) = elim (Option-cases (get i current)) [
        | inr (s, there) ↦ inl (
            changes_complete current i s there
              (transition_complete (get i prev) s e (rw there at h)))
        | inl gone ↦ elim (Option-cases (get i prev)) [
          | inl never ↦ absurd (rw (never, gone) at h)
          | inr (s, was) ↦ inr (removed_complete prev i s was gone (rw (was, gone) at h))
        ]
      ]

-- If a poll succeeds, then it reports the events of the indices that were seen before or are seen
-- now, and no other: `Up` where an interface was not up and is now, `Down` where it was and is not,
-- and `Removed` where it is not seen any more, up or not.
pub poll_changes_iff :
    (to_decimal : ℕ → Text) (links : Option (List LinkItem)) (m : NetlinkMonitor)
    (current : Map ℕ LinkSnapshot) (events : List NetworkEvent) (e : NetworkEvent)
    → IsMap m.prev_state
    → snapshot_interfaces to_decimal links ≡ ok current
    → (poll_changes (snapshot_interfaces to_decimal links) m).0 ≡ ok events
    → Memᴰ e events ↔ SomeReported m.prev_state current e
unfolding poll_changes
poll_changes_iff td links m current events e p seen polled =
    let c = snapshot_interfaces-IsMap td links current seen in
    let same : detect_changes m.prev_state current ++ detect_removed current m.prev_state ≡ events =
      cc in
    rw (← same) (changes_iff m.prev_state current e p c)
