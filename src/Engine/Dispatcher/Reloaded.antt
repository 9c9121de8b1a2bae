-- ===== src/Engine/Dispatcher/Reloaded.antt =====
-- src/engine/dispatcher.rs: the indices after a reload of the configuration.
use mathlib.Core.List.{Memᴰ}
use nic_autoswitch.Common.{
  ℕ, ◌+◌, ◌≡◌, sym, ap, ◌∙◌, inl, inr, Option, none, some, List, [], ◌∷◌, arith, ltb, Bool-cases,
  Option-cases, Text, Text-discrete, Text-eq, ℕ-eq, Map, keys, get, insert, get-insert,
}
use nic_autoswitch.Config.{Config}
use nic_autoswitch.Engine.Dispatcher.State.{EventDispatcher, rebuild_indices, update_config}

module _ (existing : Map Text ℕ) (name : Text) (idx : ℕ) (old : get name existing ≡ some idx) where
  inserted : (m : Map Text ℕ) → get name (insert name idx m) ≡ some idx
  inserted m = rw get-insert (ground arith)

  keeps_old :
      (n : Text) (i : ℕ) (m : Map Text ℕ)
      → get n existing ≡ some i
      → get name m ≡ some idx
      → get name (insert n i m) ≡ some idx
  keeps_old n i m was h = elim (Text-discrete n name) [
    | yes same ↦
        let equal : ◌≡◌ {A = Option ℕ} (some i) (some idx) =
          sym was ∙ ap (λ (x : Text). get x existing) same ∙ old in
        rw get-insert (ground (arith, same, equal))
    | no other ↦ rw get-insert (ground (arith, h))
  ]

  keeps_new :
      (n : Text) (i : ℕ) (m : Map Text ℕ)
      → get n existing ≡ none
      → get name m ≡ some idx
      → get name (insert n i m) ≡ some idx
  keeps_new n i m new h = elim (Text-discrete n name) [
    | yes same ↦
        let equal : ◌≡◌ {A = Option ℕ} none (some idx) =
          sym new ∙ ap (λ (x : Text). get x existing) same ∙ old in
        cc
    | no other ↦ rw get-insert (ground (arith, h))
  ]

  rebuilt_stays :
      (l : List Text) (next : ℕ) (m : Map Text ℕ)
      → get name m ≡ some idx
      → get name (rebuild_indices existing l next m) ≡ some idx
  unfolding rebuild_indices
  rebuilt_stays [] next m h = h
  rebuilt_stays (n ∷ l) next m h = elim (Option-cases (get n existing)) [
    | inr (i, was) ↦
        rw (was, rebuild_indices) (rebuilt_stays l next (insert n i m) (keeps_old n i m was h))
    | inl new ↦ elim (Bool-cases (ltb next 255)) [
      | inl fits ↦
          rw (new, rebuild_indices, fits)
            (rebuilt_stays l (next + 1) (insert n next m) (keeps_new n next m new h))
      | inr full ↦ rw (new, rebuild_indices, full) (rebuilt_stays l next m h)
    ]
  ]

  rebuilt_has :
      (l : List Text) (next : ℕ) (m : Map Text ℕ)
      → Memᴰ name l
      → get name (rebuild_indices existing l next m) ≡ some idx
  unfolding rebuild_indices
  rebuilt_has [] next m h = elim h [ ]
  rebuilt_has (n ∷ l) next m (Memᴰ.head e) =
      rw (← e) (rw (old, rebuild_indices) (rebuilt_stays l next (insert name idx m) (inserted m)))
  rebuilt_has (n ∷ l) next m (Memᴰ.tail h) = elim (Option-cases (get n existing)) [
    | inr (i, was) ↦ rw (was, rebuild_indices) (rebuilt_has l next (insert n i m) h)
    | inl new ↦ elim (Bool-cases (ltb next 255)) [
      | inl fits ↦ rw (new, rebuild_indices, fits) (rebuilt_has l (next + 1) (insert n next m) h)
      | inr full ↦ rw (new, rebuild_indices, full) (rebuilt_has l next m h)
    ]
  ]

-- An interface that has an index, and is one of the new configuration too, keeps its index over the
-- reload.
pub update_config-keeps :
    (c : Config) (d : EventDispatcher) (name : Text) (idx : ℕ)
    → get name d.interface_indices ≡ some idx
    → Memᴰ name (keys c.interfaces)
    → get name (update_config c d).interface_indices ≡ some idx
unfolding update_config
update_config-keeps c d name idx old h =
    rebuilt_has d.interface_indices name idx old (keys c.interfaces) _ [] h
