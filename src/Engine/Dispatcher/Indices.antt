-- ===== src/Engine/Dispatcher/Indices.antt =====
-- src/engine/dispatcher.rs: the indices of interfaces, and so their routing tables.
use nic_autoswitch.Engine.Executor.{table_id_v4}
use nic_autoswitch.Common.{
  ℕ, suc, ◌+◌, ◌%◌, ◌≤◌, ◌<◌, ◌≡◌, refl, ap, ◌≢◌, inl, inr, true, false, none, some, List, [], ◌∷◌,
  arith, ltb, if◌then◌else◌, Bool-cases, Option-cases, Text, ◌==◌, Text-eq, ℕ-eq, length, Map, keys,
  get, insert, get-insert,
}
use nic_autoswitch.Config.{RouteRule-eq, Config}
use nic_autoswitch.Router.Manager.{RouteManager}
use nic_autoswitch.Router.Manager
use nic_autoswitch.Engine.Dispatcher.State.{
  EventDispatcher, assign_indices, new_dispatcher, index_of_interface, get_table_id_for_interface,
  rebuild_indices, update_config,
}

-- Two interfaces never share an index.
abbrev pub IsInjective : Map Text ℕ → Type 0
IsInjective m = (a b : Text) (i : ℕ) → get a m ≡ some i → get b m ≡ some i → a ≡ b

abbrev pub IsBelow : ℕ → Map Text ℕ → Type 0
IsBelow n m = (a : Text) (i : ℕ) → get a m ≡ some i → i < n

pub insert-IsInjective :
    (name : Text) (n : ℕ) (m : Map Text ℕ)
    → IsInjective m
    → IsBelow n m
    → IsInjective (insert name n m)
insert-IsInjective name n m inj below a b i ha hb =
    ground (arith, get-insert name a n m, get-insert name b n m, inj a b i, below a i, below b i)

pub insert-IsBelow :
    (name : Text) (n limit : ℕ) (m : Map Text ℕ)
    → n < limit
    → IsBelow limit m
    → IsBelow limit (insert name n m)
insert-IsBelow name n limit m h below a i ha = ground (arith, get-insert name a n m, below a i)

pub IsBelow-mono : (m : Map Text ℕ) (n l : ℕ) → n ≤ l → IsBelow n m → IsBelow l m
IsBelow-mono m n l h below a i e = omega (arith, below a i e)

assign_indices-IsInjective :
    (names : List Text) (idx : ℕ) (m : Map Text ℕ)
    → IsInjective m
    → IsBelow idx m
    → IsBelow 255 m
    → IsInjective (assign_indices names idx m) × IsBelow 255 (assign_indices names idx m)
unfolding assign_indices
assign_indices-IsInjective [] idx m inj below low = (inj, low)
assign_indices-IsInjective (name ∷ names) idx m inj below low = elim (Bool-cases (ltb idx 255)) [
  | inr over ↦ rw over (
      assign_indices-IsInjective names (suc idx) m inj
        (IsBelow-mono m idx (suc idx) (omega arith) below) low)
  | inl fits ↦
      let small : idx % 256 ≡ idx = ground arith in
      rw (fits, small)
        (assign_indices-IsInjective names (suc idx) (insert name idx m)
          (insert-IsInjective name idx m inj below)
          (insert-IsBelow name idx (suc idx) m (omega arith)
            (IsBelow-mono m idx (suc idx) (omega arith) below))
          (insert-IsBelow name idx 255 m (ground arith) low))
]

-- In a new dispatcher no two interfaces share an index, and every index is below 255.
pub new_dispatcher-IsInjective :
    (c : Config) (rm : RouteManager)
    → IsInjective (new_dispatcher c rm).interface_indices
      × IsBelow 255 (new_dispatcher c rm).interface_indices
unfolding new_dispatcher
new_dispatcher-IsInjective c rm =
    assign_indices-IsInjective (keys c.interfaces) 0 [] (λ a b i ha hb. unfold get in cc)
      (λ a i ha. unfold get in absurd (ground arith))
      (λ a i ha. unfold get in absurd (ground arith))

pub length-insert :
    (name : Text) (n : ℕ) (m : Map Text ℕ)
    → get name m ≡ none
    → length (insert name n m) ≡ suc (length m)
unfolding insert get
length-insert name n [] h = refl
length-insert name n ((j, i) ∷ m) h = ground (arith, length-insert name n m)

index_executor : (a : Text) (d : EventDispatcher) → (index_of_interface a d).1.executor ≡ d.executor
unfolding index_of_interface
index_executor a d = ground arith

-- What is known of the indices after an interface was asked for.
record IsAsked (a : Text) (idx : ℕ) (m : Map Text ℕ) : Type 0 where
  found : get a m ≡ some idx
  injective : IsInjective m
  below : IsBelow (length m) m
  small : length m < 256

index-IsAsked :
    (a : Text) (d : EventDispatcher)
    → IsInjective d.interface_indices
    → IsBelow (length d.interface_indices) d.interface_indices
    → length d.interface_indices + 1 < 256
    → IsAsked a (index_of_interface a d).0 (index_of_interface a d).1.interface_indices
unfolding index_of_interface
index-IsAsked a d inj below small = elim (Option-cases (get a d.interface_indices)) [
  | inr (i, old) ↦
      rw (old, index_of_interface)
        (record { found = old; injective = inj; below = below; small = omega (arith, small) })
  | inl new ↦
      let n = length d.interface_indices in
      let small_n : n % 256 ≡ n = ground arith in
      rw (new, index_of_interface, small_n)
        (record {
          found = rw get-insert (ground arith);
          injective = insert-IsInjective a n d.interface_indices inj below;
          below = rw (length-insert a n d.interface_indices new) (
              insert-IsBelow a n (suc n) d.interface_indices (omega arith)
                (IsBelow-mono d.interface_indices n (suc n) (omega arith) below));
          small = rw (length-insert a n d.interface_indices new) (omega arith);
        })
]

index_ne :
    (a b : Text) (idx : ℕ) (d : EventDispatcher)
    → a ≢ b
    → IsAsked a idx d.interface_indices
    → (index_of_interface b d).0 ≢ idx
unfolding index_of_interface
index_ne a b idx d ne asked = elim (Option-cases (get b d.interface_indices)) [
  | inr (i, old) ↦
      rw (old, index_of_interface) (λ e. ne (asked.injective a b idx asked.found (ground arith)))
  | inl new ↦
      let n = length d.interface_indices in
      let below_n = asked.below a idx asked.found in
      let small_n : n % 256 ≡ n = ground (arith, asked.small) in
      rw (new, index_of_interface, small_n) (omega (arith, below_n))
]

get_table_id_lem :
    (a : Text) (d : EventDispatcher)
    → (get_table_id_for_interface a d).0
      ≡ d.executor.route_manager.base_table_id + (index_of_interface a d).0
unfolding get_table_id_for_interface table_id_v4 Manager.table_id_v4
get_table_id_lem a d = rw index_executor refl

-- If no two interfaces share an index, and every index is below the number of indices, which is
-- below 255, then a second interface that is asked for gets a table other than that of the first.
pub get_table_id_ne :
    (a b : Text) (d : EventDispatcher)
    → a ≢ b
    → IsInjective d.interface_indices
    → IsBelow (length d.interface_indices) d.interface_indices
    → length d.interface_indices + 1 < 256
    → (get_table_id_for_interface b (get_table_id_for_interface a d).1).0
      ≢ (get_table_id_for_interface a d).0
unfolding get_table_id_for_interface
get_table_id_ne a b d ne inj below small e =
    let (idx, d') = index_of_interface a d in
    index_ne a b (index_of_interface a d).0 (index_of_interface a d).1 ne
      (index-IsAsked a d inj below small)
      (omega (
        arith,
        get_table_id_lem a d,
        get_table_id_lem b (index_of_interface a d).1,
        ap (λ x. x.route_manager.base_table_id) (index_executor a d),
        e,
      ))

rebuild_lost :
    (a b : Text) → a ≢ b → rebuild_indices ((a, 0) ∷ (b, 1) ∷ []) (b ∷ []) 2 [] ≡ (b, 1) ∷ []
unfolding rebuild_indices get insert
rebuild_lost a b ab =
    let apart : (a == b) ≡ false = ground arith in
    let same : (b == b) ≡ true = ground arith in
    rw (apart, rebuild_indices) (rw (same, rebuild_indices) refl)

rebuild_gained :
    (b c : Text) → b ≢ c → rebuild_indices ((b, 1) ∷ []) (b ∷ c ∷ []) 1 [] ≡ (b, 1) ∷ (c, 1) ∷ []
unfolding rebuild_indices get insert
rebuild_gained b c bc =
    let apart : (b == c) ≡ false = ground arith in
    let same : (b == b) ≡ true = ground arith in
    rw (same, rebuild_indices)
      (rw (apart, rebuild_indices)
        (ap (λ t. if t then (c, 1) ∷ [] else (b, 1) ∷ (c, 1) ∷ []) apart))

same_index :
    (b c : Text) (d : EventDispatcher)
    → b ≢ c
    → d.interface_indices ≡ (b, 1) ∷ (c, 1) ∷ []
    → (index_of_interface c d).0 ≡ (index_of_interface b d).0
unfolding index_of_interface get
same_index b c d bc had =
    let apart : (b == c) ≡ false = ground arith in
    let same_b : (b == b) ≡ true = ground arith in
    let same_c : (c == c) ≡ true = ground arith in
    rw (had, index_of_interface) (rw (apart, same_b, same_c) refl)

-- If a and b have the indices 0 and 1, then the configuration loses a, and then it gains c after b,
-- then c gets the table of b.
pub update_config_collides :
    (a b c : Text) (lost gained : Config) (d : EventDispatcher)
    → a ≢ b
    → b ≢ c
    → d.interface_indices ≡ (a, 0) ∷ (b, 1) ∷ []
    → keys lost.interfaces ≡ b ∷ []
    → keys gained.interfaces ≡ b ∷ c ∷ []
    → (get_table_id_for_interface c (update_config gained (update_config lost d))).0
      ≡ (get_table_id_for_interface b (update_config gained (update_config lost d))).0
unfolding update_config
update_config_collides a b c lost gained d ab bc had one two =
    let first : (update_config lost d).interface_indices ≡ (b, 1) ∷ [] =
      rw (had, one) (rebuild_lost a b ab) in
    let second : (update_config gained (update_config lost d)).interface_indices
        ≡ (b, 1) ∷ (c, 1) ∷ [] =
      rw (first, two) (rebuild_gained b c bc) in
    omega (
      arith,
      get_table_id_lem c (update_config gained (update_config lost d)),
      get_table_id_lem b (update_config gained (update_config lost d)),
      same_index b c (update_config gained (update_config lost d)) bc second,
    )
