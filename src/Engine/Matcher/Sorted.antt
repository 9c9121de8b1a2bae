-- ===== src/Engine/Matcher/Sorted.antt =====
-- src/engine/matcher.rs: all rules that match, in the order of their priorities.
use nic_autoswitch.Common.{
  ℕ, ◌≤◌, ◌≡◌, refl, inl, inr, Option, none, some, List, [], ◌∷◌, arith, ltb, leb, if◌then◌else◌,
  Bool-cases, Text-eq, ℕ-eq, All,
}
use nic_autoswitch.Ip.{IpAddr-eq, IpNetwork-eq, IpCrate}
use nic_autoswitch.Config.{RouteRule, RouteRule-eq}
use nic_autoswitch.Engine.Matcher.{
  Destination, insert_rule, sort_by_priority, rule_matches, find_best, matching,
}
use mathlib.Core.List.{Perm}
use mathlib.Core.List.Perm

abbrev pub IsSorted : List RouteRule → Type 0
IsSorted [] = Unit
IsSorted (r ∷ l) = All (λ s. r.priority ≤ s.priority) l × IsSorted l

All-insert_rule :
    (n : ℕ) (r : RouteRule) (l : List RouteRule)
    → n ≤ r.priority
    → All (λ s. n ≤ s.priority) l
    → All (λ s. n ≤ s.priority) (insert_rule r l)
unfolding insert_rule
All-insert_rule n r [] h k = (h, tt)
All-insert_rule n r (s ∷ l) h (p, k) = elim (Bool-cases (leb r.priority s.priority)) [
  | inl le ↦ rw le (h, (p, k))
  | inr gt ↦ rw gt (p, All-insert_rule n r l h k)
]

All-le :
    (m n : ℕ) (l : List RouteRule)
    → m ≤ n
    → All (λ s. n ≤ s.priority) l
    → All (λ s. m ≤ s.priority) l
All-le m n [] h k = tt
All-le m n (s ∷ l) h (p, k) = (omega arith, All-le m n l h k)

insert_rule-IsSorted :
    (r : RouteRule) (l : List RouteRule) → IsSorted l → IsSorted (insert_rule r l)
unfolding insert_rule
insert_rule-IsSorted r [] h = (tt, tt)
insert_rule-IsSorted r (s ∷ l) (p, h) = elim (Bool-cases (leb r.priority s.priority)) [
  | inl le ↦ rw le ((ground arith, All-le r.priority s.priority l (ground arith) p), (p, h))
  | inr gt ↦ rw gt (All-insert_rule s.priority r l (ground arith) p, insert_rule-IsSorted r l h)
]

pub sort_by_priority-IsSorted : (l : List RouteRule) → IsSorted (sort_by_priority l)
unfolding sort_by_priority
sort_by_priority-IsSorted [] = tt
sort_by_priority-IsSorted (r ∷ l) =
    insert_rule-IsSorted r (sort_by_priority l) (sort_by_priority-IsSorted l)

insert_rule-perm : (r : RouteRule) (l : List RouteRule) → Perm (insert_rule r l) (r ∷ l)
unfolding insert_rule
insert_rule-perm r [] = Perm.refl (r ∷ [])
insert_rule-perm r (s ∷ l) = elim (Bool-cases (leb r.priority s.priority)) [
  | inl le ↦ rw le (Perm.refl (r ∷ s ∷ l))
  | inr gt ↦ rw gt (Perm.trans (Perm.cons s (insert_rule-perm r l)) (Perm.swap r s l))
]

pub sort_by_priority-perm : (l : List RouteRule) → Perm (sort_by_priority l) l
unfolding sort_by_priority
sort_by_priority-perm [] = Perm.refl []
sort_by_priority-perm (r ∷ l) =
    Perm.trans (insert_rule-perm r (sort_by_priority l)) (Perm.cons r (sort_by_priority-perm l))

-- The head of the rest wins over `start` if it is below the limit.
abbrev pub override : Option RouteRule → ℕ → Option RouteRule → Option RouteRule
override start limit none = start
override start limit (some s) = if ltb s.priority limit then some s else start

abbrev pub first : List RouteRule → Option RouteRule
first [] = none
first (r ∷ l) = some r

first-insert_rule :
    (r : RouteRule) (l : List RouteRule)
    → first (insert_rule r l) ≡ override (some r) r.priority (first l)
unfolding insert_rule
first-insert_rule r [] = refl
first-insert_rule r (s ∷ l) = ground arith

module _ (net : IpCrate) (d : Destination) where
  override-step :
      (r : RouteRule) (start : Option RouteRule) (limit : ℕ) (o : Option RouteRule)
      → (if ltb r.priority limit then override (some r) r.priority o else override start limit o)
        ≡ override start limit (override (some r) r.priority o)
  override-step r start limit none = ground arith
  override-step r start limit (some s) = ground arith

  pub find_best-first :
      (rules : List RouteRule) (start : Option RouteRule) (limit : ℕ)
      → find_best net d rules start limit
        ≡ override start limit (first (sort_by_priority (matching net d rules)))
  unfolding find_best matching sort_by_priority
  find_best-first [] start limit = refl
  find_best-first (r ∷ rs) start limit = elim (Bool-cases (rule_matches net r d)) [
    | inr other ↦ rw other (find_best-first rs start limit)
    | inl here ↦
        let rest = first (sort_by_priority (matching net d rs)) in
        rw here (
          ground (
            arith,
            find_best-first rs start limit,
            find_best-first rs (some r) r.priority,
            first-insert_rule r (sort_by_priority (matching net d rs)),
            override-step r start limit rest,
          ))
  ]
