-- ===== src/Engine/Matcher/Members.antt =====
-- src/engine/matcher.rs: members of the lists that the search for all matches builds.
use mathlib.Core.List.{Memᴰ}
use nic_autoswitch.Common.{
  ◌≡◌, refl, sym, ◌⊎◌, inl, inr, true, List, [], ◌∷◌, ◌++◌, arith, leb, Bool-cases, Text-eq, ℕ-eq,
}
use nic_autoswitch.Config.{RouteRule, RouteRule-discrete}
use nic_autoswitch.Engine.Matcher.{contains_rule, insert_rule, sort_by_priority}

under :
    {r s : RouteRule} {l l' : List RouteRule}
    → (Memᴰ r l → Memᴰ r l')
    → Memᴰ r (s ∷ l)
    → Memᴰ r (s ∷ l')
under f (Memᴰ.head e) = Memᴰ.head e
under f (Memᴰ.tail m) = Memᴰ.tail (f m)

swap : {r s t : RouteRule} {l : List RouteRule} → Memᴰ r (s ∷ t ∷ l) → Memᴰ r (t ∷ s ∷ l)
swap (Memᴰ.head e) = Memᴰ.tail (Memᴰ.head e)
swap (Memᴰ.tail (Memᴰ.head e)) = Memᴰ.head e
swap (Memᴰ.tail (Memᴰ.tail m)) = Memᴰ.tail (Memᴰ.tail m)

Mem-insert_rule : (r s : RouteRule) (l : List RouteRule) → Memᴰ r (s ∷ l) → Memᴰ r (insert_rule s l)
unfolding insert_rule
Mem-insert_rule r s [] m = m
Mem-insert_rule r s (t ∷ l) m = elim (Bool-cases (leb s.priority t.priority)) [
  | inl first ↦ rw first m
  | inr later ↦ rw later (under (Mem-insert_rule r s l) (swap m))
]

insert_rule-Mem : (r s : RouteRule) (l : List RouteRule) → Memᴰ r (insert_rule s l) → Memᴰ r (s ∷ l)
unfolding insert_rule
insert_rule-Mem r s [] m = m
insert_rule-Mem r s (t ∷ l) m = elim (Bool-cases (leb s.priority t.priority)) [
  | inl first ↦ rw first at m
  | inr later ↦ swap (under (insert_rule-Mem r s l) (rw later at m))
]

pub Mem-sort : (r : RouteRule) (l : List RouteRule) → Memᴰ r l → Memᴰ r (sort_by_priority l)
unfolding sort_by_priority
Mem-sort r [] m = m
Mem-sort r (s ∷ l) m = Mem-insert_rule r s (sort_by_priority l) (under (Mem-sort r l) m)

pub sort-Mem : (r : RouteRule) (l : List RouteRule) → Memᴰ r (sort_by_priority l) → Memᴰ r l
unfolding sort_by_priority
sort-Mem r [] m = m
sort-Mem r (s ∷ l) m = under (sort-Mem r l) (insert_rule-Mem r s (sort_by_priority l) m)

pub Mem-append_left : (r s : RouteRule) (l : List RouteRule) → Memᴰ r l → Memᴰ r (l ++ s ∷ [])
Mem-append_left r s [] m = elim m [ ]
Mem-append_left r s (t ∷ l) (Memᴰ.head e) = Memᴰ.head e
Mem-append_left r s (t ∷ l) (Memᴰ.tail m) = Memᴰ.tail (Mem-append_left r s l m)

pub Mem-append_last : (s : RouteRule) (l : List RouteRule) → Memᴰ s (l ++ s ∷ [])
Mem-append_last s [] = Memᴰ.head refl
Mem-append_last s (t ∷ l) = Memᴰ.tail (Mem-append_last s l)

pub append-Mem : (r s : RouteRule) (l : List RouteRule) → Memᴰ r (l ++ s ∷ []) → Memᴰ r l ⊎ (r ≡ s)
append-Mem r s [] (Memᴰ.head e) = inr e
append-Mem r s [] (Memᴰ.tail m) = elim m [ ]
append-Mem r s (t ∷ l) (Memᴰ.head e) = inl (Memᴰ.head e)
append-Mem r s (t ∷ l) (Memᴰ.tail m) = elim (append-Mem r s l m) [
  | inl inside ↦ inl (Memᴰ.tail inside)
  | inr last ↦ inr last
]

pub contains_rule-Mem : (l : List RouteRule) (r : RouteRule) → contains_rule l r ≡ true → Memᴰ r l
unfolding contains_rule
contains_rule-Mem [] r h = absurd (ground arith)
contains_rule-Mem (s ∷ l) r h = elim (RouteRule-discrete s r) [
  | yes e ↦ Memᴰ.head (sym e)
  | no ne ↦ Memᴰ.tail (contains_rule-Mem l r (ground arith))
]
