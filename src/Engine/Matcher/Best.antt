-- ===== src/Engine/Matcher/Best.antt =====
-- src/engine/matcher.rs: the rule that a direct match finds.
use nic_autoswitch.Common.{
  ℕ, ◌≤◌, ◌<◌, ◌≡◌, refl, inl, inr, true, ◌&&◌, Option, none, some, List, [], ◌∷◌, arith, ltb,
  Bool-cases, Text-eq, ℕ-eq, All,
}
use nic_autoswitch.Ip.{IpAddr-eq, IpNetwork-eq, IpCrate}
use nic_autoswitch.Config.{RouteRule}
use nic_autoswitch.Engine.Matcher.{Destination, rule_matches, find_best, find_direct_match}
use mathlib.Core.List.{Memᴰ}

abbrev pub max_priority : ℕ
max_priority = 4294967295

module _ (net : IpCrate) (d : Destination) where
  -- The priorities of all rules of the list that match are at least `n`.
  abbrev pub AtLeast : ℕ → List RouteRule → Type 0
  AtLeast n rules = All (λ r. rule_matches net r d ≡ true → n ≤ r.priority) rules

  -- `found` is in the list and matches, below the limit, and no matching rule is better.
  pub record IsBest (rules : List RouteRule) (limit : ℕ) (found : RouteRule) : Type 0 where
    pub member : Memᴰ found rules
    pub matches : rule_matches net found d ≡ true
    pub below : found.priority < limit
    pub best : AtLeast found.priority rules

  data Outcome (rules : List RouteRule) (start : Option RouteRule) (limit : ℕ)
      (result : Option RouteRule) : Type 0 where
    kept : result ≡ start → AtLeast limit rules → Outcome rules start limit result
    improved :
        (r : RouteRule) → result ≡ some r → IsBest rules limit r → Outcome rules start limit result

  AtLeast-mono : (rules : List RouteRule) (m n : ℕ) → m ≤ n → AtLeast n rules → AtLeast m rules
  AtLeast-mono [] m n h a = tt
  AtLeast-mono (r ∷ rs) m n h (p, a) = (λ e. ground (arith, p e), AtLeast-mono rs m n h a)

  -- A rule that matches and is better than the limit, before the rest of the list.
  after_better :
      {r : RouteRule} {rs : List RouteRule} {start result : Option RouteRule} {limit : ℕ}
      → rule_matches net r d ≡ true
      → r.priority < limit
      → Outcome rs (some r) r.priority result
      → Outcome (r ∷ rs) start limit result
  after_better {r} {rs} m lt (kept e a) =
      improved r e
        (record { member = Memᴰ.head refl; matches = m; below = lt; best = (λ _. omega arith, a) })
  after_better m lt (improved s e b) = improved s e (record {
    member = Memᴰ.tail b.member;
    matches = b.matches;
    below = omega (arith, b.below);
    best = (λ _. omega (arith, b.below), b.best);
  })

  after_other :
      {r : RouteRule} {rs : List RouteRule} {start result : Option RouteRule} {limit : ℕ}
      → (rule_matches net r d ≡ true → limit ≤ r.priority)
      → Outcome rs start limit result
      → Outcome (r ∷ rs) start limit result
  after_other {r} {rs} {limit} no_better (kept e a) = kept e (no_better, a)
  after_other {r} {rs} {limit} no_better (improved s e b) = improved s e (record {
    member = Memᴰ.tail b.member;
    matches = b.matches;
    below = b.below;
    best = (λ m. omega (arith, b.below, no_better m), b.best);
  })

  find_best-Outcome :
      (rules : List RouteRule) (start : Option RouteRule) (limit : ℕ)
      → Outcome rules start limit (find_best net d rules start limit)
  unfolding find_best
  find_best-Outcome [] start limit = kept refl tt
  find_best-Outcome (r ∷ rs) start limit =
      elim (Bool-cases (rule_matches net r d && ltb r.priority limit)) [
        | inl better ↦
            rw better (
              after_better (ground arith) (ground arith) (find_best-Outcome rs (some r) r.priority))
        | inr other ↦ rw other (after_other (λ m. ground arith) (find_best-Outcome rs start limit))
      ]

  found-IsBest :
      (rules : List RouteRule) (limit : ℕ) (r : RouteRule)
      → Outcome rules none limit (some r)
      → IsBest rules limit r
  found-IsBest rules limit r (kept e a) = cc
  found-IsBest rules limit r (improved s e b) = let same : s ≡ r = cc in rw same at b

  not_found :
      (rules : List RouteRule) (limit : ℕ) → Outcome rules none limit none → AtLeast limit rules
  not_found rules limit (kept e a) = a
  not_found rules limit (improved s e b) = cc

  -- A rule that is found is one of the rules, matches, has a priority below 2^32 - 1, and no other
  -- matching rule has a smaller priority.
  pub find_direct_match-IsBest :
      (rules : List RouteRule) (r : RouteRule)
      → find_direct_match net d rules ≡ some r
      → IsBest rules max_priority r
  unfolding find_direct_match
  find_direct_match-IsBest rules r h =
      found-IsBest rules max_priority r (rw h at (find_best-Outcome rules none max_priority))

  -- If no rule is found, then every rule that matches has a priority of at least 2^32 - 1.
  pub find_direct_match-none :
      (rules : List RouteRule) → find_direct_match net d rules ≡ none → AtLeast max_priority rules
  unfolding find_direct_match
  find_direct_match-none rules h =
      not_found rules max_priority (rw h at (find_best-Outcome rules none max_priority))
