-- ===== src/Engine/Dispatcher/Names.antt =====
-- src/engine/dispatcher.rs: the rules by name that are removed when an interface goes down.
use mathlib.Core.List.{Memᴰ}
use nic_autoswitch.Common.{
  ◌≡◌, refl, sym, ap, ◌∙◌, ◌≢◌, inl, inr, Option, none, some, List, [], ◌∷◌, ◌++◌, arith,
  if◌then◌else◌, Option-cases, Text, ◌==◌, Text-eq, ℕ-eq, Map, values, get, insert, get-insert,
}
use nic_autoswitch.Config.{Config, RouteRule, WifiProfile}
use nic_autoswitch.Engine.Dispatcher.Apply.{insert_rules, insert_profiles, rules_map}

abbrev or_else : Option RouteRule → Option RouteRule → Option RouteRule
or_else none o = o
or_else (some r) o = some r

-- The last rule of a name.
abbrev pub last_named : Text → List RouteRule → Option RouteRule
last_named n [] = none
last_named n (r ∷ rs) = or_else (last_named n rs) (if r.name == n then some r else none)

abbrev pub profile_rules : List WifiProfile → List RouteRule
profile_rules [] = []
profile_rules (p ∷ ps) = p.rules ++ profile_rules ps

-- The default rules and those of the profiles, in the order of the configuration.
abbrev pub rules_of : Config → List RouteRule
rules_of c = c.routing.default_rules ++ profile_rules (values c.wifi_profiles)

get-insert_rules :
    (n : Text) (rs : List RouteRule) (m : Map Text RouteRule)
    → get n (insert_rules rs m) ≡ or_else (last_named n rs) (get n m)
unfolding insert_rules
get-insert_rules n [] m = refl
get-insert_rules n (r ∷ rs) m =
    ground (arith, get-insert_rules n rs (insert r.name r m), get-insert r.name n r m)

last_named-append :
    (n : Text) (rs ss : List RouteRule)
    → last_named n (rs ++ ss) ≡ or_else (last_named n ss) (last_named n rs)
last_named-append n [] ss = ground arith
last_named-append n (r ∷ rs) ss = ground (arith, last_named-append n rs ss)

get-insert_profiles :
    (n : Text) (ps : List WifiProfile) (m : Map Text RouteRule)
    → get n (insert_profiles ps m) ≡ or_else (last_named n (profile_rules ps)) (get n m)
unfolding insert_profiles
get-insert_profiles n [] m = refl
get-insert_profiles n (p ∷ ps) m = ground (
  arith,
  get-insert_profiles n ps (insert_rules p.rules m),
  get-insert_rules n p.rules m,
  last_named-append n p.rules (profile_rules ps),
)

-- A name stands for the last rule of that name.
pub get-rules_map : (n : Text) (c : Config) → get n (rules_map c) ≡ last_named n (rules_of c)
unfolding rules_map get
get-rules_map n c = ground (
  arith,
  get-insert_profiles n (values c.wifi_profiles) (insert_rules c.routing.default_rules []),
  get-insert_rules n c.routing.default_rules [],
  last_named-append n c.routing.default_rules (profile_rules (values c.wifi_profiles)),
)

-- No two of the rules share a name.
abbrev pub Distinct : List RouteRule → Type 0
Distinct [] = Unit
Distinct (r ∷ rs) = ((s : RouteRule) → Memᴰ s rs → s.name ≢ r.name) × Distinct rs

pub last_named-Mem :
    (n : Text) (rs : List RouteRule) (r : RouteRule)
    → last_named n rs ≡ some r
    → Memᴰ r rs × (r.name ≡ n)
last_named-Mem n [] r h = cc
last_named-Mem n (s ∷ rs) r h = elim (Option-cases (last_named n rs)) [
  | inr (r', found) ↦
      let same : r' ≡ r = ground (arith, found) in
      let (m, e) = last_named-Mem n rs r (found ∙ ap some same) in (Memᴰ.tail m, e)
  | inl missing ↦
      let same : s ≡ r = ground (arith, missing) in (Memᴰ.head (sym same), ground (arith, missing))
]

pub Mem-last_named :
    (rs : List RouteRule) (r : RouteRule) → Distinct rs → Memᴰ r rs → last_named r.name rs ≡ some r
Mem-last_named [] r d m = elim m [ ]
Mem-last_named (s ∷ rs) r d (Memᴰ.tail m) = rw (Mem-last_named rs r d.1 m) refl
Mem-last_named (s ∷ rs) r d (Memᴰ.head e) = elim (Option-cases (last_named r.name rs)) [
  | inr (r', found) ↦
      let (m, same) = last_named-Mem r.name rs r' found in
      absurd (d.0 r' m (same ∙ ap (λ (x : RouteRule). x.name) e))
  | inl missing ↦ ground (arith, missing)
]

-- If two profiles have rules of one name, then the order in which the profiles come decides which of the
-- rules the name stands for.
pub rules_map-order :
    (n s t : Text) (p q : WifiProfile) (c : Config) (r r' : RouteRule)
    → last_named n p.rules ≡ some r
    → last_named n q.rules ≡ some r'
    → (get n (rules_map (record c { wifi_profiles = (s, p) ∷ (t, q) ∷ [] })) ≡ some r')
      × (get n (rules_map (record c { wifi_profiles = (t, q) ∷ (s, p) ∷ [] })) ≡ some r)
unfolding values
rules_map-order n s t p q c r r' hp hq = (
  get-rules_map n (record c { wifi_profiles = (s, p) ∷ (t, q) ∷ [] }) ∙ ordered p q r' hq,
  get-rules_map n (record c { wifi_profiles = (t, q) ∷ (s, p) ∷ [] }) ∙ ordered q p r hp,
)
  where
    ordered :
        (a b : WifiProfile) (x : RouteRule)
        → last_named n b.rules ≡ some x
        → last_named n (c.routing.default_rules ++ (a.rules ++ (b.rules ++ []))) ≡ some x
    ordered a b x h = ground (
      arith,
      last_named-append n c.routing.default_rules (a.rules ++ (b.rules ++ [])),
      last_named-append n a.rules (b.rules ++ []),
      last_named-append n b.rules [],
    )
