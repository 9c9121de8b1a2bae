-- ===== src/Engine/Dispatcher/Unordered.antt =====
-- src/engine/dispatcher.rs: an interface that goes down, whatever the order of the profiles.
use mathlib.Core.List.{Memᴰ, Permᴰ}
use mathlib.Core.List.Permᴰ
use mathlib.Core.Path.{subst}
use nic_autoswitch.Common.{
  ℕ, ◌≡◌, refl, sym, ap, ◌∙◌, ◌≢◌, inl, inr, none, some, List, [], ◌∷◌, ◌++◌, arith, Option-cases,
  Text, Text-eq, ℕ-eq, Mem-append, append-Mem, Map, values, get,
}
use nic_autoswitch.Error.{Result}
use nic_autoswitch.Ip.{IpCrate}
use nic_autoswitch.Config.{Config, RouteRule, WifiProfile}
use nic_autoswitch.Router.Kernel.{Netlink}
use nic_autoswitch.Engine.Executor.{RuleExecutor, remove_rule}
use nic_autoswitch.Engine.Dispatcher.State.{EventDispatcher}
use nic_autoswitch.Engine.Dispatcher.Apply.{
  rules_map, routes_via, remove_each, handle_interface_down,
}
use nic_autoswitch.Engine.Dispatcher.Names.{
  last_named, profile_rules, rules_of, get-rules_map, Distinct, last_named-Mem, Mem-last_named,
}

abbrev pub Profiles : Type 0
Profiles = Map Text WifiProfile

-- A rule of some profile.
abbrev InProfiles : RouteRule → Profiles → Type 0
InProfiles r m = Memᴰ r (profile_rules (values m))

moved :
    (r : RouteRule) (e : Text × WifiProfile) (m m' : Profiles)
    → (InProfiles r m → InProfiles r m')
    → InProfiles r (e ∷ m)
    → InProfiles r (e ∷ m')
unfolding values
moved r (s, p) m m' f h =
    Mem-append r p.rules (profile_rules (values m'))
      (elim (append-Mem r p.rules (profile_rules (values m)) h) [
        | inl here ↦ inl here
        | inr there ↦ inr (f there)
      ])

swapped :
    (r : RouteRule) (e e' : Text × WifiProfile) (m : Profiles)
    → InProfiles r (e ∷ e' ∷ m)
    → InProfiles r (e' ∷ e ∷ m)
unfolding values
swapped r (s, p) (t, q) m h =
    let rest = profile_rules (values m) in
    Mem-append r q.rules (p.rules ++ rest) (elim (append-Mem r p.rules (q.rules ++ rest) h) [
      | inl here ↦ inr (Mem-append r p.rules rest (inl here))
      | inr there ↦ elim (append-Mem r q.rules rest there) [
        | inl here ↦ inl here
        | inr last ↦ inr (Mem-append r p.rules rest (inr last))
      ]
    ])

-- The order of the profiles does not matter for that.
InProfiles-Permᴰ : (r : RouteRule) (m m' : Profiles) → Permᴰ m m' → InProfiles r m → InProfiles r m'
InProfiles-Permᴰ r _ _ Permᴰ.nil h = h
InProfiles-Permᴰ r (a ∷ m) (b ∷ m') (Permᴰ.cons e p) h =
    subst (λ z. InProfiles r (z ∷ m')) e (moved r a m m' (InProfiles-Permᴰ r m m' p) h)
InProfiles-Permᴰ r (a ∷ b ∷ m) (a' ∷ b' ∷ _) (Permᴰ.swap e e') h =
    subst (λ z. InProfiles r (a' ∷ z ∷ m)) e
      (subst (λ z. InProfiles r (z ∷ a ∷ m)) e' (swapped r a b m h))
InProfiles-Permᴰ r m m' (Permᴰ.trans {l₂ = l} p q) h =
    InProfiles-Permᴰ r l m' q (InProfiles-Permᴰ r m l p h)

last_named-none :
    (n : Text) (rs : List RouteRule) (r : RouteRule)
    → last_named n rs ≡ none
    → Memᴰ r rs
    → r.name ≢ n
last_named-none n [] r h m = elim m [ ]
last_named-none n (s ∷ rs) r h (Memᴰ.head e) = elim (Option-cases (last_named n rs)) [
  | inl missing ↦ λ named.
      let same : s.name ≡ n = ap (λ (x : RouteRule). x.name) (sym e) ∙ named in
      ground (arith, missing, same)
  | inr (r', found) ↦ let h' = rw found at h in cc
]
last_named-none n (s ∷ rs) r h (Memᴰ.tail m) = elim (Option-cases (last_named n rs)) [
  | inl missing ↦ last_named-none n rs r missing m
  | inr (r', found) ↦ let h' = rw found at h in cc
]

-- Two lists of the same rules, of which no two share a name, have the same rule of each name.
last_named_same :
    (n : Text) (rs ss : List RouteRule)
    → Distinct rs
    → ((r : RouteRule) → Memᴰ r rs → Memᴰ r ss)
    → ((r : RouteRule) → Memᴰ r ss → Memᴰ r rs)
    → last_named n ss ≡ last_named n rs
last_named_same n rs ss d to from = elim (Option-cases (last_named n ss)) [
  | inr (r, found) ↦
      let (m, named) = last_named-Mem n ss r found in
      found ∙ sym (subst (λ z. last_named z rs ≡ some r) named (Mem-last_named rs r d (from r m)))
  | inl missing ↦ elim (Option-cases (last_named n rs)) [
    | inl none_there ↦ missing ∙ sym none_there
    | inr (r, found) ↦
        let (m, named) = last_named-Mem n rs r found in
        absurd (last_named-none n ss r missing (to r m) named)
  ]
]

module _ (c : Config) (m : Profiles) (d : Distinct (rules_of c)) (p : Permᴰ c.wifi_profiles m) where
  abbrev reordered : Config
  reordered = record c { wifi_profiles = m }

  in_rules :
      (r : RouteRule) (l l' : Profiles)
      → Permᴰ l l'
      → Memᴰ r (c.routing.default_rules ++ profile_rules (values l))
      → Memᴰ r (c.routing.default_rules ++ profile_rules (values l'))
  in_rules r l l' q h =
      let rules = c.routing.default_rules in
      Mem-append r rules (profile_rules (values l'))
        (elim (append-Mem r rules (profile_rules (values l)) h) [
          | inl here ↦ inl here
          | inr there ↦ inr (InProfiles-Permᴰ r l l' q there)
        ])

  same_rules : (n : Text) → get n (rules_map reordered) ≡ get n (rules_map c)
  same_rules n =
      get-rules_map n reordered
      ∙ last_named_same n (rules_of c) (rules_of reordered) d
          (λ r h. in_rules r c.wifi_profiles m p h)
          (λ r h. in_rules r m c.wifi_profiles (Permᴰ.symm p) h)
      ∙ sym (get-rules_map n c)

-- What an operation of the dispatcher does to its executor and to the kernel.
abbrev pub effect : {A K : Type 0} → Result A × EventDispatcher × K → RuleExecutor × K
effect (o, d, k) = (d.executor, k)

module _ (net : IpCrate) {K : Type 0} (nl : Netlink K) where
  -- The loop only looks names up.
  remove_each_same :
      (m m' : Map Text RouteRule) (l : List (Text × ℕ)) (x : RuleExecutor) (k : K)
      → ((n : Text) → get n m' ≡ get n m)
      → remove_each net nl m' l x k ≡ remove_each net nl m l x k
  unfolding remove_each
  remove_each_same m m' [] x k same = refl
  remove_each_same m m' ((n, t) ∷ l) x k same = elim (Option-cases (get n m)) [
    | inl missing ↦ rw (same n, missing, remove_each) (remove_each_same m m' l x k same)
    | inr (r, found) ↦
        let (o, x', k') = remove_rule net nl r t x k in
        rw (same n, found, remove_each) (remove_each_same m m' l x' k' same)
  ]

  -- If no two rules of the configuration share a name, then an interface that goes down does to the
  -- kernel and to the record what it does with the profiles in any other order.
  pub handle_interface_down-unordered :
      (i : Text) (d : EventDispatcher) (k : K) (m : Profiles)
      → Distinct (rules_of d.config)
      → Permᴰ d.config.wifi_profiles m
      → let d' = record d { config = record d.config { wifi_profiles = m } } in
        effect (handle_interface_down net nl i d' k) ≡ effect (handle_interface_down net nl i d k)
  unfolding handle_interface_down
  handle_interface_down-unordered i d k m distinct p =
      remove_each_same (rules_map d.config) (rules_map (reordered d.config m distinct p))
        (routes_via i d.executor.active_routes) d.executor k (same_rules d.config m distinct p)
