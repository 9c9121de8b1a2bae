-- ===== src/Engine/Dispatcher/Down.antt =====
-- src/engine/dispatcher.rs: the active routes after an interface went down or was removed.
use mathlib.Core.Path.{subst}
use nic_autoswitch.Engine.Executor.Tracking.{IsTracked}
use nic_autoswitch.Engine.Dispatcher.State.{EventDispatcher, active_routes}
use nic_autoswitch.Engine.Executor.Invariant.{remove_rule_cases}
use nic_autoswitch.Error.{Error, Result, ok, err, Result-cases}
use nic_autoswitch.Common.{
  ℕ, ◌≡◌, refl, sym, ap, ◌∙◌, ◌≢◌, ◌⊎◌, inl, inr, true, none, some, List, [], ◌∷◌, arith,
  Bool-cases, Option-cases, Text, ◌==◌, Text-discrete, Text-eq, ℕ-eq, ==_iff, All, Map, values, get,
  insert, IsMap, get-insert, get-remove,
}
use nic_autoswitch.Ip.{IpCrate}
use nic_autoswitch.Config.{Config, RouteRule, WifiProfile}
use nic_autoswitch.Router.Kernel.{Netlink}
use nic_autoswitch.Router.Rules
use nic_autoswitch.Engine.Executor.{
  ActiveRoute, RuleExecutor, untrack_active_route, tracking, remove_rule,
}
use nic_autoswitch.Engine.Dispatcher.Apply.{
  insert_rules, insert_profiles, rules_map, routes_via, remove_each, handle_interface_down,
}

-- A rule stands under its own name.
abbrev pub IsNamed : Map Text RouteRule → Type 0
IsNamed m = (name : Text) (r : RouteRule) → get name m ≡ some r → r.name ≡ name

insert-IsNamed : (r : RouteRule) (m : Map Text RouteRule) → IsNamed m → IsNamed (insert r.name r m)
insert-IsNamed r m h name s e = ground (arith, h name s, get-insert r.name name r m)

insert_rules-IsNamed :
    (rs : List RouteRule) (m : Map Text RouteRule) → IsNamed m → IsNamed (insert_rules rs m)
unfolding insert_rules
insert_rules-IsNamed [] m h = h
insert_rules-IsNamed (r ∷ rs) m h =
    insert_rules-IsNamed rs (insert r.name r m) (insert-IsNamed r m h)

insert_profiles-IsNamed :
    (ps : List WifiProfile) (m : Map Text RouteRule) → IsNamed m → IsNamed (insert_profiles ps m)
unfolding insert_profiles
insert_profiles-IsNamed [] m h = h
insert_profiles-IsNamed (p ∷ ps) m h =
    insert_profiles-IsNamed ps (insert_rules p.rules m) (insert_rules-IsNamed p.rules m h)

pub rules_map-IsNamed : (c : Config) → IsNamed (rules_map c)
unfolding rules_map
rules_map-IsNamed c =
    insert_profiles-IsNamed (values c.wifi_profiles) _
      (insert_rules-IsNamed c.routing.default_rules [] (λ name r e. unfold get in cc))

-- An active route of the name, if there is one, is not via the interface.
abbrev pub NotVia : Text → Text → Map Text ActiveRoute → Type 0
NotVia i n m = (a : ActiveRoute) → get n m ≡ some a → a.interface ≢ i

pub routes_via_ne :
    (i n : Text) (m : Map Text ActiveRoute)
    → IsMap m
    → NotVia i n m
    → All (λ e. e.0 ≢ n) (routes_via i m)
unfolding routes_via get
routes_via_ne i n [] h v = tt
routes_via_ne i n ((j, b) ∷ m) (fresh, h) v =
    let rest = routes_via_ne i n m h (λ a g. elim (Text-discrete j n) [
      | yes e ↦ absurd (ground (arith, ap (λ x. get x m) e))
      | no ne ↦ v a (ground arith)
    ]) in
    elim (Bool-cases (b.interface == i)) [
      | inl via ↦ rw via ((λ e. v b (ground arith) ((==_iff b.interface i).0 via)), rest)
      | inr other ↦ rw other rest
    ]

abbrev HasEntry : Text → ℕ → List (Text × ℕ) → Type 0
HasEntry n t [] = ⊥
HasEntry n t ((j, u) ∷ l) = ((j ≡ n) × (u ≡ t)) ⊎ HasEntry n t l

routes_via-HasEntry :
    (i n : Text) (m : Map Text ActiveRoute) (a : ActiveRoute)
    → get n m ≡ some a
    → a.interface ≡ i
    → HasEntry n a.table_id (routes_via i m)
unfolding routes_via get
routes_via-HasEntry i n [] a e v = cc
routes_via-HasEntry i n ((j, b) ∷ m) a e v = elim (Text-discrete j n) [
  | yes same ↦
      let equal : b ≡ a = ground arith in
      let via : (b.interface == i) ≡ true = ground (arith, ap (λ x. x.interface) equal) in
      rw via (inl (same, ap (λ x. x.table_id) equal))
  | no ne ↦
      let later = routes_via-HasEntry i n m a (ground arith) v in
      elim (Bool-cases (b.interface == i)) [
        | inl via ↦ rw via (inr later)
        | inr other ↦ rw other later
      ]
]

module _ (net : IpCrate) {K : Type 0} (nl : Netlink K) where
  pub remove_rule_ne :
      (r : RouteRule) (t : ℕ) (x : RuleExecutor) (k : K) (n : Text)
      → r.name ≢ n
      → get n (remove_rule net nl r t x k).1.active_routes ≡ get n x.active_routes
  remove_rule_ne r t x k n ne =
      remove_rule_cases net nl (λ y. get n y.active_routes ≡ get n x.active_routes) r t x k refl
        (unfold untrack_active_route in rw get-remove (ground arith))

  remove_each_ne :
      (m : Map Text RouteRule) (l : List (Text × ℕ)) (x : RuleExecutor) (k : K) (n : Text)
      → IsNamed m
      → All (λ e. e.0 ≢ n) l
      → get n (remove_each net nl m l x k).0.active_routes ≡ get n x.active_routes
  unfolding remove_each
  remove_each_ne m [] x k n named h = refl
  remove_each_ne m ((j, t) ∷ l) x k n named (ne, h) = elim (Option-cases (get j m)) [
    | inl missing ↦ rw (missing, remove_each) (remove_each_ne m l x k n named h)
    | inr (r, found) ↦
        let (o, x', k') = remove_rule net nl r t x k in
        rw (found, remove_each)
          (remove_each_ne m l x' k' n named h
            ∙ remove_rule_ne r t x k n (λ e. ne (sym (named j r found) ∙ e)))
  ]

  -- A loop of removals comes to the removal of a rule from a table, and it fails.
  pub data RemovalFails (m : Map Text RouteRule) (r : RouteRule) (t : ℕ)
      : List (Text × ℕ) → RuleExecutor → K → Type 0 where
    fails_here :
        (l : List (Text × ℕ)) (x : RuleExecutor) (k : K) (e : Error)
        → (Rules.remove_rule net nl x.route_manager r t k).0 ≡ err e
        → RemovalFails m r t ((r.name, t) ∷ l) x k
    after_removal :
        (j : Text) (u : ℕ) (s : RouteRule) (l : List (Text × ℕ)) (x : RuleExecutor) (k : K)
        → get j m ≡ some s
        → RemovalFails m r t l (remove_rule net nl s u x k).1 (remove_rule net nl s u x k).2
        → RemovalFails m r t ((j, u) ∷ l) x k
    after_unknown :
        (j : Text) (u : ℕ) (l : List (Text × ℕ)) (x : RuleExecutor) (k : K)
        → get j m ≡ none
        → RemovalFails m r t l x k
        → RemovalFails m r t ((j, u) ∷ l) x k

  remove_rule_self :
      (r : RouteRule) (t : ℕ) (x : RuleExecutor) (k : K)
      → (Rules.remove_rule net nl x.route_manager r t k).0 ≡ ok tt
      → get r.name (remove_rule net nl r t x k).1.active_routes ≡ none
  unfolding remove_rule
  remove_rule_self r t x k h = removed_self (Rules.remove_rule net nl x.route_manager r t k) h
    where
      removed_self :
          (o : Result (Unit {0}) × K)
          → o.0 ≡ ok tt
          → get r.name (tracking x (λ _. untrack_active_route r.name x) o).1.active_routes ≡ none
      removed_self (ok u, k') e = rw get-remove (ground arith)
      removed_self (err f, k') e = cc

  stays_none :
      (m : Map Text RouteRule) (l : List (Text × ℕ)) (x : RuleExecutor) (k : K) (n : Text)
      → get n x.active_routes ≡ none
      → get n (remove_each net nl m l x k).0.active_routes ≡ none
  unfolding remove_each
  stays_none m [] x k n h = h
  stays_none m ((j, t) ∷ l) x k n h = elim (Option-cases (get j m)) [
    | inl missing ↦ rw (missing, remove_each) (stays_none m l x k n h)
    | inr (r, found) ↦
        let (o, x', k') = remove_rule net nl r t x k in
        rw (found, remove_each)
          (stays_none m l x' k' n (
            remove_rule_cases net nl (λ y. get n y.active_routes ≡ none) r t x k h
              (unfold untrack_active_route in rw get-remove (ground arith))))
  ]

  remove_each_has :
      (m : Map Text RouteRule) (l : List (Text × ℕ)) (x : RuleExecutor) (k : K) (r : RouteRule)
      (t : ℕ)
      → get r.name m ≡ some r
      → HasEntry r.name t l
      → (get r.name (remove_each net nl m l x k).0.active_routes ≡ none) ⊎ RemovalFails m r t l x k
  unfolding remove_each
  remove_each_has m [] x k r t found h = absurd h
  remove_each_has m ((j, u) ∷ l) x k r t found (inl (e, same)) =
      let found_j : get j m ≡ some r = ap (λ x. get x m) e ∙ found in
      let (o, x', k') = remove_rule net nl r u x k in
      elim (Result-cases (Rules.remove_rule net nl x.route_manager r u k).0) [
        | inl fine ↦ inl (
            rw (found_j, remove_each) (stays_none m l x' k' r.name (remove_rule_self r u x k fine)))
        | inr (f, bad) ↦ inr (
            subst (λ z. RemovalFails m r t z x k)
              (ap (λ (n : Text). (n, t) ∷ l) (sym e) ∙ ap (λ (v : ℕ). (j, v) ∷ l) (sym same))
              (fails_here l x k f
                (subst (λ v. (Rules.remove_rule net nl x.route_manager r v k).0 ≡ err f) same bad)))
      ]
  remove_each_has m ((j, u) ∷ l) x k r t found (inr h) = elim (Option-cases (get j m)) [
    | inl missing ↦ elim (remove_each_has m l x k r t found h) [
      | inl gone ↦ inl (rw (missing, remove_each) gone)
      | inr fails ↦ inr (after_unknown j u l x k missing fails)
    ]
    | inr (s, other) ↦
        let (o, x', k') = remove_rule net nl s u x k in
        elim (remove_each_has m l x' k' r t found h) [
          | inl gone ↦ inl (rw (other, remove_each) gone)
          | inr fails ↦ inr (after_removal j u s l x k other fails)
        ]
  ]

  -- If the record of active routes has each name once, with the entry of that name, then, when an
  -- interface goes down, an active route that is not via it keeps its entry, and a name that is not
  -- active stays so; whatever fails.
  pub handle_interface_down-keeps :
      (i n : Text) (d : EventDispatcher) (k : K)
      → IsTracked d.executor
      → NotVia i n (active_routes d)
      → get n (active_routes (handle_interface_down net nl i d k).1) ≡ get n (active_routes d)
  unfolding handle_interface_down active_routes
  handle_interface_down-keeps i n d k h v =
      remove_each_ne (rules_map d.config) (routes_via i d.executor.active_routes) d.executor k n
        (rules_map-IsNamed d.config) (routes_via_ne i n d.executor.active_routes h.once v)

  -- The loop of the handler fails to remove the rule from the table.
  abbrev pub DownFails : Text → RouteRule → ℕ → EventDispatcher → K → Type 0
  DownFails i r t d k =
      RemovalFails (rules_map d.config) r t (routes_via i (active_routes d)) d.executor k

  -- When an interface goes down, an active route via it, of which the configuration has the rule, is no
  -- longer active, unless the handler came to the removal of the rule from the table of the route and
  -- that failed.
  pub handle_interface_down-removes :
      (i : Text) (r : RouteRule) (a : ActiveRoute) (d : EventDispatcher) (k : K)
      → get r.name (active_routes d) ≡ some a
      → a.interface ≡ i
      → get r.name (rules_map d.config) ≡ some r
      → (get r.name (active_routes (handle_interface_down net nl i d k).1) ≡ none)
        ⊎ DownFails i r a.table_id d k
  unfolding handle_interface_down active_routes
  handle_interface_down-removes i r a d k active via found =
      remove_each_has (rules_map d.config) (routes_via i d.executor.active_routes) d.executor k r
        a.table_id found (routes_via-HasEntry i r.name d.executor.active_routes a active via)
