-- ===== src/Router/Manager/Flush.antt =====
-- src/router/manager.rs: what a flush of a table leaves.
use mathlib.Core.Path.{subst}
use nic_autoswitch.Common.{
  ℕ, ◌≡◌, refl, sym, ap, ◌∙◌, ◌⊎◌, inl, inr, Bool, true, false, Bool-cases, Text-eq, ℕ-eq,
}
use nic_autoswitch.Router.Kernel.{
  NetlinkError, Reply, done, failed, IpVersion, ipv4, RouteMessage, RuleMessage, Stream, end,
  broken, item, Netlink,
}
use nic_autoswitch.Router.Manager.Query.{delete_each}

-- An item of a listing, before its end or an error.
abbrev pub Listed : {A : Type 0} → A → Stream A → Type 0
Listed m end = ⊥
Listed m (broken e) = ⊥
Listed m (item a rest) = (a ≡ m) ⊎ Listed m rest

-- What netlink documents of its requests to delete: what was deleted is not listed any more, nothing is
-- listed that was not, and routes and rules are apart.
pub record FlushLaws {K : Type 0} (nl : Netlink K) : Type 0 where
  pub route_gone :
      (m : RouteMessage) (t : ℕ) (k : K)
      → (nl.route_del m k).0 ≡ done
      → Listed m (nl.routes ipv4 t (nl.route_del m k).1)
      → ⊥
  pub route_shrinks :
      (m : RouteMessage) (t : ℕ) (n : RouteMessage) (k : K)
      → Listed n (nl.routes ipv4 t (nl.route_del m k).1)
      → Listed n (nl.routes ipv4 t k)
  pub rule_gone :
      (m : RuleMessage) (v : IpVersion) (k : K)
      → (nl.rule_del m k).0 ≡ done
      → Listed m (nl.rules v (nl.rule_del m k).1)
      → ⊥
  pub rule_shrinks :
      (m : RuleMessage) (v : IpVersion) (n : RuleMessage) (k : K)
      → Listed n (nl.rules v (nl.rule_del m k).1)
      → Listed n (nl.rules v k)
  pub routes_apart :
      (m : RuleMessage) (v : IpVersion) (t : ℕ) (k : K)
      → nl.routes v t (nl.rule_del m k).1 ≡ nl.routes v t k

-- A loop of deletions meets a wanted item, of which the kernel refuses the deletion.
pub data Refused {A K : Type 0} (wanted : A → Bool) (del : A → K → Reply × K) (m : A)
    : Stream A → K → Type 0 where
  refused_here :
      (rest : Stream A) (k : K) (e : NetlinkError)
      → wanted m ≡ true
      → (del m k).0 ≡ failed e
      → Refused wanted del m (item m rest) k
  after_deletion :
      (a : A) (rest : Stream A) (k : K)
      → wanted a ≡ true
      → Refused wanted del m rest (del a k).1
      → Refused wanted del m (item a rest) k
  after_other :
      (a : A) (rest : Stream A) (k : K)
      → wanted a ≡ false
      → Refused wanted del m rest k
      → Refused wanted del m (item a rest) k

Reply-cases : (r : Reply) → (r ≡ done) ⊎ ((e : NetlinkError) × (r ≡ failed e))
Reply-cases done = inl refl
Reply-cases (failed e) = inr (e, refl)

-- What the deletion of each listed item keeps, a loop of deletions keeps.
pub delete_each_keeps :
    {A K : Type 0} (wanted : A → Bool) (del : A → K → Reply × K) (P : K → Type 0) (s : Stream A)
    → ((a : A) → Listed a s → (k : K) → P k → P (del a k).1)
    → (n : ℕ) (k : K) → P k
    → P (delete_each wanted del s n k).1
unfolding delete_each
delete_each_keeps wanted del P end keep n k h = h
delete_each_keeps wanted del P (broken e) keep n k h = h
delete_each_keeps {A} wanted del P (item a rest) keep n k h =
    let keep' = λ (b : A) (l : Listed b rest). keep b (inr l) in
    elim (Bool-cases (wanted a)) [
      | inl want ↦
          rw want (delete_each_keeps wanted del P rest keep' _ (del a k).1 (keep a (inl refl) k h))
      | inr skip ↦ rw skip (delete_each_keeps wanted del P rest keep' n k h)
    ]

-- A listing that only shrinks, and loses what is deleted.
module _ {A K : Type 0} (wanted : A → Bool) (del : A → K → Reply × K) (L : K → Stream A)
    (gone : (a : A) (k : K) → (del a k).0 ≡ done → Listed a (L (del a k).1) → ⊥)
    (shrinks : (a m : A) (k : K) → Listed m (L (del a k).1) → Listed m (L k)) where
  -- What is listed after the loop was so before.
  delete_each_shrinks :
      (s : Stream A) (n : ℕ) (k : K) (m : A)
      → Listed m (L (delete_each wanted del s n k).1)
      → Listed m (L k)
  unfolding delete_each
  delete_each_shrinks end n k m h = h
  delete_each_shrinks (broken e) n k m h = h
  delete_each_shrinks (item a rest) n k m h = elim (Bool-cases (wanted a)) [
    | inl want ↦ shrinks a m k (delete_each_shrinks rest _ (del a k).1 m (rw want at h))
    | inr skip ↦ delete_each_shrinks rest n k m (rw skip at h)
  ]

  -- What was wanted and is still listed, the kernel refused to delete in the loop.
  delete_each-Refused :
      (s : Stream A) (n : ℕ) (k : K) (m : A)
      → wanted m ≡ true
      → Listed m s
      → Listed m (L (delete_each wanted del s n k).1)
      → Refused wanted del m s k
  unfolding delete_each
  delete_each-Refused end n k m w l h = absurd l
  delete_each-Refused (broken e) n k m w l h = absurd l
  delete_each-Refused (item a rest) n k m w (inl same) h =
      let want : wanted a ≡ true = ap wanted same ∙ w in
      let left = delete_each_shrinks rest _ (del a k).1 m (rw want at h) in
      elim (Reply-cases (del a k).0) [
        | inl fine ↦ absurd (gone a k fine (subst (λ z. Listed z (L (del a k).1)) (sym same) left))
        | inr (e, bad) ↦
            subst (λ z. Refused wanted del z (item a rest) k) same (refused_here rest k e want bad)
      ]
  delete_each-Refused (item a rest) n k m w (inr later) h = elim (Bool-cases (wanted a)) [
    | inl want ↦
        after_deletion a rest k want
          (delete_each-Refused rest _ (del a k).1 m w later (rw want at h))
    | inr skip ↦ after_other a rest k skip (delete_each-Refused rest n k m w later (rw skip at h))
  ]

  -- The same of a loop over the listing itself.
  pub delete_all-Refused :
      (n : ℕ) (k : K) (m : A)
      → wanted m ≡ true
      → Listed m (L (delete_each wanted del (L k) n k).1)
      → Refused wanted del m (L k) k
  delete_all-Refused n k m w h =
      delete_each-Refused (L k) n k m w (delete_each_shrinks (L k) n k m h) h
