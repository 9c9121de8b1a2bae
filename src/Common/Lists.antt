-- ===== src/Common/Lists.antt =====
-- Lists over the native numbers.
use Prim.Native.Nat.{ℕ, suc, ◌+◌}
use mathlib.Core.Path.{◌≡◌}
use mathlib.Core.Logic.{◌⊎◌, inl, inr}
use mathlib.Core.List.{List, [], ◌∷◌, ◌++◌, Memᴰ}
use native.Mathlib.Omega.{arith}

module _ {ℓ} {A : Type ℓ} where
  abbrev pub length : List A → ℕ
  length [] = 0
  length (x ∷ xs) = suc (length xs)

  pub length-append : (xs ys : List A) → length (xs ++ ys) ≡ length xs + length ys
  length-append [] ys = omega arith
  length-append (x ∷ xs) ys = omega (arith, length-append xs ys)

module _ {ℓ κ} {A : Type ℓ} (P : A → Type κ) where
  abbrev pub All : List A → Type κ
  All [] = Unit
  All (x ∷ xs) = P x × All xs

  pub All-append : (xs ys : List A) → All xs → All ys → All (xs ++ ys)
  All-append [] ys h k = k
  All-append (x ∷ xs) ys (p, h) k = (p, All-append xs ys h k)

module _ {ℓ} {A : Type ℓ} where
  pub Mem-append : (x : A) (xs ys : List A) → Memᴰ x xs ⊎ Memᴰ x ys → Memᴰ x (xs ++ ys)
  Mem-append x [] ys (inr m) = m
  Mem-append x [] ys (inl m) = elim m [ ]
  Mem-append x (y ∷ xs) ys (inl (Memᴰ.head e)) = Memᴰ.head e
  Mem-append x (y ∷ xs) ys (inl (Memᴰ.tail m)) = Memᴰ.tail (Mem-append x xs ys (inl m))
  Mem-append x (y ∷ xs) ys (inr m) = Memᴰ.tail (Mem-append x xs ys (inr m))

  pub append-Mem : (x : A) (xs ys : List A) → Memᴰ x (xs ++ ys) → Memᴰ x xs ⊎ Memᴰ x ys
  append-Mem x [] ys m = inr m
  append-Mem x (y ∷ xs) ys (Memᴰ.head e) = inl (Memᴰ.head e)
  append-Mem x (y ∷ xs) ys (Memᴰ.tail m) = elim (append-Mem x xs ys m) [
    | inl inside ↦ inl (Memᴰ.tail inside)
    | inr later ↦ inr later
  ]
