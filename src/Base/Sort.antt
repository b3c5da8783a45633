-- ===== src/Base/Sort.antt =====
-- Python's `sorted`: the stable sort, here by insertion, since its result is unique.
use mathlib.Core.Path.{◌≡◌}
use mathlib.Core.Logic.{inl, inr}
use mathlib.Core.Bool.{Bool, true, false}
use mathlib.Core.List.{List, [], ◌∷◌, Perm}
use mathlib.Core.List.Perm
use bybit_crypto_monitor_tel.Base.Tests.{Bool-cases, if◌then◌else◌}
use bybit_crypto_monitor_tel.Base.Lists.{All}

-- `le a b` says that `a` may stand before `b`: the key of `a` is at most that of `b`.
module _ {ℓ} {A : Type ℓ} (le : A → A → Bool) where
  unfoldable pub insert : A → List A → List A
  insert a [] = a ∷ []
  insert a (x ∷ xs) = if le a x then a ∷ x ∷ xs else x ∷ insert a xs

  unfoldable pub sorted : List A → List A
  unfolding insert
  sorted [] = []
  sorted (x ∷ xs) = insert x (sorted xs)

  -- Each element may stand before all that follow it.
  abbrev pub IsSorted : List A → Type 0
  IsSorted [] = Unit
  IsSorted (x ∷ xs) = All (λ y. le x y ≡ true) xs × IsSorted xs

  insert-perm : (a : A) (xs : List A) → Perm (insert a xs) (a ∷ xs)
  unfolding insert
  insert-perm a [] = Perm.rfl
  insert-perm a (x ∷ xs) = elim (Bool-cases (le a x)) [
    | inl e ↦ rw e Perm.rfl
    | inr e ↦ rw e (Perm.trans (Perm.cons x (insert-perm a xs)) (Perm.swap a x xs))
  ]

  -- Sorting only reorders.
  pub sorted-perm : (xs : List A) → Perm (sorted xs) xs
  unfolding sorted
  sorted-perm [] = Perm.rfl
  sorted-perm (x ∷ xs) = Perm.trans (insert-perm x (sorted xs)) (Perm.cons x (sorted-perm xs))

  pub All-insert {κ} : (P : A → Type κ) (a : A) (xs : List A) → P a → All P xs → All P (insert a xs)
  unfolding insert
  All-insert P a [] p h = (p, h)
  All-insert P a (x ∷ xs) p h = elim (Bool-cases (le a x)) [
    | inl e ↦ rw e (p, h)
    | inr e ↦ rw e (h.0, All-insert P a xs p h.1)
  ]

  pub All-sorted {κ} : (P : A → Type κ) (xs : List A) → All P xs → All P (sorted xs)
  unfolding sorted
  All-sorted P [] h = h
  All-sorted P (x ∷ xs) h = All-insert P x (sorted xs) h.0 (All-sorted P xs h.1)

-- `P` singles out the elements that the order compares well, such as the values that are not NaN.
module _ {ℓ κ} {A : Type ℓ} (le : A → A → Bool) (P : A → Type κ)
    (total : (a b : A) → le a b ≡ false → le b a ≡ true)
    (trans : (a b c : A) → P a → P b → P c → le a b ≡ true → le b c ≡ true → le a c ≡ true) where
  All-le :
      (a x : A) (xs : List A)
      → P a
      → P x
      → All P xs
      → le a x ≡ true
      → All (λ y. le x y ≡ true) xs
      → All (λ y. le a y ≡ true) xs
  All-le a x [] pa px ps h k = tt
  All-le a x (y ∷ ys) pa px ps h k = (trans a x y pa px ps.0 h k.0, All-le a x ys pa px ps.1 h k.1)

  insert-IsSorted :
      (a : A) (xs : List A) → P a → All P xs → IsSorted le xs → IsSorted le (insert le a xs)
  unfolding insert
  insert-IsSorted a [] pa ps s = (tt, tt)
  insert-IsSorted a (x ∷ xs) pa ps s = elim (Bool-cases (le a x)) [
    | inl e ↦ rw e ((e, All-le a x xs pa ps.0 ps.1 e s.0), s)
    | inr e ↦ rw e (
      All-insert le (λ y. le x y ≡ true) a xs (total a x e) s.0,
      insert-IsSorted a xs pa ps.1 s.1,
    )
  ]

  -- Over a total preorder the result is in order.
  pub sorted-IsSorted : (xs : List A) → All P xs → IsSorted le (sorted le xs)
  unfolding sorted
  sorted-IsSorted [] ps = tt
  sorted-IsSorted (x ∷ xs) ps =
      insert-IsSorted x (sorted le xs) ps.0 (All-sorted le P xs ps.1) (sorted-IsSorted xs ps.1)
