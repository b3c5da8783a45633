-- ===== src/Base/Dict.antt =====
-- Python's `dict`: the entries in the order in which their keys were first written.
use mathlib.Core.Path.{◌≡◌, refl, subst}
use mathlib.Core.Logic.{inl, inr}
use mathlib.Core.Bool.{true, ◌||◌}
use mathlib.Core.Option.{Option, none, some}
use mathlib.Core.List.{List, [], ◌∷◌}
use native.Mathlib.Omega.{arith}
use bybit_crypto_monitor_tel.Base.Tests.{HasEq, ◌==◌, if◌then◌else◌, is_some, Bool-cases}
use bybit_crypto_monitor_tel.Base.Lists.{elem, distinct, All}

abbrev pub Dict {ℓ κ} : Type ℓ → Type κ → Type (ℓ ⊔ κ)
Dict K V = List (K × V)

module _ {ℓ κ} {K : Type ℓ} {V : Type κ} where
  abbrev pub keys : Dict K V → List K
  keys [] = []
  keys ((k, v) ∷ d) = k ∷ keys d

  abbrev pub values : Dict K V → List V
  values [] = []
  values ((k, v) ∷ d) = v ∷ values d

module _ {ℓ κ} {K : Type ℓ} {V : Type κ} ⦃e : HasEq K⦄ where
  -- `d.get(k)`
  unfoldable pub get : K → Dict K V → Option V
  get k [] = none
  get k ((j, v) ∷ d) = if j == k then some v else get k d

  -- `d[k] = v`
  unfoldable pub set : K → V → Dict K V → Dict K V
  set k v [] = (k, v) ∷ []
  set k v ((j, w) ∷ d) = if j == k then (j, v) ∷ d else (j, w) ∷ set k v d

  -- `d.pop(k, None)`, the entry dropped; a key has one entry.
  unfoldable pub delete : K → Dict K V → Dict K V
  delete k [] = []
  delete k ((j, w) ∷ d) = let rest = delete k d in if j == k then rest else (j, w) ∷ rest

  pub get-nil : (k : K) → get k [] ≡ none
  unfolding get
  get-nil k = refl

  pub get-cons :
      (k j : K) (v : V) (d : Dict K V) → get k ((j, v) ∷ d) ≡ (if j == k then some v else get k d)
  unfolding get
  get-cons k j v d = refl

  pub get-set :
      (k j : K) (v : V) (d : Dict K V) → get j (set k v d) ≡ (if k == j then some v else get j d)
  unfolding get set
  get-set k j v [] = refl
  get-set k j v ((i, w) ∷ d) =
      ground (arith, e.agrees k j, e.agrees i k, e.agrees i j, get-set k j v d)

  pub get-delete :
      (k j : K) (d : Dict K V) → get j (delete k d) ≡ (if k == j then none else get j d)
  unfolding get delete
  get-delete k j [] = ground arith
  get-delete k j ((i, w) ∷ d) =
      ground (arith, e.agrees k j, e.agrees i k, e.agrees i j, get-delete k j d)

  pub is_some-get : (k : K) (d : Dict K V) → is_some (get k d) ≡ elem k (keys d)
  unfolding get
  is_some-get k [] = refl
  is_some-get k ((j, v) ∷ d) = ground (arith, e.agrees j k, e.agrees k j, is_some-get k d)

  pub elem-keys-set :
      (k j : K) (v : V) (d : Dict K V) → elem j (keys (set k v d)) ≡ (j == k || elem j (keys d))
  unfolding set
  elem-keys-set k j v [] = refl
  elem-keys-set k j v ((i, w) ∷ d) =
      ground (arith, e.agrees j k, e.agrees i k, e.agrees j i, e.agrees k i, elem-keys-set k j v d)

  pub distinct-keys-set :
      (k : K) (v : V) (d : Dict K V) → distinct (keys d) ≡ true → distinct (keys (set k v d)) ≡ true
  unfolding set
  distinct-keys-set k v [] h = refl
  distinct-keys-set k v ((i, w) ∷ d) h =
      ground (arith, e.agrees i k, e.agrees k i, elem-keys-set k i v d, distinct-keys-set k v d)

  -- A property of each entry.
  pub All-set {μ} :
      (P : K × V → Type μ) (k : K) (v : V) (d : Dict K V) → P (k, v) → All P d → All P (set k v d)
  unfolding set
  All-set P k v [] p h = (p, tt)
  All-set P k v ((i, w) ∷ d) p h = elim (Bool-cases (i == k)) [
    | inl same ↦ rw same (rw ((e.agrees i k).0 same) p, h.1)
    | inr other ↦ rw other (h.0, All-set P k v d p h.1)
  ]

  pub get-All {μ} :
      (P : K × V → Type μ) (k : K) {v : V} (d : Dict K V) → get k d ≡ some v → All P d → P (k, v)
  unfolding get
  get-All P k [] g h = cc
  get-All P k {v} ((i, w) ∷ d) g h = elim (Bool-cases (i == k)) [
    | inl same ↦ subst P (ground (arith, e.agrees i k)) h.0
    | inr other ↦ get-All P k d (ground arith) h.1
  ]
