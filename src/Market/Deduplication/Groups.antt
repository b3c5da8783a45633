-- ===== src/Market/Deduplication/Groups.antt =====
-- What the grouping loop of `aggregate_qualifying` keeps of each group.
use bybit_crypto_monitor_tel.Base.{
  ◌≡◌, refl, true, Option, none, some, String, List, [], ◌∷◌, ◌++◌, arith, String_eq, get_or, inl,
  inr, Bool-cases, All, All-append, ◌≢◌, Bool,
}
use bybit_crypto_monitor_tel.Base.Float.{Float}
use bybit_crypto_monitor_tel.Base.Dict.{Dict, get, All-set, get-All}
use bybit_crypto_monitor_tel.Base.Sort.{sorted, insert}
use bybit_crypto_monitor_tel.Market.Value.{MomentumValue, qualifies}
use bybit_crypto_monitor_tel.Market.Deduplication.{append_to, group_by_coin}

-- The value qualifies, under this coin.
abbrev pub Qualified : Float → String → MomentumValue → Type 0
Qualified threshold coin v = (v.base_coin ≡ coin) × (qualifies v.change_1h threshold ≡ true)

abbrev pub IsGroup : Float → String × List MomentumValue → Type 0
IsGroup threshold (coin, markets) = (markets ≢ []) × All (Qualified threshold coin) markets

snoc-ne-nil : (xs : List MomentumValue) (v : MomentumValue) → xs ++ v ∷ [] ≢ []
snoc-ne-nil [] v e = cc
snoc-ne-nil (x ∷ xs) v e = cc

module _ (threshold : Float) where
  old_group :
      (coin : String) (o : Option (List MomentumValue)) (d : Dict String (List MomentumValue))
      → get coin d ≡ o
      → All (IsGroup threshold) d
      → All (Qualified threshold coin) (get_or o [])
  old_group coin none d e h = tt
  old_group coin (some markets) d e h = (get-All (IsGroup threshold) coin d e h).1

  append_to-IsGroup :
      (v : MomentumValue) (d : Dict String (List MomentumValue))
      → qualifies v.change_1h threshold ≡ true
      → All (IsGroup threshold) d
      → All (IsGroup threshold) (append_to v d)
  unfolding append_to
  append_to-IsGroup v d q h =
      All-set (IsGroup threshold) v.base_coin _ d
        (
          snoc-ne-nil (get_or (get v.base_coin d) []) v,
          All-append (Qualified threshold v.base_coin) (get_or (get v.base_coin d) []) (v ∷ [])
              (old_group v.base_coin (get v.base_coin d) d refl h) ((refl, q), tt),
        )
        h

  pub group_by_coin-IsGroup :
      (vs : List MomentumValue) (d : Dict String (List MomentumValue))
      → All (IsGroup threshold) d
      → All (IsGroup threshold) (group_by_coin threshold vs d)
  unfolding group_by_coin
  group_by_coin-IsGroup [] d h = h
  group_by_coin-IsGroup (v ∷ vs) d h = elim (Bool-cases (qualifies v.change_1h threshold)) [
    | inl q ↦ rw q (group_by_coin-IsGroup vs (append_to v d) (append_to-IsGroup v d q h))
    | inr q ↦ rw q (group_by_coin-IsGroup vs d h)
  ]

insert-ne-nil {ℓ} : {A : Type ℓ} (le : A → A → Bool) (a : A) (xs : List A) → insert le a xs ≢ []
unfolding insert
insert-ne-nil le a [] e = cc
insert-ne-nil le a (x ∷ xs) e = ground arith

-- A group sorts to a head and a tail.
pub sorted-cons {ℓ} :
    {A : Type ℓ} (le : A → A → Bool) (xs : List A)
    → xs ≢ []
    → (y : A) × (ys : List A) × (sorted le xs ≡ y ∷ ys)
unfolding sorted
sorted-cons le [] h = absurd (h refl)
sorted-cons le (x ∷ xs) h = go (insert le x (sorted le xs)) refl
  where
    go :
        (zs : List _)
        → insert le x (sorted le xs) ≡ zs
        → (y : _) × (ys : List _) × (insert le x (sorted le xs) ≡ y ∷ ys)
    go [] e = absurd (insert-ne-nil le x (sorted le xs) e)
    go (y ∷ ys) e = (y, ys, e)
