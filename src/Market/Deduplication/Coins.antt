-- ===== src/Market/Deduplication/Coins.antt =====
-- The unique base coins of `aggregate_qualifying`.
use bybit_crypto_monitor_tel.Base.{
  ◌≡◌, refl, ap, ◌∙◌, Bool, true, false, ◌&&◌, ◌||◌, String, List, [], ◌∷◌, ◌++◌, arith, ◌==◌,
  String_eq, text_eq_iff, elem, distinct, any, get_or, inl, inr, Bool-cases, All, ◌≢◌,
}
use bybit_crypto_monitor_tel.Base.Float.{Float}
use bybit_crypto_monitor_tel.Base.Dict.{Dict, get, keys, elem-keys-set, distinct-keys-set}
use bybit_crypto_monitor_tel.Base.Sort.{sorted, insert}
use bybit_crypto_monitor_tel.Market.Deduplication.Groups.{
  IsGroup, group_by_coin-IsGroup, sorted-cons,
}
use bybit_crypto_monitor_tel.Market.Value.{MomentumValue, qualifies}
use bybit_crypto_monitor_tel.Market.Deduplication.{
  RepresentativeMarket, base_coins, append_to, group_by_coin, pick, representatives, coin_leb,
  key_leb, aggregate_qualifying,
}

-- The coin of a value that qualifies.
abbrev pub qualifies_as : Float → String → MomentumValue → Bool
qualifies_as threshold c v = c == v.base_coin && qualifies v.change_1h threshold

elem-group_by_coin :
    (threshold : Float) (c : String) (vs : List MomentumValue)
    (d : Dict String (List MomentumValue))
    → elem c (keys (group_by_coin threshold vs d))
      ≡ (any (qualifies_as threshold c) vs || elem c (keys d))
unfolding group_by_coin append_to
elem-group_by_coin threshold c [] d = refl
elem-group_by_coin threshold c (v ∷ vs) d = elim (Bool-cases (qualifies v.change_1h threshold)) [
  | inl yes_it ↦ rw yes_it (
      ground (
        arith,
        elem-group_by_coin threshold c vs (append_to v d),
        elem-keys-set v.base_coin c (get_or (get v.base_coin d) [] ++ v ∷ []) d,
      ))
  | inr no_it ↦ rw no_it (ground (arith, elem-group_by_coin threshold c vs d))
]

pub distinct-group_by_coin :
    (threshold : Float) (vs : List MomentumValue) (d : Dict String (List MomentumValue))
    → distinct (keys d) ≡ true
    → distinct (keys (group_by_coin threshold vs d)) ≡ true
unfolding group_by_coin append_to
distinct-group_by_coin threshold [] d h = h
distinct-group_by_coin threshold (v ∷ vs) d h =
    elim (Bool-cases (qualifies v.change_1h threshold)) [
      | inl yes_it ↦ rw yes_it (
          distinct-group_by_coin threshold vs (append_to v d) (distinct-keys-set v.base_coin _ d h))
      | inr no_it ↦ rw no_it (distinct-group_by_coin threshold vs d h)
    ]

coins-pick :
    (upper : String → String) (coin : String) (markets : List MomentumValue)
    → markets ≢ []
    → base_coins (pick coin (sorted (key_leb upper) markets)) ≡ coin ∷ []
coins-pick upper coin markets full =
    let (y, ys, e) = sorted-cons (key_leb upper) markets full in rw e (unfold pick in refl)

base_coins-append :
    (rs ss : List RepresentativeMarket) → base_coins (rs ++ ss) ≡ base_coins rs ++ base_coins ss
base_coins-append [] ss = refl
base_coins-append (r ∷ rs) ss = ap (◌∷◌ r.base_coin) (base_coins-append rs ss)

-- One representative for each group.
base_coins-representatives :
    (upper : String → String) (threshold : Float) (d : Dict String (List MomentumValue))
    → All (IsGroup threshold) d
    → base_coins (representatives upper d) ≡ keys d
unfolding representatives
base_coins-representatives upper threshold [] h = refl
base_coins-representatives upper threshold ((coin, markets) ∷ d) h =
    base_coins-append (pick coin (sorted (key_leb upper) markets)) (representatives upper d)
    ∙ rw (coins-pick upper coin markets h.0.0)
        (ap (◌∷◌ coin) (base_coins-representatives upper threshold d h.1))

elem-insert :
    (c : String) (r : RepresentativeMarket) (rs : List RepresentativeMarket)
    → elem c (base_coins (insert coin_leb r rs)) ≡ (c == r.base_coin || elem c (base_coins rs))
unfolding insert
elem-insert c r [] = refl
elem-insert c r (s ∷ ss) = elim (Bool-cases (coin_leb r s)) [
  | inl e ↦ rw e refl
  | inr e ↦ rw e (ground (arith, elem-insert c r ss))
]

elem-sorted :
    (c : String) (rs : List RepresentativeMarket)
    → elem c (base_coins (sorted coin_leb rs)) ≡ elem c (base_coins rs)
unfolding sorted
elem-sorted c [] = refl
elem-sorted c (r ∷ rs) = ground (arith, elem-insert c r (sorted coin_leb rs), elem-sorted c rs)

distinct-insert :
    (r : RepresentativeMarket) (rs : List RepresentativeMarket)
    → elem r.base_coin (base_coins rs) ≡ false
    → distinct (base_coins rs) ≡ true
    → distinct (base_coins (insert coin_leb r rs)) ≡ true
unfolding insert
distinct-insert r [] h k = refl
distinct-insert r (s ∷ ss) h k = elim (Bool-cases (coin_leb r s)) [
  | inl e ↦ rw e (ground arith)
  | inr e ↦ rw e (
      ground (
        arith,
        elem-insert s.base_coin r ss,
        distinct-insert r ss,
        text_eq_iff s.base_coin r.base_coin,
        text_eq_iff r.base_coin s.base_coin,
      ))
]

distinct-sorted :
    (rs : List RepresentativeMarket)
    → distinct (base_coins rs) ≡ true
    → distinct (base_coins (sorted coin_leb rs)) ≡ true
unfolding sorted
distinct-sorted [] h = refl
distinct-sorted (r ∷ rs) h =
    distinct-insert r (sorted coin_leb rs) (ground (arith, elem-sorted r.base_coin rs))
      (distinct-sorted rs (ground arith))

module _ (upper : String → String) (vs : List MomentumValue) (threshold : Float) where
  coins-grouped :
      base_coins (representatives upper (group_by_coin threshold vs []))
      ≡ keys (group_by_coin threshold vs [])
  coins-grouped =
      base_coins-representatives upper threshold _ (group_by_coin-IsGroup threshold vs [] tt)

  -- A coin is in the result exactly when some market of it qualifies.
  pub elem-aggregate_qualifying :
      (c : String)
      → elem c (base_coins (aggregate_qualifying upper vs threshold))
        ≡ any (qualifies_as threshold c) vs
  unfolding aggregate_qualifying
  elem-aggregate_qualifying c =
      elem-sorted c (representatives upper (group_by_coin threshold vs []))
      ∙ rw coins-grouped (ground (arith, elem-group_by_coin threshold c vs []))

  -- No coin is in the result twice, however many of its markets qualify.
  pub aggregate_qualifying-distinct :
      distinct (base_coins (aggregate_qualifying upper vs threshold)) ≡ true
  unfolding aggregate_qualifying
  aggregate_qualifying-distinct =
      distinct-sorted (representatives upper (group_by_coin threshold vs []))
        (rw coins-grouped (distinct-group_by_coin threshold vs [] refl))
