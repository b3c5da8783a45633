-- ===== src/Market/Deduplication/Complete.antt =====
-- Each group of `aggregate_qualifying` holds all the qualifying markets of its coin.
use mathlib.Core.List.{append_assoc, append-nil}
use bybit_crypto_monitor_tel.Base.{
  ◌≡◌, refl, sym, ◌∙◌, ap, true, false, some, String, List, [], ◌∷◌, ◌++◌, ◌==◌, eq_sym, String_eq,
  keep, get_or, elem, distinct, Bool-cases, inl, inr, arith, All, All-map, text_eq_iff,
  if◌then◌else◌,
}
use bybit_crypto_monitor_tel.Base.Float.{Float}
use bybit_crypto_monitor_tel.Base.Dict.{Dict, get, keys, get-cons, get-nil, get-set}
use bybit_crypto_monitor_tel.Market.Value.{MomentumValue, qualifies}
use bybit_crypto_monitor_tel.Market.Deduplication.{append_to, group_by_coin}
use bybit_crypto_monitor_tel.Market.Deduplication.Coins.{qualifies_as, distinct-group_by_coin}

-- The qualifying markets of a coin, in the order in which they were given.
abbrev pub markets_of : Float → String → List MomentumValue → List MomentumValue
markets_of threshold coin vs = keep (qualifies_as threshold coin) vs

abbrev group : String → Dict String (List MomentumValue) → List MomentumValue
group coin d = get_or (get coin d) []

group-append_to :
    (coin : String) (v : MomentumValue) (d : Dict String (List MomentumValue))
    → group coin (append_to v d)
      ≡ (if v.base_coin == coin then group coin d ++ v ∷ [] else group coin d)
unfolding append_to
group-append_to coin v d =
    ap (λ o. get_or o []) (get-set v.base_coin coin (group v.base_coin d ++ v ∷ []) d)
    ∙ elim (Bool-cases (v.base_coin == coin)) [
      | inl same ↦
          let path : v.base_coin ≡ coin = ground (arith, text_eq_iff v.base_coin coin, same) in
          rw same (ap (λ c. group c d ++ v ∷ []) path)
      | inr other ↦ rw other refl
    ]

group-group_by_coin :
    (threshold : Float) (coin : String) (vs : List MomentumValue)
    (d : Dict String (List MomentumValue))
    → group coin (group_by_coin threshold vs d) ≡ group coin d ++ markets_of threshold coin vs
unfolding group_by_coin
group-group_by_coin threshold coin [] d = sym (append-nil (group coin d))
group-group_by_coin threshold coin (v ∷ vs) d =
    elim (Bool-cases (qualifies v.change_1h threshold)) [
      | inl good ↦
          let rest = group-group_by_coin threshold coin vs (append_to v d) in
          elim (Bool-cases (v.base_coin == coin)) [
            | inl same ↦
                rw (good, eq_sym coin v.base_coin, same)
                  (rest
                    ∙ rw (group-append_to coin v d, same) (append_assoc (group coin d) (v ∷ []) _))
            | inr other ↦
                rw (good, eq_sym coin v.base_coin, other)
                  (rest ∙ rw (group-append_to coin v d, other) refl)
          ]
      | inr bad ↦ elim (Bool-cases (coin == v.base_coin)) [
        | inl same ↦ rw (bad, same) (group-group_by_coin threshold coin vs d)
        | inr other ↦ rw (bad, other) (group-group_by_coin threshold coin vs d)
      ]
    ]

past-get :
    (coin : String) (ms : List MomentumValue) (d rest : Dict String (List MomentumValue))
    → elem coin (keys rest) ≡ false
    → All (λ p. get p.0 d ≡ some p.1) rest
    → All (λ p. get p.0 ((coin, ms) ∷ d) ≡ some p.1) rest
past-get coin ms d [] h k = tt
past-get coin ms d ((c, ns) ∷ rest) h k =
    let other : (coin == c) ≡ false = ground (arith, h) in
    (get-cons c coin ms d ∙ rw other k.0, past-get coin ms d rest (ground (arith, h)) k.1)

-- With distinct keys, each entry is what its key leads to.
entries-get :
    (d : Dict String (List MomentumValue))
    → distinct (keys d) ≡ true
    → All (λ p. get p.0 d ≡ some p.1) d
entries-get [] h = tt
entries-get ((coin, ms) ∷ d) h =
    let itself : (coin == coin) ≡ true = (text_eq_iff coin coin).1 refl in
    (
      get-cons coin coin ms d ∙ rw itself refl,
      past-get coin ms d d (ground (arith, h)) (entries-get d (ground (arith, h))),
    )

-- Each group holds all the qualifying markets of its coin, in order.
pub group_by_coin_complete :
    (threshold : Float) (vs : List MomentumValue)
    → All (λ p. p.1 ≡ markets_of threshold p.0 vs) (group_by_coin threshold vs [])
group_by_coin_complete threshold vs =
    All-map (group_by_coin threshold vs [])
      (λ p h.
        sym (ap (λ o. get_or o []) h)
        ∙ group-group_by_coin threshold p.0 vs []
        ∙ ap (λ o. get_or o [] ++ markets_of threshold p.0 vs) (get-nil p.0))
      (entries-get (group_by_coin threshold vs []) (distinct-group_by_coin threshold vs [] refl))
