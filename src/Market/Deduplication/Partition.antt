-- ===== src/Market/Deduplication/Partition.antt =====
-- `aggregate_qualifying` neither loses nor repeats a qualifying market.
use mathlib.Core.List.Perm
use mathlib.Core.List.{Perm, perm_middle, perm_append_comm, append_assoc, append-nil}
use bybit_crypto_monitor_tel.Base.{
  ◌≡◌, refl, sym, ap, ◌∙◌, Option, none, some, String, List, [], ◌∷◌, ◌++◌, String_eq, keep, get_or,
  Bool-cases, inl, inr, ◌==◌, arith,
}
use bybit_crypto_monitor_tel.Base.Float.{Float}
use bybit_crypto_monitor_tel.Base.Dict.{Dict, get, set, get-nil, get-cons}
use bybit_crypto_monitor_tel.Base.Sort.{sorted, sorted-perm, insert}
use bybit_crypto_monitor_tel.Market.Value.{MomentumValue, qualifies}
use bybit_crypto_monitor_tel.Market.Deduplication.{
  RepresentativeMarket, append_to, group_by_coin, pick, representatives, coin_leb, key_leb,
  aggregate_qualifying,
}

abbrev grouped : Dict String (List MomentumValue) → List MomentumValue
grouped [] = []
grouped ((c, ms) ∷ d) = ms ++ grouped d

-- Every market of a result: the representatives with the others.
abbrev pub markets : List RepresentativeMarket → List MomentumValue
markets [] = []
markets (r ∷ rs) = (r.representative ∷ r.others) ++ markets rs

append-perm :
    (xs ys : List MomentumValue) (v : MomentumValue) → Perm ((xs ++ v ∷ []) ++ ys) (v ∷ (xs ++ ys))
append-perm xs ys v = rw append_assoc (perm_middle xs ys)

set-perm :
    (k : String) (v : MomentumValue) (d : Dict String (List MomentumValue))
    (o : Option (List MomentumValue))
    → get k d ≡ o
    → Perm (grouped (set k (get_or o [] ++ v ∷ []) d)) (v ∷ grouped d)
unfolding set
set-perm k v [] none e = Perm.rfl
set-perm k v [] (some ms) e = cc (get-nil {V = List MomentumValue} k)
set-perm k v ((c, ms) ∷ d) o e = elim (Bool-cases (c == k)) [
  | inl same ↦
      let old : o ≡ some ms = ground (arith, get-cons k c ms d) in
      rw (same, old) (append-perm ms (grouped d) v)
  | inr other ↦
      let rest : get k d ≡ o = ground (arith, get-cons k c ms d) in
      rw other
        (Perm.trans (Perm.append_left ms (set-perm k v d o rest)) (perm_middle ms (grouped d)))
]

append_to-perm :
    (v : MomentumValue) (d : Dict String (List MomentumValue))
    → Perm (grouped (append_to v d)) (v ∷ grouped d)
unfolding append_to
append_to-perm v d = set-perm v.base_coin v d (get v.base_coin d) refl

group_by_coin-perm :
    (threshold : Float) (vs : List MomentumValue) (d : Dict String (List MomentumValue))
    → Perm
        (grouped (group_by_coin threshold vs d))
        (keep (λ v. qualifies v.change_1h threshold) vs ++ grouped d)
unfolding group_by_coin
group_by_coin-perm threshold [] d = Perm.rfl
group_by_coin-perm threshold (v ∷ vs) d = elim (Bool-cases (qualifies v.change_1h threshold)) [
  | inl q ↦ rw q (
      Perm.trans (group_by_coin-perm threshold vs (append_to v d))
        (Perm.trans (Perm.append_left _ (append_to-perm v d)) (perm_middle _ (grouped d))))
  | inr q ↦ rw q (group_by_coin-perm threshold vs d)
]

markets-append : (rs ss : List RepresentativeMarket) → markets (rs ++ ss) ≡ markets rs ++ markets ss
markets-append [] ss = refl
markets-append (r ∷ rs) ss =
    ap (λ l. (r.representative ∷ r.others) ++ l) (markets-append rs ss)
    ∙ sym (append_assoc (r.representative ∷ r.others) (markets rs) (markets ss))

markets-pick : (coin : String) (ms : List MomentumValue) → markets (pick coin ms) ≡ ms
unfolding pick
markets-pick coin [] = refl
markets-pick coin (m ∷ ms) = ap (◌∷◌ m) (append-nil ms)

representatives-perm :
    (upper : String → String) (d : Dict String (List MomentumValue))
    → Perm (markets (representatives upper d)) (grouped d)
unfolding representatives
representatives-perm upper [] = Perm.rfl
representatives-perm upper ((coin, ms) ∷ d) =
    rw (markets-append, markets-pick)
      (Perm.append (sorted-perm (key_leb upper) ms) (representatives-perm upper d))

exchange-perm : (xs ys zs : List MomentumValue) → Perm (xs ++ (ys ++ zs)) (ys ++ (xs ++ zs))
exchange-perm xs ys zs =
    rw (← append_assoc xs ys zs, ← append_assoc ys xs zs)
      (Perm.append_right zs (perm_append_comm xs ys))

markets-insert :
    (r : RepresentativeMarket) (rs : List RepresentativeMarket)
    → Perm (markets (insert coin_leb r rs)) (markets (r ∷ rs))
unfolding insert
markets-insert r [] = Perm.rfl
markets-insert r (s ∷ ss) = elim (Bool-cases (coin_leb r s)) [
  | inl e ↦ rw e Perm.rfl
  | inr e ↦ rw e (
      Perm.trans (Perm.append_left (s.representative ∷ s.others) (markets-insert r ss))
        (exchange-perm (s.representative ∷ s.others) (r.representative ∷ r.others) (markets ss)))
]

markets-sorted : (rs : List RepresentativeMarket) → Perm (markets (sorted coin_leb rs)) (markets rs)
unfolding sorted
markets-sorted [] = Perm.rfl
markets-sorted (r ∷ rs) =
    Perm.trans (markets-insert r (sorted coin_leb rs))
      (Perm.append_left (r.representative ∷ r.others) (markets-sorted rs))

-- The markets of the result are the values that qualify, each as often as it was given.
pub aggregate_qualifying-perm :
    (upper : String → String) (vs : List MomentumValue) (threshold : Float)
    → Perm
        (markets (aggregate_qualifying upper vs threshold))
        (keep (λ v. qualifies v.change_1h threshold) vs)
unfolding aggregate_qualifying
aggregate_qualifying-perm upper vs threshold =
    let groups = group_by_coin threshold vs [] in
    Perm.trans (markets-sorted (representatives upper groups)) (
      Perm.trans (representatives-perm upper groups)
        (rw append-nil at (group_by_coin-perm threshold vs [])))
