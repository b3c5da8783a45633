-- ===== src/Market/Deduplication/Best.antt =====
-- The representatives of `aggregate_qualifying`.
use mathlib.Core.List.{Perm}
use bybit_crypto_monitor_tel.Base.{
  ℕ, ◌≡◌, Bool, true, false, String, List, ◌∷◌, All, ltb, nat_eq, keep, if◌then◌else◌,
}
use bybit_crypto_monitor_tel.Base.Float.{Float, is_nan}
use bybit_crypto_monitor_tel.Base.Dict.{Dict}
use bybit_crypto_monitor_tel.Base.Sort.{IsSorted}
use bybit_crypto_monitor_tel.Market.Value.{MomentumValue}
use bybit_crypto_monitor_tel.Market.Deduplication.{RepresentativeMarket, change_or_zero, key_leb}
use bybit_crypto_monitor_tel.Market.Deduplication.Coins.{qualifies_as}
use bybit_crypto_monitor_tel.Market.Deduplication.Groups.{Qualified}

-- The lexicographic step of `key_leb`, on the outcomes of its tests.
abbrev lex : (below above : Bool) → ℕ → ℕ → Bool → Bool
lex below above r s t =
    if below
    then true
    else if above
    then false
    else if ltb r s
    then true
    else if nat_eq r s
    then t
    else false

module _ (upper : String → String) where
  abbrev IsComparable : MomentumValue → Type 0
  IsComparable v = is_nan (change_or_zero v) ≡ false

  -- The representative stands no lower than any of the others, which are in order too.
  abbrev pub IsBest : RepresentativeMarket → Type 0
  IsBest r = IsSorted (key_leb upper) (r.representative ∷ r.others)

  -- All of its markets qualify, as markets of its coin.
  abbrev pub IsQualified : Float → RepresentativeMarket → Type 0
  IsQualified threshold r = All (Qualified threshold r.base_coin) (r.representative ∷ r.others)

  -- Its markets are all the qualifying ones of its coin, each as often as it was given.
  abbrev pub IsComplete : Float → List MomentumValue → RepresentativeMarket → Type 0
  IsComplete threshold vs r =
      Perm (r.representative ∷ r.others) (keep (qualifies_as threshold r.base_coin) vs)

  module _ (threshold : Float) (vs : List MomentumValue) where
    abbrev Good : RepresentativeMarket → Type 0
    Good r = IsBest r × IsQualified threshold r × IsComplete threshold vs r
