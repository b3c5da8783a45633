-- ===== src/Market/Deduplication.antt =====
-- app/market/deduplication.py: from qualifying markets to unique base coins.
mod Groups
pub mod Coins
pub mod Complete
pub mod Best
pub mod Partition
use bybit_crypto_monitor_tel.Base.{
  ℕ, Bool, true, false, Option, none, some, String, List, [], ◌∷◌, ◌++◌, ◌==◌, String_eq, some_eq,
  get_or, ltb, nat_eq, length, elem, if◌then◌else◌, ◌||◌, ◌&&◌,
}
use bybit_crypto_monitor_tel.Base.Float.{Float, float_lt, zero_float}
use bybit_crypto_monitor_tel.Base.Dict.{Dict, get, set}
use bybit_crypto_monitor_tel.Base.Sort.{sorted}
use bybit_crypto_monitor_tel.Base.TextOrder.{text_leb}
use bybit_crypto_monitor_tel.Market.Value.{MomentumValue, qualifies}

abbrev pub stablecoin_quotes : List String
stablecoin_quotes =
    "USDT" ∷ "USDC" ∷ "DAI" ∷ "FDUSD" ∷ "TUSD" ∷ "BUSD" ∷ "PYUSD" ∷ "EUR" ∷ "USD" ∷ []

-- `str.upper` is an argument: it maps each text to its upper-case form.
unfoldable pub tie_break_rank : (String → String) → MomentumValue → ℕ
tie_break_rank upper v =
    if v.category == "linear"
    then if some_eq v.settle_coin "USDT" then 0 else if some_eq v.settle_coin "USDC" then 1 else 2
    else if v.category == "spot"
    then if elem (upper (get_or v.quote_coin "")) stablecoin_quotes then 3 else 4
    else 5

-- One base coin with its representative market and the rest.
pub record RepresentativeMarket : Type 0 where
  pub base_coin : String
  pub representative : MomentumValue
  pub others : List MomentumValue

abbrev pub QualifyingSet : Type 0
QualifyingSet = List RepresentativeMarket

abbrev pub count : QualifyingSet → ℕ
count q = length q

abbrev pub base_coins : QualifyingSet → List String
base_coins [] = []
base_coins (r ∷ rs) = r.base_coin ∷ base_coins rs

-- The sorted coins, for detecting a change of composition.
unfoldable pub fingerprint : QualifyingSet → List String
fingerprint q = sorted text_leb (base_coins q)

-- `float(m.change_1h or 0.0)`
abbrev pub change_or_zero : MomentumValue → Float
change_or_zero m = get_or m.change_1h zero_float

-- Whether the sort key of `a` is at most that of `b`: the larger change first, then the smaller
-- rank, then the smaller symbol.
unfoldable pub key_leb : (String → String) → MomentumValue → MomentumValue → Bool
key_leb upper a b =
    if float_lt (change_or_zero b) (change_or_zero a)
    then true
    else if float_lt (change_or_zero a) (change_or_zero b)
    then false
    else if ltb (tie_break_rank upper a) (tie_break_rank upper b)
    then true
    else if nat_eq (tie_break_rank upper a) (tie_break_rank upper b)
    then text_leb a.symbol b.symbol
    else false

-- `by_coin.setdefault(value.base_coin, []).append(value)`
unfoldable pub append_to :
    MomentumValue → Dict String (List MomentumValue) → Dict String (List MomentumValue)
append_to v d = set v.base_coin (get_or (get v.base_coin d) [] ++ v ∷ []) d

-- The first loop of `aggregate_qualifying`.
unfoldable pub group_by_coin :
    Float → List MomentumValue → Dict String (List MomentumValue) → Dict String (List MomentumValue)
group_by_coin threshold [] d = d
group_by_coin threshold (v ∷ vs) d =
    group_by_coin threshold vs (if qualifies v.change_1h threshold then append_to v d else d)

-- `ordered[0]` and `ordered[1:]`; a group is never empty.
unfoldable pub pick : String → List MomentumValue → List RepresentativeMarket
pick coin [] = []
pick coin (m ∷ ms) = record { base_coin = coin; representative = m; others = ms } ∷ []

unfoldable pub representatives :
    (String → String) → Dict String (List MomentumValue) → List RepresentativeMarket
representatives upper [] = []
representatives upper ((coin, markets) ∷ d) =
    pick coin (sorted (key_leb upper) markets) ++ representatives upper d

abbrev pub coin_leb : RepresentativeMarket → RepresentativeMarket → Bool
coin_leb r s = text_leb r.base_coin s.base_coin

unfoldable pub aggregate_qualifying : (String → String) → List MomentumValue → Float → QualifyingSet
aggregate_qualifying upper vs threshold =
    sorted coin_leb (representatives upper (group_by_coin threshold vs []))
