-- ===== src/Market/Momentum.antt =====
-- app/market/momentum.py: the hourly change of each market. The exact decimal division
-- `_raw_change` is an argument.
pub mod Anchors
pub mod Values
use bybit_crypto_monitor_tel.Base.{
  ℕ, ◌+◌, ◌*◌, Bool, true, false, Option, none, some, String, List, [], ◌∷◌, ◌==◌, String_eq,
  pair_eq, some_eq, ltb, if◌then◌else◌,
}
use bybit_crypto_monitor_tel.Base.Float.{Float, float_le, zero_float}
use bybit_crypto_monitor_tel.Base.Dict.{Dict, get, set}
use bybit_crypto_monitor_tel.Config.{Settings, whole_seconds}
use bybit_crypto_monitor_tel.Bybit.Models.{Identity, Instrument, identity, Ticker}
use bybit_crypto_monitor_tel.Persistence.Samples.{
  Sample, insert_sample, find_reference, cleanup_older_than,
}
use bybit_crypto_monitor_tel.Market.Value.{Status, MomentumValue}

pub record SpotHistory : Type 0 where
  pub samples : List Sample
  pub last_sample_at : Dict Identity ℕ

-- `price is None or price <= 0`, for a price that is there: false for NaN.
abbrev pub is_positive : Float → Bool
is_positive price = if float_le price zero_float then false else true

-- `timestamp - last < sample_seconds`, in milliseconds.
abbrev pub too_soon : ℕ → ℕ → Option ℕ → Bool
too_soon sample_ms timestamp none = false
too_soon sample_ms timestamp (some last) = ltb (timestamp * 1000) (last * 1000 + sample_ms)

abbrev pub after_insert : Identity → ℕ → SpotHistory → List Sample × Bool → SpotHistory × Bool
after_insert key timestamp h (samples, true) =
    (record { samples = samples; last_sample_at = set key timestamp h.last_sample_at }, true)
after_insert key timestamp h (samples, false) = (record h { samples = samples }, false)

-- `SpotHistory.record`
unfoldable pub record_price :
    Settings → String → String → ℕ → Option Float → SpotHistory → SpotHistory × Bool
record_price config category symbol timestamp none h = (h, false)
record_price config category symbol timestamp (some price) h =
    if is_positive price
    then if too_soon config.spot_sample_seconds timestamp (get (category, symbol) h.last_sample_at)
      then (h, false)
      else after_insert (category, symbol) timestamp h
          (insert_sample
            (record { category = category; symbol = symbol; timestamp = timestamp; price = price })
            h.samples)
    else (h, false)

abbrev pub price_of : Option Sample → Option Float
price_of none = none
price_of (some s) = some s.price

unfoldable pub find_anchor : Settings → String → String → ℕ → SpotHistory → Option Float
find_anchor config category symbol now h =
    price_of (find_reference category symbol config.spot_anchor_tolerance_seconds now h.samples)

unfoldable pub prune : ℕ → ℕ → SpotHistory → SpotHistory × ℕ
prune now retention h =
    let (samples, deleted) = cleanup_older_than now (whole_seconds retention) h.samples in
    (record h { samples = samples }, deleted)

abbrev pub is_supported : Settings → Instrument → Bool
is_supported config i =
    if i.status == "Trading"
    then if i.category == "spot"
      then config.enable_spot
      else if i.category == "linear"
      then if some_eq i.settle_coin "USDT"
        then config.enable_linear_usdt
        else if some_eq i.settle_coin "USDC"
        then config.enable_linear_usdc
        else false
      else false
    else false

-- The ticker of an instrument that is to be evaluated.
abbrev pub ticker_for : Settings → Dict Identity Ticker → Instrument → Option Ticker
ticker_for config snapshot i = if is_supported config i then get (identity i) snapshot else none

module _ (raw_change : Float → Float → Float) where
  -- `linear_change` and `spot_change`, which are one function. Two infinite prices, at which
  -- `_raw_change` raises InvalidOperation, are left out.
  unfoldable pub change_between : Option Float → Option Float → Option Float
  change_between none reference = none
  change_between (some last) none = none
  change_between (some last) (some reference) =
      if is_positive last
      then if is_positive reference then some (raw_change last reference) else none
      else none

  abbrev pub base_value : Instrument → Ticker → MomentumValue
  base_value i t = record {
    category = i.category;
    symbol = i.symbol;
    base_coin = i.base_coin;
    change_1h = none;
    status = Status.no_data;
    last_price = t.last_price;
    mark_price = t.mark_price;
    change_24h = t.change_24h;
    turnover_24h = t.turnover_24h;
    funding_rate = t.funding_rate;
    contract_type = i.contract_type;
    settle_coin = i.settle_coin;
    quote_coin = i.quote_coin;
  }

  -- `STATUS_OK if change is not None else …`
  abbrev pub with_change : Status → Option Float → MomentumValue → MomentumValue
  with_change otherwise none v = record v { status = otherwise }
  with_change otherwise (some change) v = record v { change_1h = some change; status = Status.ok }

  abbrev pub spot_value : Option Float → Option Float → MomentumValue → MomentumValue
  spot_value last none v = record v { status = Status.warming_up }
  spot_value last (some anchor) v =
      if is_positive anchor
      then with_change Status.warming_up (change_between last (some anchor)) v
      else record v { status = Status.warming_up }

  abbrev pub has_price : Option Float → Bool
  has_price none = false
  has_price (some price) = is_positive price

  unfoldable pub evaluate :
      Settings → Instrument → Ticker → ℕ → SpotHistory → SpotHistory × MomentumValue
  evaluate config i t now h =
      let base = base_value i t in
      let (recorded, _) = record_price config i.category i.symbol now t.last_price h in
      if has_price t.last_price
      then if i.category == "linear"
        then (h, with_change Status.no_data (change_between t.last_price t.prev_price_1h) base)
        else (
          recorded,
          spot_value t.last_price (find_anchor config i.category i.symbol now recorded) base,
        )
      else (h, base)

  abbrev pub cons_value :
      SpotHistory × MomentumValue
      → SpotHistory × List MomentumValue
      → SpotHistory × List MomentumValue
  cons_value (h, v) (after, vs) = (after, v ∷ vs)

  -- The loop of `evaluate_all`, over the registered instruments.
  unfoldable pub evaluate_all :
      Settings
      → Dict Identity Ticker
      → List Instrument
      → ℕ
      → SpotHistory
      → SpotHistory × List MomentumValue
  evaluate_all config snapshot [] now h = (h, [])
  evaluate_all config snapshot (i ∷ is) now h = elim (ticker_for config snapshot i) [
    | none ↦ evaluate_all config snapshot is now h
    | some t ↦
        let one = evaluate config i t now h in
        cons_value one (evaluate_all config snapshot is now one.0)
  ]
