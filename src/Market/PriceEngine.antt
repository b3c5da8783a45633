-- ===== src/Market/PriceEngine.antt =====
-- app/market/price_engine.py: the latest price state of all markets, which the poll and the stream
-- both feed.
pub mod Counts
pub mod Latest
use bybit_crypto_monitor_tel.Base.Int.{ℤ}
use bybit_crypto_monitor_tel.Base.{
  ℕ, ◌+◌, Bool, true, false, ◌&&◌, not, Option, none, some, String, List, [], ◌∷◌, ◌==◌, String_eq,
  pair_eq, if◌then◌else◌, length,
}
use bybit_crypto_monitor_tel.Base.Int.{pos}
use bybit_crypto_monitor_tel.Base.Float.{Float, finite, float_lt}
use bybit_crypto_monitor_tel.Base.Result.{Result, ok, err, ◌>>=◌}
use bybit_crypto_monitor_tel.Base.Dict.{Dict, get, set}
use bybit_crypto_monitor_tel.Bybit.Models.{Identity, Ticker, ticker_identity}

pub record PriceEngine : Type 0 where
  pub latest : Dict Identity Ticker
  pub received : ℕ
  pub accepted : ℕ
  pub rejected : ℕ

abbrev pub new_engine : PriceEngine
new_engine = record { latest = []; received = 0; accepted = 0; rejected = 0 }

-- `price is not None and price < 0`
abbrev pub is_negative : Option Float → Bool
is_negative none = false
is_negative (some price) = float_lt price (finite (pos 0))

unfoldable pub accept : Ticker → Bool
accept t = not (t.symbol == "") && not (is_negative t.last_price)

abbrev store : Ticker → PriceEngine → PriceEngine
store t e = record e {
  latest = set (ticker_identity t) t e.latest;
  received = e.received + 1;
  accepted = e.accepted + 1;
}

abbrev refuse : PriceEngine → PriceEngine
refuse e = record e { received = e.received + 1; rejected = e.rejected + 1 }

-- The second result is the dictionary of the accepted tickers.
unfoldable pub update_tickers :
    List Ticker → PriceEngine → Dict Identity Ticker → PriceEngine × Dict Identity Ticker
update_tickers [] e updated = (e, updated)
update_tickers (t ∷ ts) e updated =
    let with_t = update_tickers ts (store t e) (set (ticker_identity t) t updated) in
    let without_t = update_tickers ts (refuse e) updated in if accept t then with_t else without_t

-- A snapshot with a negative price is refused; the received ones are not counted.
unfoldable pub apply_snapshot : Ticker → PriceEngine → PriceEngine
apply_snapshot t e =
    if not (t.symbol == "") && is_negative t.last_price
    then record e { rejected = e.rejected + 1 }
    else record e { latest = set (ticker_identity t) t e.latest; accepted = e.accepted + 1 }

-- The fields of a delta that the code reads, with the values as they are on the wire.
pub record Delta (Wire : Type 0) : Type 0 where
  pub last_price : Option Wire
  pub mark_price : Option Wire
  pub index_price : Option Wire
  pub prev_price_1h : Option Wire
  pub price_24h_pcnt : Option Wire
  pub turnover_24h : Option Wire
  pub volume_24h : Option Wire
  pub open_interest : Option Wire
  pub funding_rate : Option Wire
  pub ts : Option Wire

-- What Python makes of a value: `float(value)`, which may raise; `_percent_from_fraction`, which
-- gives None instead; and `int(float(value)) // 1000`, none where TypeError or ValueError is caught.
pub record Conversions (Wire : Type 0) : Type 0 where
  pub float : Wire → Result Float
  pub percent : Wire → Option Float
  pub seconds : Wire → Option ℤ

module _ {Wire : Type 0} (convert : Conversions Wire) where
  -- `merged(key, existing, float)`
  abbrev pub merged : Option Wire → Option Float → Result (Option Float)
  merged none existing = ok existing
  merged (some value) existing = do x ← convert.float value; ok (some x)

  abbrev pub or_existing : Option Float → Option Float → Option Float
  or_existing none existing = existing
  or_existing (some x) existing = some x

  abbrev pub merged_percent : Option Wire → Option Float → Option Float
  merged_percent none existing = existing
  merged_percent (some value) existing = or_existing (convert.percent value) existing

  -- The time of the message is preferred over that of its data.
  abbrev pub first_some : Option Wire → Option Wire → Option Wire
  first_some (some a) b = some a
  first_some none b = b

  abbrev pub seconds_or : Option ℤ → ℤ → ℤ
  seconds_or none existing = existing
  seconds_or (some t) existing = t

  abbrev pub merged_time : Option Wire → ℤ → ℤ
  merged_time none existing = existing
  merged_time (some value) existing = seconds_or (convert.seconds value) existing

  unfoldable pub merge_ticker : Ticker → Delta Wire → Option Wire → Result Ticker
  merge_ticker old delta ts_ms = do
    last_price ← merged delta.last_price old.last_price
    mark_price ← merged delta.mark_price old.mark_price
    index_price ← merged delta.index_price old.index_price
    prev_price_1h ← merged delta.prev_price_1h old.prev_price_1h
    turnover_24h ← merged delta.turnover_24h old.turnover_24h
    volume_24h ← merged delta.volume_24h old.volume_24h
    open_interest ← merged delta.open_interest old.open_interest
    funding_rate ← merged delta.funding_rate old.funding_rate
    ok (record {
      category = old.category;
      symbol = old.symbol;
      last_price = last_price;
      mark_price = mark_price;
      index_price = index_price;
      prev_price_1h = prev_price_1h;
      change_24h = merged_percent delta.price_24h_pcnt old.change_24h;
      turnover_24h = turnover_24h;
      volume_24h = volume_24h;
      open_interest = open_interest;
      funding_rate = funding_rate;
      timestamp = merged_time (first_some ts_ms delta.ts) old.timestamp;
    })

  abbrev pub keep_merged : Identity → PriceEngine → Result Ticker → PriceEngine × Result (Unit {0})
  keep_merged key e (ok t) = (record e { latest = set key t e.latest }, ok tt)
  keep_merged key e (err x) = (e, err x)

  abbrev pub merge_existing :
      Identity
      → Delta Wire
      → Option Wire
      → PriceEngine
      → Option Ticker
      → PriceEngine × Result (Unit {0})
  merge_existing key delta ts_ms e none = (e, ok tt)
  merge_existing key delta ts_ms e (some old) = keep_merged key e (merge_ticker old delta ts_ms)

  unfoldable pub update_from_delta :
      String → String → Delta Wire → Option Wire → PriceEngine → PriceEngine × Result (Unit {0})
  update_from_delta category symbol delta ts_ms e =
      let key : Identity = (category, symbol) in merge_existing key delta ts_ms e (get key e.latest)
