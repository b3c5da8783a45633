-- ===== src/Bybit/Normalizer.antt =====
-- app/bybit/normalizer.py: the domain models from JSON objects.
pub mod Finite
pub mod Overflow
use bybit_crypto_monitor_tel.Base.{
  ℕ, zero, suc, ◌/◌, ◌^◌, Bool, true, false, ◌||◌, Option, none, some, String, List, [], ◌∷◌, ◌==◌,
  String_eq, elem, if◌then◌else◌, option_map,
}
use bybit_crypto_monitor_tel.Base.Int.{ℤ, pos, negsuc}
use bybit_crypto_monitor_tel.Base.Float.{Float, finite, infinity, minus_infinity, nan, is_finite}
use bybit_crypto_monitor_tel.Base.Result.{Result, ok, err, overflow_error, ◌>>=◌}
use bybit_crypto_monitor_tel.Bybit.Models.{Instrument, Ticker, Announcement}
use bybit_crypto_monitor_tel.Bybit.Json.{
  Json, null, boolean, integer, number, text, array, object, Items, nil, item, Fields, get_json,
  is_true, Python, str, str_or,
}

-- `float(n)` of an integer raises OverflowError, which the callers do not catch.
abbrev pub integer_float : Option Float → Result (Option Float)
integer_float none = err overflow_error
integer_float (some x) = ok (some x)

-- `float(value)`, none where TypeError or ValueError is caught.
unfoldable pub float_of : Python → Json → Result (Option Float)
float_of python null = ok none
float_of python (boolean b) = integer_float (python.float_of_integer (pos (if b then 1 else 0)))
float_of python (integer n) = integer_float (python.float_of_integer n)
float_of python (number x) = ok (some x)
float_of python (text s) = ok (python.float_of_text s)
float_of python (array _) = ok none
float_of python (object _) = ok none

abbrev pub if_finite : Option Float → Option Float
if_finite none = none
if_finite (some x) = if is_finite x then some x else none

unfoldable pub as_float : Python → Json → Result (Option Float)
as_float python j = do x ← float_of python j; ok (if_finite x)

-- `int(x)` of a finite float, toward zero.
unfoldable pub truncated : ℤ → ℤ
truncated (pos n) = pos (n / 2 ^ 1074)
truncated (negsuc n) = elim (suc n / 2 ^ 1074) [ zero ↦ pos 0 | suc k ↦ negsuc k ]

-- `n // 1000`, toward minus infinity.
abbrev pub thousandth : ℤ → ℤ
thousandth (pos n) = pos (n / 1000)
thousandth (negsuc n) = negsuc (n / 1000)

-- `int(x) // 1000`: ValueError, for NaN, is caught, and OverflowError is not.
unfoldable pub whole_seconds : Option Float → Result (Option ℤ)
whole_seconds none = ok none
whole_seconds (some (finite m)) = ok (some (thousandth (truncated m)))
whole_seconds (some nan) = ok none
whole_seconds (some infinity) = err overflow_error
whole_seconds (some minus_infinity) = err overflow_error

unfoldable pub as_int_seconds : Python → Json → Result (Option ℤ)
as_int_seconds python j = do x ← float_of python j; whole_seconds x

unfoldable pub percent_from_fraction : Python → Json → Result (Option Float)
percent_from_fraction python j = do raw ← as_float python j; ok (option_map python.hundredfold raw)

unfoldable pub as_bool : Python → Json → Bool
as_bool python (boolean b) = b
as_bool python null = false
as_bool python j = elem (python.strip_lower (str python j)) ("true" ∷ "1" ∷ "yes" ∷ "on" ∷ [])

-- A value that is kept as it came: a text, or nothing. The program keeps any other value too; it
-- stands here as its text.
abbrev pub kept : Python → Json → Option String
kept python null = none
kept python (text s) = some s
kept python j = some (python.print j)

unfoldable pub parse_instrument : Python → String → Fields → Result Instrument
parse_instrument python category raw =
    let status = str_or python (get_json "status" raw) "Unknown" in
    do
      launch_time ← as_int_seconds python (get_json "launchTime" raw)
      delivery_time ← as_int_seconds python (get_json "deliveryTime" raw)
      ok (record {
        category = category;
        symbol = str_or python (get_json "symbol" raw) "";
        base_coin = str_or python (get_json "baseCoin" raw) "";
        quote_coin = kept python (get_json "quoteCoin" raw);
        settle_coin = kept python (get_json "settleCoin" raw);
        contract_type = kept python (get_json "contractType" raw);
        status = status;
        launch_time = launch_time;
        delivery_time = delivery_time;
        is_pre_listing = status == "PreLaunch" || as_bool python (get_json "isPreListing" raw);
      })

-- The time of the message, unless it is None, before that of the data.
abbrev pub time_value : Json → Fields → Json
time_value null raw = get_json "timestamp" raw
time_value ts_ms raw = ts_ms

abbrev pub or_zero : Option ℤ → ℤ
or_zero none = pos 0
or_zero (some t) = t

unfoldable pub parse_ticker : Python → String → Fields → Json → Result Ticker
parse_ticker python category raw ts_ms = do
  timestamp ← as_int_seconds python (time_value ts_ms raw)
  last_price ← as_float python (get_json "lastPrice" raw)
  mark_price ← as_float python (get_json "markPrice" raw)
  index_price ← as_float python (get_json "indexPrice" raw)
  prev_price_1h ← as_float python (get_json "prevPrice1h" raw)
  change_24h ← percent_from_fraction python (get_json "price24hPcnt" raw)
  turnover_24h ← as_float python (get_json "turnover24h" raw)
  volume_24h ← as_float python (get_json "volume24h" raw)
  open_interest ← as_float python (get_json "openInterest" raw)
  funding_rate ← as_float python (get_json "fundingRate" raw)
  ok (record {
    category = category;
    symbol = str_or python (get_json "symbol" raw) "";
    last_price = last_price;
    mark_price = mark_price;
    index_price = index_price;
    prev_price_1h = prev_price_1h;
    change_24h = change_24h;
    turnover_24h = turnover_24h;
    volume_24h = volume_24h;
    open_interest = open_interest;
    funding_rate = funding_rate;
    timestamp = or_zero timestamp;
  })

-- The type's key and title; a flat value is the key.
abbrev pub announcement_type : Python → Json → Option String × Option String
announcement_type python (object fields) =
    (kept python (get_json "key" fields), kept python (get_json "title" fields))
announcement_type python j = (kept python j, none)

unfoldable pub texts_in : Items → List String
texts_in nil = []
texts_in (item (text s) rest) = s ∷ texts_in rest
texts_in (item _ rest) = texts_in rest

abbrev pub tags_of : Python → Json → List String
tags_of python (array items) = texts_in items
tags_of python (text s) = if python.strip s == "" then [] else s ∷ []
tags_of python _ = []

unfoldable pub parse_announcement : Python → Fields → Result Announcement
parse_announcement python raw =
    let (type_key, type_title) = announcement_type python (get_json "type" raw) in
    do
      timestamp ← as_int_seconds python (get_json "dateTimestamp" raw)
      ok (record {
        id = str_or python (get_json "id" raw) "";
        title = str_or python (get_json "title" raw) "";
        description = str_or python (get_json "description" raw) "";
        type_key = type_key;
        type_title = type_title;
        tags = tags_of python (get_json "tags" raw);
        timestamp = or_zero timestamp;
      })
