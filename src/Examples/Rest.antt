-- ===== src/Examples/Rest.antt =====
-- A server with one instrument, and the theorems on the REST client applied to it.
use bybit_crypto_monitor_tel.Base.{
  ℕ, zero, suc, ◌≡◌, ◌↔◌, refl, none, some, [], ◌==◌, String_eq, if◌then◌else◌,
}
use bybit_crypto_monitor_tel.Base.Int.{pos}
use bybit_crypto_monitor_tel.Base.Float.{finite, infinity}
use bybit_crypto_monitor_tel.Base.Result.{err, overflow_error, Ensures}
use bybit_crypto_monitor_tel.Bybit.Json.{
  integer, text, array, object, nil, item, Fields, end, field, Python, get_field,
}
use bybit_crypto_monitor_tel.Bybit.Normalizer.{parse_instrument, parse_ticker}
use bybit_crypto_monitor_tel.Bybit.Normalizer.Finite.{FiniteTicker, parse_ticker-finite}
use bybit_crypto_monitor_tel.Bybit.Normalizer.Overflow.{parse_instrument-Raises}
use bybit_crypto_monitor_tel.Bybit.Rest.{Server, fetch_instruments}
use bybit_crypto_monitor_tel.Bybit.Rest.Request.{
  Get, timed_out, response, returned, request, request_from, after_try, try_request, parse_success,
}
use bybit_crypto_monitor_tel.Bybit.Rest.Attempts.{Decides, request-Decides}
use bybit_crypto_monitor_tel.Bybit.Rest.Pages.{Pages, fetch_instruments-Pages}

-- The text "Infinity", and any other text as 8.
abbrev python : Python
python = record {
  float_of_text = λ s. if s == "Infinity" then some infinity else some (finite (pos 8));
  float_of_integer = λ n. some (finite n);
  integer_of_text = λ s. none;
  print = λ j. "";
  strip = λ s. s;
  strip_lower = λ s. s;
  hundredfold = λ x. x;
}

abbrev raw_ticker : Fields
raw_ticker = field "symbol" (text "BTCUSDT") (field "lastPrice" (text "Infinity") end)

parse_ticker-finite_example :
    Ensures FiniteTicker (parse_ticker python "spot" raw_ticker (integer (pos 0)))
parse_ticker-finite_example = parse_ticker-finite python "spot" raw_ticker (integer (pos 0))

abbrev raw_instrument : Fields
raw_instrument = field "symbol" (text "BTCUSDT") (field "launchTime" (text "Infinity") end)

parse_instrument-Raises_example :
    parse_instrument python "linear" raw_instrument ≡ err overflow_error
unfolding get_field
parse_instrument-Raises_example = parse_instrument-Raises python "linear" raw_instrument

-- The answer of the server, which has no further page.
abbrev payload : Fields
payload = field "retCode" (integer (pos 0)) (
    field "result"
      (object (field "list" (array (item (object (field "symbol" (text "BTCUSDT") end)) nil)) end))
      end)

-- The first attempt times out.
abbrev gets : ℕ → Get
gets zero = timed_out
gets (suc _) = response (record { status_code = 200; body = ""; json = some (object payload) })

retried :
    (request python 1 gets ≡ returned payload)
    × (request python 0 gets ≡ try_request python timed_out)
unfolding request request_from after_try try_request parse_success get_field
retried = (refl, refl)

request-Decides_example : Decides python 1 0 gets (request python 1 gets)
request-Decides_example = request-Decides python 1 gets

abbrev server : Server
server n cursor = gets

fetch_instruments-Pages_example :
    ((fuel : ℕ) × (fetch_instruments python 1 "linear" server fuel ≡ some (returned [])))
    ↔ Pages python 1 "linear" server 0 none (returned [])
fetch_instruments-Pages_example = fetch_instruments-Pages python 1 "linear" server (returned [])
