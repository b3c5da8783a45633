-- ===== src/Bybit/Rest.antt =====
-- app/bybit/rest.py: the endpoints of BybitRestClient.
pub mod Request
pub mod Attempts
pub mod Pages
use bybit_crypto_monitor_tel.Base.{
  ℕ, zero, suc, ◌+◌, ◌*◌, ◌-◌, ◌^◌, min, max, Bool, true, false, Option, none, some, String, List,
  [], ◌∷◌, ◌++◌, ◌==◌, ℕ_eq, String_eq, elem, ltb, nat_eq, if◌then◌else◌,
}
use bybit_crypto_monitor_tel.Base.Int.{ℤ, pos, negsuc}
use bybit_crypto_monitor_tel.Base.Float.{Float, finite, infinity, minus_infinity, nan}
use bybit_crypto_monitor_tel.Base.Result.{
  Error, Result, ok, err, overflow_error, attribute_error, type_error,
}
use bybit_crypto_monitor_tel.Bybit.Models.{Instrument, Ticker, Announcement}
use bybit_crypto_monitor_tel.Bybit.Json.{
  Json, null, boolean, integer, number, text, array, object, Items, nil, item, Fields, end,
  get_json, is_true, Python, str, str_or,
}
use bybit_crypto_monitor_tel.Bybit.Normalizer.{
  truncated, parse_instrument, parse_ticker, parse_announcement,
}
use bybit_crypto_monitor_tel.Bybit.Rest.Request.{
  RestError, is_retryable, Fetched, ◌>>=◌, lift, Response, Get, retryable_http_status,
  retryable_retcodes, is_success, text_code, code_of, is_retryable_code, ret_msg, refuse_code,
  check_code, parse_success, try_request, after_try, request_from, request, backoff_delay, timeout,
  connect, rate_limit, server, api, http_status, malformed, escaped, raised, returned, timed_out,
  not_connected, response,
}

-- `payload.get("result") or {}`
abbrev pub result_of : Json → Fetched Fields
result_of (object fields) = returned fields
result_of j = if is_true j then raised (escaped attribute_error) else returned end

module _ {ℓ} {A : Type ℓ} (parse : Fields → Result A) where
  unfoldable pub parse_items : Items → Fetched (List A)
  parse_items nil = returned []
  parse_items (item (object raw) rest) = do
    a ← lift (parse raw)
    others ← parse_items rest
    returned (a ∷ others)
  parse_items (item _ rest) = raised (escaped attribute_error)

  -- `for raw in result.get("list") or []`: only an array has objects in it.
  abbrev pub parse_list : Json → Fetched (List A)
  parse_list (array items) = parse_items items
  parse_list (text s) = if s == "" then returned [] else raised (escaped attribute_error)
  parse_list (object end) = returned []
  parse_list (object _) = raised (escaped attribute_error)
  parse_list j = if is_true j then raised (escaped type_error) else returned []

  unfoldable pub parse_payload : Fields → Fetched (List A)
  parse_payload payload = do
    result ← result_of (get_json "result" payload)
    parse_list (get_json "list" result)

unfoldable pub get_spot_instruments : Python → ℕ → (ℕ → Get) → Fetched (List Instrument)
get_spot_instruments python max_retries gets = do
  payload ← request python max_retries gets
  parse_payload (parse_instrument python "spot") payload

unfoldable pub fetch_tickers : Python → ℕ → String → (ℕ → Get) → Fetched (List Ticker)
fetch_tickers python max_retries category gets = do
  payload ← request python max_retries gets
  parse_payload (λ raw. parse_ticker python category raw null) payload

abbrev pub announcement_limit : ℕ → ℕ
announcement_limit limit = max 1 (min limit 50)

-- The server is given the limit.
unfoldable pub get_announcements : Python → ℕ → ℕ → (ℕ → ℕ → Get) → Fetched (List Announcement)
get_announcements python max_retries limit gets = do
  payload ← request python max_retries (gets (announcement_limit limit))
  parse_payload (parse_announcement python) payload

-- `int(result.get("timeSecond") or 0)`
abbrev pub server_seconds : Python → Json → Fetched ℤ
server_seconds python (text s) =
    if s == "" then returned (pos 0) else elim (python.integer_of_text s) [
      | none ↦ raised (malformed "server time missing timeSecond")
      | some n ↦ returned n
    ]
server_seconds python (integer n) = returned n
server_seconds python (boolean b) = returned (pos (if b then 1 else 0))
server_seconds python (number (finite m)) = returned (truncated m)
server_seconds python (number nan) = raised (malformed "server time missing timeSecond")
server_seconds python (number _) = raised (escaped overflow_error)
server_seconds python j =
    if is_true j then raised (malformed "server time missing timeSecond") else returned (pos 0)

unfoldable pub get_server_time : Python → ℕ → (ℕ → Get) → Fetched ℤ
get_server_time python max_retries gets = do
  payload ← request python max_retries gets
  result ← result_of (get_json "result" payload)
  server_seconds python (get_json "timeSecond" result)

-- A cursor that is not empty asks for another page.
abbrev pub cursor_of : Python → Json → Option String
cursor_of python j = if is_true j then some (str python j) else none

-- The requests of one listing: the number of the page, the cursor that is sent, and the attempt.
abbrev pub Server : Type 0
Server = ℕ → Option String → ℕ → Get

-- One page: its instruments, and the cursor of the next.
unfoldable pub fetch_page :
    Python → ℕ → String → Server → ℕ → Option String → Fetched (List Instrument × Option String)
fetch_page python max_retries category pages n cursor = do
  payload ← request python max_retries (pages n cursor)
  result ← result_of (get_json "result" payload)
  items ← parse_list (parse_instrument python category) (get_json "list" result)
  returned (items, cursor_of python (get_json "nextPageCursor" result))

-- What the loop does with a page: `none` means that it has not returned yet.
unfoldable pub after_page :
    (Option String → List Instrument → Option (Fetched (List Instrument)))
    → List Instrument
    → Fetched (List Instrument × Option String)
    → Option (Fetched (List Instrument))
after_page next results (raised e) = some (raised e)
after_page next results (returned (items, none)) = some (returned (results ++ items))
after_page next results (returned (items, some c)) = next (some c) (results ++ items)

-- The loop over the pages, on fuel, since the server decides how many there are.
unfoldable pub fetch_from :
    Python
    → ℕ
    → String
    → Server
    → ℕ
    → ℕ
    → Option String
    → List Instrument
    → Option (Fetched (List Instrument))
fetch_from python max_retries category pages zero n cursor results = none
fetch_from python max_retries category pages (suc fuel) n cursor results =
    after_page (fetch_from python max_retries category pages fuel (suc n)) results
      (fetch_page python max_retries category pages n cursor)

unfoldable pub fetch_instruments :
    Python → ℕ → String → Server → ℕ → Option (Fetched (List Instrument))
fetch_instruments python max_retries category pages fuel =
    fetch_from python max_retries category pages fuel 0 none []
