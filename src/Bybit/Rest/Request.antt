-- ===== src/Bybit/Rest/Request.antt =====
-- app/bybit/rest.py: BybitRestClient._request with what it calls. What a GET comes to is an argument,
-- given by the number of the attempt. The texts of the errors that are retried are left out, since
-- they are only logged.
use bybit_crypto_monitor_tel.Base.{
  ℕ, zero, suc, ◌+◌, ◌*◌, ◌-◌, ◌^◌, min, Bool, true, false, Option, none, some, String, List, [],
  ◌∷◌, ◌==◌, ℕ_eq, String_eq, elem, ltb, nat_eq, if◌then◌else◌,
}
use bybit_crypto_monitor_tel.Base.Int.{ℤ, pos, negsuc}
use bybit_crypto_monitor_tel.Base.Float.{finite, nan}
use bybit_crypto_monitor_tel.Base.Result.{Error, Result, ok, err, overflow_error}
use bybit_crypto_monitor_tel.Bybit.Json.{
  Json, boolean, integer, number, text, object, Fields, get_json, Python, str_or,
}
use bybit_crypto_monitor_tel.Bybit.Normalizer.{truncated}

-- What a call raises: a BybitError of some class, or an exception that is none.
pub data RestError : Type 0 where
  timeout connect rate_limit server : RestError
  api : (ret_code : ℤ) (ret_msg : String) → RestError
  http_status : (status_code : ℕ) (body : String) → RestError
  malformed : (message : String) → RestError
  escaped : Error → RestError

-- `BybitRetryableError`
abbrev pub is_retryable : RestError → Bool
is_retryable timeout = true
is_retryable connect = true
is_retryable rate_limit = true
is_retryable server = true
is_retryable _ = false

pub data Fetched {ℓ} (A : Type ℓ) : Type ℓ where
  raised : RestError → Fetched A
  returned : A → Fetched A

infixl 5 ◌>>=◌
abbrev pub ◌>>=◌ {ℓ κ} : {A : Type ℓ} {B : Type κ} → Fetched A → (A → Fetched B) → Fetched B
raised e >>= f = raised e
returned a >>= f = f a

-- The exceptions of the language pass through.
abbrev pub lift {ℓ} : {A : Type ℓ} → Result A → Fetched A
lift (ok a) = returned a
lift (err e) = raised (escaped e)

pub record Response : Type 0 where
  pub status_code : ℕ
  pub body : String
  pub json : Option Json

pub data Get : Type 0 where
  timed_out not_connected : Get
  response : Response → Get

abbrev pub retryable_http_status : List ℕ
retryable_http_status = 408 ∷ 425 ∷ 429 ∷ 500 ∷ 502 ∷ 503 ∷ 504 ∷ []

abbrev pub retryable_retcodes : List ℕ
retryable_retcodes = 10002 ∷ 10006 ∷ 33004 ∷ 33005 ∷ []

-- `ret_code in (0, "0")`
abbrev pub is_success : Json → Bool
is_success (integer (pos zero)) = true
is_success (boolean false) = true
is_success (number (finite (pos zero))) = true
is_success (text s) = s == "0"
is_success _ = false

-- `int(ret_code)`, or -1 where TypeError or ValueError is caught.
abbrev pub text_code : Option ℤ → ℤ
text_code none = negsuc 0
text_code (some n) = n

abbrev pub code_of : Python → Json → Fetched ℤ
code_of python (integer n) = returned n
code_of python (boolean b) = returned (pos (if b then 1 else 0))
code_of python (number (finite m)) = returned (truncated m)
code_of python (number nan) = returned (negsuc 0)
code_of python (number _) = raised (escaped overflow_error)
code_of python (text s) = returned (text_code (python.integer_of_text s))
code_of python _ = returned (negsuc 0)

abbrev pub is_retryable_code : ℤ → Bool
is_retryable_code (pos n) = elem n retryable_retcodes
is_retryable_code (negsuc n) = false

-- `payload.get("retMsg") or payload.get("ret_msg") or "unknown"`
abbrev pub ret_msg : Python → Fields → String
ret_msg python payload =
    str_or python (get_json "retMsg" payload) (str_or python (get_json "ret_msg" payload) "unknown")

abbrev pub refuse_code : Python → Fields → ℤ → Fetched Fields
refuse_code python payload code =
    if is_retryable_code code then raised rate_limit else raised (api code (ret_msg python payload))

abbrev pub check_code : Python → Fields → Fetched Fields
check_code python payload =
    if is_success (get_json "retCode" payload)
    then returned payload
    else code_of python (get_json "retCode" payload) >>= refuse_code python payload

unfoldable pub parse_success : Python → Option Json → Fetched Fields
parse_success python none = raised (malformed "invalid JSON in response body")
parse_success python (some (object payload)) = check_code python payload
parse_success python (some _) = raised (malformed "response payload is not a JSON object")

unfoldable pub try_request : Python → Get → Fetched Fields
try_request python timed_out = raised timeout
try_request python not_connected = raised connect
try_request python (response r) =
    if elem r.status_code retryable_http_status
    then (if nat_eq r.status_code 429 then raised rate_limit else raised server)
    else if nat_eq r.status_code 200
    then parse_success python r.json
    else raised (http_status r.status_code r.body)

-- What the loop does with the end of an attempt, where `attempts` have been made.
unfoldable pub after_try {ℓ} : {A : Type ℓ} → ℕ → ℕ → (Unit {0} → Fetched A) → Fetched A → Fetched A
after_try max_retries attempts again (returned a) = returned a
after_try max_retries attempts again (raised e) =
    if is_retryable e then (if ltb max_retries attempts then raised e else again tt) else raised e

-- The loop on fuel.
unfoldable pub request_from : Python → ℕ → ℕ → (ℕ → Get) → ℕ → Fetched Fields
request_from python max_retries zero gets made = raised timeout
request_from python max_retries (suc fuel) gets made =
    after_try max_retries (made + 1) (λ _. request_from python max_retries fuel gets (made + 1))
      (try_request python (gets made))

-- One attempt more than there are retries.
unfoldable pub request : Python → ℕ → (ℕ → Get) → Fetched Fields
request python max_retries gets = request_from python max_retries (suc max_retries) gets 0

-- `_backoff_delay`, in milliseconds: what is drawn lies between 0 and the jitter.
unfoldable pub backoff_delay : ℕ → ℕ → ℕ → ℕ → ℕ → ℕ
backoff_delay base_backoff max_backoff jitter drawn attempt =
    let base = min (base_backoff * 2 ^ (attempt - 1)) max_backoff in
    if ltb 0 jitter then base + drawn else base
