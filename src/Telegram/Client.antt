-- ===== src/Telegram/Client.antt =====
-- app/telegram/client.py: TelegramClient. What a post ends with is an `Answer`, an argument for
-- each attempt.
use bybit_crypto_monitor_tel.Base.{
  ℕ, zero, suc, ◌+◌, Bool, Option, none, some, String, List, [], ◌∷◌, ltb, leb, nat_eq,
  if◌then◌else◌,
}
use bybit_crypto_monitor_tel.Base.Text.{concat, decimal}
use bybit_crypto_monitor_tel.Base.Float.{Float}
use bybit_crypto_monitor_tel.Telegram.Split.{message_chunk_limit, split_message}
use bybit_crypto_monitor_tel.Alerts.Dispatcher.{SendOutcome, delivered, permanent, failed}

pub record Client : Type 0 where
  pub last_success_at : Option ℕ
  pub last_error_at : Option ℕ
  pub last_error_type : Option String

-- `parameters.retry_after` of a JSON object: missing or null, a value that `float` makes a number of,
-- or one at which the reading raises an exception. An exception that is not caught here is the text that
-- the dispatcher makes of it.
pub data Retry : Type 0 where
  missing : Retry
  seconds : Float → Retry
  unreadable : (error : String) → Retry

pub record Body : Type 0 where
  pub is_ok : Bool
  pub retry_after : Retry

-- What `response.json()` comes to: it raises; a value that is no object, on which `get` raises; or an
-- object.
pub data Decoded : Type 0 where
  no_json no_object : (error : String) → Decoded
  object : Body → Decoded

-- The header is absent when it is not a number.
pub record Response : Type 0 where
  pub status_code : ℕ
  pub body : Decoded
  pub header_retry_after : Option Float

-- A post raises an httpx.HTTPError of a class, or returns a response.
pub data Post : Type 0 where
  http_error : (class_name : String) → Post
  response : Response → Post

-- The clock that is read after the post stands beside it.
pub record Answer : Type 0 where
  pub post : Post
  pub at : ℕ

abbrev record_failure : ℕ → String → Client → Client
record_failure now error_type c = record c {
  last_error_at = some now;
  last_error_type = some error_type;
}

-- What `_parse_retry_after` raises or returns.
pub data Parsed : Type 0 where
  unparsed : (error : String) → Parsed
  parsed : (delay : Option Float) → Parsed

-- The header stands in for a number that is missing.
abbrev read_retry : Option Float → Retry → Parsed
read_retry header missing = parsed header
read_retry header (seconds s) = parsed (some s)
read_retry header (unreadable error) = unparsed error

abbrev pub read_decoded : Option Float → Decoded → Parsed
read_decoded header (no_json error) = parsed header
read_decoded header (no_object error) = unparsed error
read_decoded header (object b) = read_retry header b.retry_after

abbrev parse_retry_after : Response → Parsed
parse_retry_after r = read_decoded r.header_retry_after r.body

-- What one attempt raises or returns: an exception that the loop catches, or the end of the call.
pub data Verdict : Type 0 where
  retryable : (class_name : String) → Verdict
  settled : SendOutcome → Verdict

abbrev pub http_status : ℕ → String
http_status status_code = concat ("http_" ∷ decimal status_code ∷ [])

unfoldable pub permanent_failure : ℕ → String → Client → Client × Verdict
permanent_failure now error c = (
  record_failure now error c,
  settled (permanent (concat ("TelegramPermanentError: " ∷ error ∷ []))),
)

unfoldable pub read_body : ℕ → Decoded → Client → Client × Verdict
read_body now (no_json error) c = (c, settled (failed error none))
read_body now (no_object error) c = (c, settled (failed error none))
read_body now (object b) c =
    if b.is_ok
    then (record c { last_success_at = some now }, settled delivered)
    else permanent_failure now "telegram_ok_false" c

-- The flood control of Telegram; an exception of the parsing leaves the call.
unfoldable pub flood_control : ℕ → Parsed → Client → Client × Verdict
flood_control now (unparsed error) c = (c, settled (failed error none))
flood_control now (parsed delay) c =
    (record_failure now "http_429" c, settled (failed "TelegramSendError: http_429" delay))

-- The body of the `try`.
unfoldable pub attempt_once : Answer → Client → Client × Verdict
attempt_once a c = elim a.post [
  | http_error class_name ↦ (c, retryable class_name)
  | response r ↦
      if nat_eq r.status_code 429
      then flood_control a.at (parse_retry_after r) c
      else if leb 500 r.status_code
      then (c, retryable "_RetryableSendError")
      else if leb 400 r.status_code
      then permanent_failure a.at (http_status r.status_code) c
      else read_body a.at r.body c
]

abbrev attempt_text : String → ℕ → String
attempt_text class_name attempt = concat (class_name ∷ ":attempt_" ∷ decimal attempt ∷ [])

abbrev exhausted_text : String → String
exhausted_text class_name = concat ("retries_exhausted:" ∷ class_name ∷ [])

abbrev exhausted : String → SendOutcome
exhausted class_name = failed (concat ("TelegramSendError: " ∷ exhausted_text class_name ∷ [])) none

-- What the loop does with an attempt: it ends, gives up, or goes on after a delay.
unfoldable pub after_attempt :
    ℕ → ℕ → ℕ → Client → (Client → Client × SendOutcome) → Verdict → Client × SendOutcome
after_attempt max_retries now attempt c again (settled outcome) = (c, outcome)
after_attempt max_retries now attempt c again (retryable class_name) =
    let noted = record_failure now (attempt_text class_name (attempt + 1)) c in
    if ltb max_retries (attempt + 1)
    then (record_failure now (exhausted_text class_name) noted, exhausted class_name)
    else again noted

-- The loop on fuel, from an attempt on, where the answer to each attempt is given by its number.
unfoldable pub send_from : ℕ → ℕ → (ℕ → Answer) → ℕ → Client → Client × SendOutcome
send_from max_retries zero answers attempt c = (c, exhausted "out of fuel")
send_from max_retries (suc fuel) answers attempt c =
    let (heard, verdict) = attempt_once (answers attempt) c in
    after_attempt max_retries (answers attempt).at attempt heard
      (λ noted. send_from max_retries fuel answers (attempt + 1) noted) verdict

-- One attempt more than there are retries.
unfoldable pub send_chunk : ℕ → (ℕ → Answer) → Client → Client × SendOutcome
send_chunk max_retries answers c = send_from max_retries (suc max_retries) answers 0 c

-- An exception ends the call, and the chunks that follow are not sent.
unfoldable pub after_chunk :
    Client → (Client → Client × SendOutcome) → SendOutcome → Client × SendOutcome
after_chunk c next delivered = next c
after_chunk c next (permanent error) = (c, permanent error)
after_chunk c next (failed error retry_after) = (c, failed error retry_after)

-- The loop over the chunks, where each is numbered. What a post comes to is given by the number of
-- the chunk, its text and the number of the attempt.
unfoldable pub send_chunks :
    ℕ → (ℕ → String → ℕ → Answer) → ℕ → List String → Client → Client × SendOutcome
send_chunks max_retries answers n [] c = (c, delivered)
send_chunks max_retries answers n (chunk ∷ chunks) c =
    let (sent, outcome) = send_chunk max_retries (answers n chunk) c in
    after_chunk sent (λ later. send_chunks max_retries answers (suc n) chunks later) outcome

unfoldable pub send_message : ℕ → (ℕ → String → ℕ → Answer) → String → Client → Client × SendOutcome
send_message max_retries answers text c =
    send_chunks max_retries answers 0 (split_message text message_chunk_limit) c
