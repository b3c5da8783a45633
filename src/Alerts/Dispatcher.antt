-- ===== src/Alerts/Dispatcher.antt =====
-- app/alerts/dispatcher.py: the worker that delivers the outbox. What `client.send_message` does
-- with a row, and the clock read after it, are the row's `Reply`.
pub mod Worker
pub mod Delays
pub mod Rows
pub mod Progress
pub mod Due
pub mod Delivery
pub mod Ids
use bybit_crypto_monitor_tel.Base.{
  ℕ, zero, suc, ◌+◌, ◌-◌, ◌/◌, ◌^◌, ltb, min, max, Bool, ◌&&◌, Option, none, some, String, List, [],
  ◌∷◌, String_eq, some_eq, length, nat_eq, if◌then◌else◌, get_or, not, ◌==◌,
}
use bybit_crypto_monitor_tel.Base.Int.{pos, negsuc}
use bybit_crypto_monitor_tel.Base.Float.{Float, finite, infinity, minus_infinity, nan}
use bybit_crypto_monitor_tel.Base.Result.{
  Error, Result, ok, err, value_error, overflow_error, ◌>>=◌,
}
use bybit_crypto_monitor_tel.Config.{Settings, whole_seconds}
use bybit_crypto_monitor_tel.Persistence.Tables.{Db, Notification, transaction}
use bybit_crypto_monitor_tel.Persistence.Outbox.{
  mark_notification_sent, mark_notification_retry, mark_notification_dead, mark_listing_sent,
  due_notifications, expire_notifications, is_listing, insert_outgoing_notification, count_unsent,
}

abbrev pub retry_delays : List ℕ
retry_delays = 10 ∷ 30 ∷ 60 ∷ 300 ∷ 600 ∷ 1200 ∷ 2400 ∷ 3600 ∷ []

abbrev pub get_elem? {ℓ} : {A : Type ℓ} → List A → ℕ → Option A
get_elem? [] n = none
get_elem? (x ∷ xs) zero = some x
get_elem? (x ∷ xs) (suc n) = get_elem? xs n

-- The index of no attempts is -1, the last element.
abbrev pub delay_index : ℕ → ℕ
delay_index attempt_count =
    let last = min attempt_count (length retry_delays) in
    if nat_eq last 0 then length retry_delays - 1 else last - 1

-- The index is always in range.
unfoldable pub retry_delay_for : ℕ → ℕ
retry_delay_for attempt_count = get_or (get_elem? retry_delays (delay_index attempt_count)) 0

-- How `send_message` ends: it returns, it raises TelegramPermanentError, or it raises another
-- exception, which may have a `retry_after` in seconds.
pub data SendOutcome : Type 0 where
  delivered : SendOutcome
  permanent : (error : String) → SendOutcome
  failed : (error : String) (retry_after : Option Float) → SendOutcome

pub record Reply : Type 0 where
  pub outcome : SendOutcome
  pub at : ℕ

-- `row["origin_key"]` is neither None nor empty.
abbrev origin_of : Option String → Option String
origin_of none = none
origin_of (some key) = if key == "" then none else some key

abbrev pub listing_origin : Notification → Option String
listing_origin row = if is_listing row then origin_of row.origin_key else none

-- What is written after a message was accepted.
unfoldable pub confirm : Notification → ℕ → Option String → Db → Db
confirm row now none db = mark_notification_sent row.id now db
confirm row now (some key) db =
    (transaction {0}
      (λ current. ok (mark_listing_sent key (mark_notification_sent row.id now current), tt)) db).0

-- `int(retry_after)`; a negative number counts for as much as 0 does in the `max` that reads it.
abbrev int_seconds : Float → Result ℕ
int_seconds (finite (pos m)) = ok (m / 2 ^ 1074)
int_seconds (finite (negsuc m)) = ok 0
int_seconds nan = err value_error
int_seconds infinity = err overflow_error
int_seconds minus_infinity = err overflow_error

abbrev retry_in : ℕ → Option Float → Result ℕ
retry_in attempts none = ok (retry_delay_for attempts)
retry_in attempts (some retry_after) = do
  seconds ← int_seconds retry_after
  ok (max (retry_delay_for attempts) seconds)

-- A column holds integers below 2^63; the binding of a larger one raises OverflowError.
abbrev fits_column : ℕ → Result ℕ
fits_column t = if ltb t (2 ^ 63) then ok t else err overflow_error

-- `next_attempt_at`, where the clock is read at a time and so many attempts were made.
unfoldable pub next_attempt : ℕ → ℕ → Option Float → Result ℕ
next_attempt now attempts retry_after = do
  delay ← retry_in attempts retry_after
  fits_column (now + delay)

abbrev pub write_retry : Notification → String → ℕ → Db → Result ℕ → Db × Option Error
write_retry row error now db (err e) = (db, some e)
write_retry row error now db (ok next_attempt_at) =
    (mark_notification_retry row.id error next_attempt_at now db, none)

-- An exception that leaves the call is returned beside the database.
unfoldable pub deliver : Reply → Notification → Db → Db × Option Error
deliver reply row db = elim reply.outcome [
  | delivered ↦ (confirm row reply.at (listing_origin row) db, none)
  | permanent error ↦ (mark_notification_dead row.id error db, none)
  | failed error retry_after ↦
      write_retry row error reply.at db (next_attempt reply.at (row.attempt_count + 1) retry_after)
]

abbrev pub unless_raised {ℓ} :
    {A : Type ℓ} → (A → A × Option Error) → A × Option Error → A × Option Error
unless_raised next (a, none) = next a
unless_raised next (a, some e) = (a, some e)

-- The rows after one whose delivery raised are not attempted.
unfoldable pub deliver_all : (Notification → Reply) → List Notification → Db → Db × Option Error
deliver_all send [] db = (db, none)
deliver_all send (row ∷ rows) db = unless_raised (deliver_all send rows) (deliver (send row) row db)

-- The rows of one poll.
abbrev pub poll_limit : ℕ
poll_limit = 100

abbrev pub has_rows : List Notification → Bool
has_rows [] = Bool.false
has_rows (row ∷ rows) = Bool.true

abbrev pub ended : Bool → Option Error → Result Bool
ended processed none = ok processed
ended processed (some e) = err e

unfoldable pub process_due : (Notification → Reply) → ℕ → Db → Db × Result Bool
process_due send now db =
    let rows = due_notifications poll_limit now db in
    let (after, raised) = deliver_all send rows db in (after, ended (has_rows rows) raised)

-- One cycle up to the wait: the clock is read for the expiry and again for the poll. The result
-- tells whether the worker goes on at once.
unfoldable pub iteration : Settings → (Notification → Reply) → ℕ → ℕ → Db → Db × Result Bool
iteration config send expiry_now now db =
    let (expired, _) =
      expire_notifications (whole_seconds config.notification_max_age_seconds)
        (whole_seconds config.listing_notification_max_age_seconds) expiry_now db in
    process_due send now expired

-- `enqueue`, up to the call of `wake`.
unfoldable pub enqueue :
    String → String → Option String → Option String → Option String → ℕ → Db → Result (Db × ℕ)
enqueue text tag dedupe_key origin_type origin_key now db =
    insert_outgoing_notification tag text now dedupe_key origin_type origin_key db

unfoldable pub depth : Db → ℕ
depth db = count_unsent db
