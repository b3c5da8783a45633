-- ===== src/Persistence/Outbox.antt =====
-- `Repository` of app/persistence/repository.py: the outbox of notifications. `now` is the value of
-- `int(time.time())` that a call reads.
use bybit_crypto_monitor_tel.Base.{
  ℕ, suc, ◌+◌, ◌≡◌, refl, Bool, true, false, ◌&&◌, ◌||◌, not, Option, none, some, String, List, [],
  ◌∷◌, ◌++◌, ◌==◌, String_eq, ℕ_eq, some_eq, ltb, leb, any, keep, take, length, if◌then◌else◌,
}
use bybit_crypto_monitor_tel.Base.Result.{Result, ok, err, integrity_error}
use bybit_crypto_monitor_tel.Base.Text.{text_take}
use bybit_crypto_monitor_tel.Persistence.Tables.{
  Db, Notification, ListingEvent, DeliveryStatus, pending, retry, sent, dead,
}

-- `status IN ('pending', 'retry')`
abbrev pub is_open : DeliveryStatus → Bool
is_open pending = true
is_open retry = true
is_open sent = false
is_open dead = false

abbrev pub has_dedupe_key : String → Notification → Bool
has_dedupe_key key n = some_eq n.dedupe_key key

abbrev pub new_notification :
    ℕ → String → String → ℕ → Option String → Option String → Option String → Notification
new_notification id tag message created_at dedupe_key origin_type origin_key = record {
  id = id;
  message_tag = tag;
  message = message;
  created_at = created_at;
  status = pending;
  sent_at = none;
  error = none;
  dedupe_key = dedupe_key;
  attempt_count = 0;
  next_attempt_at = none;
  last_attempt_at = none;
  origin_type = origin_type;
  origin_key = origin_key;
}

-- Whether the partial unique index on `dedupe_key` rejects the key.
abbrev pub is_duplicate : Option String → List Notification → Bool
is_duplicate none rows = false
is_duplicate (some key) rows = any (has_dedupe_key key) rows

-- Returns the row's id.
unfoldable pub insert_outgoing_notification :
    (tag message : String) (created_at : ℕ) (dedupe_key origin_type origin_key : Option String)
    → Db
    → Result (Db × ℕ)
insert_outgoing_notification tag message created_at dedupe_key origin_type origin_key db =
    if is_duplicate dedupe_key db.outgoing
    then err integrity_error
    else let id = suc db.last_id in
      ok (
        record db {
          outgoing =
              db.outgoing
              ++ new_notification id tag message created_at dedupe_key origin_type origin_key ∷ [];
          last_id = id;
        },
        id,
      )

module _ (tag message : String) (at : ℕ) (key origin_type origin_key : Option String)
    (db : Db) where
  pub insert-duplicate :
      is_duplicate key db.outgoing ≡ true
      → insert_outgoing_notification tag message at key origin_type origin_key db
        ≡ err integrity_error
  unfolding insert_outgoing_notification
  insert-duplicate h = rw h refl

  pub insert-new :
      is_duplicate key db.outgoing ≡ false
      → insert_outgoing_notification tag message at key origin_type origin_key db
        ≡ ok (
          record db {
            outgoing =
                db.outgoing
                ++ new_notification (suc db.last_id) tag message at key origin_type origin_key ∷ [];
            last_id = suc db.last_id;
          },
          suc db.last_id,
        )
  unfolding insert_outgoing_notification
  insert-new h = rw h refl

-- `UPDATE outgoing_notifications SET … WHERE id = ?`
unfoldable pub update_rows :
    ℕ → (Notification → Notification) → List Notification → List Notification
update_rows id f [] = []
update_rows id f (n ∷ ns) = (if n.id == id then f n else n) ∷ update_rows id f ns

abbrev pub as_sent : ℕ → Notification → Notification
as_sent now n = record n { status = sent; sent_at = some now }

abbrev pub as_retry : String → ℕ → ℕ → Notification → Notification
as_retry error next_attempt_at now n = record n {
  status = retry;
  error = some error;
  attempt_count = n.attempt_count + 1;
  last_attempt_at = some now;
  next_attempt_at = some next_attempt_at;
}

abbrev pub as_dead : String → Notification → Notification
as_dead error n = record n { status = dead; error = some error }

unfoldable pub mark_notification_sent : ℕ → ℕ → Db → Db
unfolding update_rows
mark_notification_sent id now db = record db { outgoing = update_rows id (as_sent now) db.outgoing }

unfoldable pub mark_notification_retry : ℕ → String → ℕ → ℕ → Db → Db
unfolding update_rows
mark_notification_retry id error next_attempt_at now db = record db {
  outgoing = update_rows id (as_retry (text_take 500 error) next_attempt_at now) db.outgoing;
}

unfoldable pub mark_notification_dead : ℕ → String → Db → Db
unfolding update_rows
mark_notification_dead id error db = record db {
  outgoing = update_rows id (as_dead (text_take 500 error)) db.outgoing;
}

-- `next_attempt_at IS NULL OR next_attempt_at <= now`
abbrev pub may_attempt : Option ℕ → ℕ → Bool
may_attempt none now = true
may_attempt (some t) now = leb t now

abbrev pub is_due : ℕ → Notification → Bool
is_due now n = is_open n.status && may_attempt n.next_attempt_at now

-- The rows stand in the order of their ids, so `ORDER BY id ASC` leaves them as they are.
unfoldable pub due_notifications : ℕ → ℕ → Db → List Notification
due_notifications limit now db = take limit (keep (is_due now) db.outgoing)

-- `created_at < now - age` on integers of any sign.
abbrev pub is_older : ℕ → ℕ → ℕ → Bool
is_older created_at now age = ltb (created_at + age) now

abbrev pub is_listing : Notification → Bool
is_listing n = some_eq n.origin_type "listing"

abbrev pub is_expired : ℕ → ℕ → ℕ → Notification → Bool
is_expired alert_max_age listing_max_age now n =
    is_open n.status
    && ((is_listing n && is_older n.created_at now listing_max_age)
        || (not (is_listing n) && is_older n.created_at now alert_max_age))

unfoldable pub expire_rows : ℕ → ℕ → ℕ → List Notification → List Notification
expire_rows alert_max_age listing_max_age now [] = []
expire_rows alert_max_age listing_max_age now (n ∷ ns) =
    (if is_expired alert_max_age listing_max_age now n then as_dead "expired" n else n)
    ∷ expire_rows alert_max_age listing_max_age now ns

-- Returns the number of rows that it marks.
unfoldable pub expire_notifications : ℕ → ℕ → ℕ → Db → Db × ℕ
unfolding expire_rows
expire_notifications alert_max_age listing_max_age now db = (
  record db { outgoing = expire_rows alert_max_age listing_max_age now db.outgoing },
  length (keep (is_expired alert_max_age listing_max_age now) db.outgoing),
)

unfoldable pub count_unsent : Db → ℕ
count_unsent db = length (keep (λ n. is_open n.status) db.outgoing)

abbrev is_dead : DeliveryStatus → Bool
is_dead dead = true
is_dead _ = false

unfoldable pub count_dead : Db → ℕ
count_dead db = length (keep (λ n. is_dead n.status) db.outgoing)

unfoldable pub find_row : String → List Notification → Option Notification
find_row key [] = none
find_row key (n ∷ ns) = if has_dedupe_key key n then some n else find_row key ns

unfoldable pub find_notification_by_dedupe : String → Db → Option Notification
unfolding find_row
find_notification_by_dedupe key db = find_row key db.outgoing

unfoldable pub mark_event : String → List ListingEvent → List ListingEvent
mark_event key [] = []
mark_event key (e ∷ es) =
    (if e.event_key == key then record e { telegram_sent = true } else e) ∷ mark_event key es

unfoldable pub mark_listing_sent : String → Db → Db
unfolding mark_event
mark_listing_sent key db = record db { listing_events = mark_event key db.listing_events }
