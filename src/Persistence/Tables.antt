-- ===== src/Persistence/Tables.antt =====
-- The tables of app/persistence/migrations.py that the modelled parts read and write, and the
-- transaction of app/persistence/database.py.
use bybit_crypto_monitor_tel.Base.{ℕ, ◌≡◌, refl, Bool, Option, String, List}
use bybit_crypto_monitor_tel.Base.Result.{Error, Result, ok, err}

-- The states of the alert policy, stored as text in `alert_state.state`.
pub data State : Type 0 where
  empty active_range over_range : State

-- The row of `alert_state`; the fingerprint is the list that its JSON text stands for.
pub record AlertState : Type 0 where
  pub state : State
  pub fingerprint : List String
  pub updated_at : ℕ
  pub last_transition_at : Option ℕ
  pub pending_since : Option ℕ
  pub pending_from : Option State
  pub last_hourly_bucket : Option String
  pub last_composition_at : Option ℕ

pub data DeliveryStatus : Type 0 where
  pending retry sent dead : DeliveryStatus

pub record Notification : Type 0 where
  pub id : ℕ
  pub message_tag : String
  pub message : String
  pub created_at : ℕ
  pub status : DeliveryStatus
  pub sent_at : Option ℕ
  pub error : Option String
  pub dedupe_key : Option String
  pub attempt_count : ℕ
  pub next_attempt_at : Option ℕ
  pub last_attempt_at : Option ℕ
  pub origin_type : Option String
  pub origin_key : Option String

pub record ListingEvent : Type 0 where
  pub event_key : String
  pub category : Option String
  pub symbol : String
  pub event_type : String
  pub first_seen_at : ℕ
  pub telegram_sent : Bool

-- `last_id` is SQLite's AUTOINCREMENT counter; the rows of a table stand in the order of insertion.
pub record Db : Type 0 where
  pub alert_state : Option AlertState
  pub outgoing : List Notification
  pub last_id : ℕ
  pub listing_events : List ListingEvent

-- `async with db.transaction()`: what the block wrote is kept if it returns, and rolled back if it
-- raises.
unfoldable pub transaction {ℓ} : {A : Type ℓ} → (Db → Result (Db × A)) → Db → Db × Result A
transaction body db = elim (body db) [ ok (written, a) ↦ (written, ok a) | err e ↦ (db, err e) ]

pub transaction-err {ℓ} :
    {A : Type ℓ} (body : Db → Result (Db × A)) (db : Db) (e : Error)
    → body db ≡ err e
    → transaction body db ≡ (db, err e)
unfolding transaction
transaction-err body db e h = rw (h, transaction) refl

pub transaction-ok {ℓ} :
    {A : Type ℓ} (body : Db → Result (Db × A)) (db written : Db) (a : A)
    → body db ≡ ok (written, a)
    → transaction body db ≡ (written, ok a)
unfolding transaction
transaction-ok body db written a h = rw (h, transaction) refl
