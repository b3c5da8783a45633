-- ===== src/Persistence/Listings.antt =====
-- `ListingEventRepository` of app/persistence/repository.py.
use bybit_crypto_monitor_tel.Base.{
  ℕ, Bool, false, ◌&&◌, not, Option, none, some, String, List, [], ◌∷◌, ◌++◌, ◌==◌, String_eq, any,
  keep, if◌then◌else◌,
}
use bybit_crypto_monitor_tel.Persistence.Tables.{Db, ListingEvent}
use bybit_crypto_monitor_tel.Persistence.Outbox.{mark_event}

abbrev pub has_event : String → List ListingEvent → Bool
has_event key events = any (λ e. e.event_key == key) events

abbrev pub new_event : String → Option String → String → String → ℕ → ListingEvent
new_event key category symbol event_type now = record {
  event_key = key;
  category = category;
  symbol = symbol;
  event_type = event_type;
  first_seen_at = now;
  telegram_sent = false;
}

-- `INSERT OR IGNORE`: the event is returned when its key is new.
unfoldable pub record_event : ListingEvent → Db → Db × Option ListingEvent
record_event e db =
    if has_event e.event_key db.listing_events
    then (db, none)
    else (record db { listing_events = db.listing_events ++ e ∷ [] }, some e)

unfoldable pub mark_sent : String → Db → Db
mark_sent key db = record db { listing_events = mark_event key db.listing_events }

-- `telegram_sent = 0 AND event_type != 'delisted'`
abbrev pub is_unsent : ListingEvent → Bool
is_unsent e = not e.telegram_sent && not (e.event_type == "delisted")

unfoldable pub unsent : Db → List ListingEvent
unsent db = keep is_unsent db.listing_events
