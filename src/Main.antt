-- ===== src/Main.antt =====
-- app/main.py: how the parts are put together.
pub mod MarketLoop
pub mod Replies
pub mod Rounds
use bybit_crypto_monitor_tel.Base.{ℕ, suc, ◌≡◌, refl, some, any, true, false, ◌++◌, ◌∷◌, []}
use bybit_crypto_monitor_tel.Base.Result.{Result, ok, err, ◌>>=◌, integrity_error}
use bybit_crypto_monitor_tel.Persistence.Tables.{Db, ListingEvent, Notification}
use bybit_crypto_monitor_tel.Persistence.Outbox.{
  has_dedupe_key, new_notification, insert-new, insert-duplicate,
}
use bybit_crypto_monitor_tel.Alerts.Formatter.{Formats, format_listing_alert}
use bybit_crypto_monitor_tel.Alerts.Dispatcher.{enqueue}
use bybit_crypto_monitor_tel.Market.Listing.{Notifier, listing_dedupe_key}

module _ (text : Formats) where
  -- `Application._notify_listing`
  unfoldable pub notify_listing : ListingEvent → ℕ → Db → Result Db
  unfolding enqueue
  notify_listing e now db = do
    (written, id) ←
        enqueue (format_listing_alert text e now) "listing" (some (listing_dedupe_key e.event_key))
          (some "listing") (some e.event_key) now db
    ok written

  abbrev pub listing_row : ListingEvent → ℕ → ℕ → Notification
  listing_row e id now =
      new_notification id "listing" (format_listing_alert text e now) now
        (some (listing_dedupe_key e.event_key)) (some "listing") (some e.event_key)

  pub notify_new_lem :
      (e : ListingEvent) (now : ℕ) (db : Db)
      → any (has_dedupe_key (listing_dedupe_key e.event_key)) db.outgoing ≡ false
      → notify_listing e now db
        ≡ ok (record db {
          outgoing = db.outgoing ++ listing_row e (suc db.last_id) now ∷ [];
          last_id = suc db.last_id;
        })
  unfolding notify_listing enqueue
  notify_new_lem e now db h =
      rw
        (insert-new "listing" (format_listing_alert text e now) now
          (some (listing_dedupe_key e.event_key)) (some "listing") (some e.event_key) db h)
        refl

  pub notify_taken_lem :
      (e : ListingEvent) (now : ℕ) (db : Db)
      → any (has_dedupe_key (listing_dedupe_key e.event_key)) db.outgoing ≡ true
      → notify_listing e now db ≡ err integrity_error
  unfolding notify_listing enqueue
  notify_taken_lem e now db h =
      rw
        (insert-duplicate "listing" (format_listing_alert text e now) now
          (some (listing_dedupe_key e.event_key)) (some "listing") (some e.event_key) db h)
        refl

  -- The tracker's notifier in the running program.
  abbrev pub notifier : Notifier
  notifier = record {
    notify = notify_listing;
    row = listing_row;
    row_key = λ e id now. refl;
    row_open = λ e id now. refl;
    notify_new = notify_new_lem;
    notify_taken = notify_taken_lem;
  }
