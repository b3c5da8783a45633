-- ===== src/Examples/Delivery.antt =====
-- The theorems on the outbox, its worker and the listings, applied.
use bybit_crypto_monitor_tel.Base.{
  ℕ, ◌-◌, ◌≡◌, refl, true, false, none, some, [], ◌∷◌, arith, All, ℕ_eq, String_eq, leb, any,
}
use bybit_crypto_monitor_tel.Base.Text.{concat}
use bybit_crypto_monitor_tel.Base.Result.{ok, err, overflow_error}
use bybit_crypto_monitor_tel.Base.Float.{infinity}
use bybit_crypto_monitor_tel.Persistence.Tables.{Db, Notification}
use bybit_crypto_monitor_tel.Persistence.Outbox.{
  insert_outgoing_notification, is_due, due_notifications,
}
use bybit_crypto_monitor_tel.Persistence.Listings.{unsent, record_event}
use bybit_crypto_monitor_tel.Alerts.Dispatcher.{
  Reply, delivered, failed, process_due, iteration, ended, deliver_all, deliver, next_attempt,
}
use bybit_crypto_monitor_tel.Alerts.Dispatcher.Worker.{
  returned, raised, start, new_worker, after_turns, worker_healthy, worker_healthy-recent,
}
use bybit_crypto_monitor_tel.Alerts.Dispatcher.Rows.{serve, first_error, process_due-serve}
use bybit_crypto_monitor_tel.Alerts.Dispatcher.Progress.{due_count, process_due-progress}
use bybit_crypto_monitor_tel.Alerts.Dispatcher.Delivery.{Served, iteration-Served}
use bybit_crypto_monitor_tel.Alerts.Dispatcher.Ids.{IsWellFormed, iteration-IsWellFormed}
use bybit_crypto_monitor_tel.Market.Discovery.{DiscoveryResult, Discovered}
use bybit_crypto_monitor_tel.Market.Listing.{
  handle_registry, reconcile_unsent, event_type_for, listing_events, record_all, record_and_notify,
  notify_event,
}
use bybit_crypto_monitor_tel.Market.Listing.Once.{handle_registry-once}
use bybit_crypto_monitor_tel.Market.Listing.Repair.{settled, reconcile_unsent-settled}
use bybit_crypto_monitor_tel.Main.{notifier, notify_listing}
use bybit_crypto_monitor_tel.Examples.Data.{
  config, formats, row, listing_row, outbox, empty_db, unsent_event,
}

abbrev send : Notification → Reply
send n = record { outcome = delivered; at = 200 }

-- Telegram asks for an infinite delay for each message.
abbrev send_flooded : Notification → Reply
send_flooded n = record { outcome = failed "TelegramSendError: http_429" (some infinity); at = 200 }

process_due-serve_example :
    ((process_due send_flooded 200 outbox).0.outgoing
      ≡ serve send_flooded 200 100 (row ∷ listing_row ∷ []))
    × ((process_due send_flooded 200 outbox).1
        ≡ ended
            (any (is_due 200) (row ∷ listing_row ∷ []))
            (first_error send_flooded 200 100 (row ∷ listing_row ∷ [])))
process_due-serve_example = process_due-serve send_flooded 200 outbox refl

-- The poll raises, and every row stays as it is.
flooded :
    (process_due send_flooded 200 outbox).0.outgoing ≡ outbox.outgoing
    × ((process_due send_flooded 200 outbox).1 ≡ err overflow_error)
unfolding process_due deliver_all deliver next_attempt due_notifications
flooded = (refl, refl)

process_due-progress_example :
    (due_count 200 (process_due send 200 outbox).0.outgoing ≡ due_count 200 outbox.outgoing - 100)
    × ((process_due send 200 outbox).1 ≡ ok (any (is_due 200) outbox.outgoing))
process_due-progress_example =
    process_due-progress send 200 outbox refl (λ n. omega arith) (refl, (refl, tt))

iteration-Served_example :
    Served 3600 86400 send 199 200 100 outbox.outgoing
      (iteration config send 199 200 outbox).0.outgoing
iteration-Served_example = iteration-Served config send 199 200 outbox refl

outbox-IsWellFormed : IsWellFormed outbox
outbox-IsWellFormed = record {
  given = (omega arith, (omega arith, tt));
  ids_distinct = refl;
  keys_distinct = refl;
}

iteration-IsWellFormed_example : IsWellFormed (iteration config send 199 200 outbox).0
iteration-IsWellFormed_example =
    iteration-IsWellFormed outbox outbox-IsWellFormed config send 199 200

worker_healthy-recent_example :
    worker_healthy (after_turns (raised 3 ∷ raised 2 ∷ returned 1 ∷ []) (start 0 new_worker))
    ≡ leb 2 5
worker_healthy-recent_example = worker_healthy-recent (raised 3 ∷ raised 2 ∷ returned 1 ∷ []) 0

abbrev found : DiscoveryResult
found = record {
  events =
      record {
        category = "spot";
        symbol = "NEW";
        base_coin = "NEW";
        event = Discovered.new;
        old_status = none;
        new_status = some "Trading";
        is_pre_listing = false;
      }
      ∷ [];
  instrument_count = 1;
  first_run = false;
}

handled :
    handle_registry config (notifier formats) 100 found empty_db
    ≡ ((handle_registry config (notifier formats) 100 found empty_db).0, ok (unsent_event ∷ []))
unfolding handle_registry listing_events event_type_for record_all record_and_notify notify_event
    record_event notify_listing concat insert_outgoing_notification
handled = refl

handle_registry-once_example :
    let first = (handle_registry config (notifier formats) 100 found empty_db).0 in
    handle_registry config (notifier formats) 900 found first ≡ (first, ok [])
handle_registry-once_example =
    handle_registry-once config (notifier formats) 100 900 found empty_db
      (handle_registry config (notifier formats) 100 found empty_db).0 (unsent_event ∷ []) handled

abbrev listed_db : Db
listed_db = record outbox { listing_events = unsent_event ∷ [] }

reconcile_unsent-settled_example :
    (after : Db) × (n : ℕ) × (reconcile_unsent config (notifier formats) 500 listed_db
      ≡ (after, ok n))
    × All (λ e. settled config (notifier formats) 500 e after ≡ true) (unsent listed_db)
reconcile_unsent-settled_example = reconcile_unsent-settled config (notifier formats) 500 listed_db
