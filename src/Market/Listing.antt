-- ===== src/Market/Listing.antt =====
-- app/market/listing.py: listing events, recorded once, and their messages. What the tracker is
-- given as `notify` is the interface `Notifier`.
pub mod Once
pub mod Repair
use bybit_crypto_monitor_tel.Base.{
  ℕ, suc, ◌+◌, ◌≡◌, Bool, true, false, ◌&&◌, ◌||◌, not, Option, none, some, String, List, [], ◌∷◌,
  ◌++◌, ◌==◌, String_eq, some_eq, any, if◌then◌else◌, get_or,
}
use bybit_crypto_monitor_tel.Base.Text.{concat}
use bybit_crypto_monitor_tel.Base.Result.{Result, ok, err, integrity_error}
use bybit_crypto_monitor_tel.Config.{Settings}
use bybit_crypto_monitor_tel.Bybit.Models.{Announcement}
use bybit_crypto_monitor_tel.Persistence.Tables.{
  Db, ListingEvent, Notification, DeliveryStatus, pending, sent,
}
use bybit_crypto_monitor_tel.Persistence.Outbox.{has_dedupe_key, find_notification_by_dedupe}
use bybit_crypto_monitor_tel.Persistence.Listings.{new_event, record_event, mark_sent, unsent}
use bybit_crypto_monitor_tel.Market.Discovery.{
  Discovered, RegistryEvent, DiscoveryResult, new, status_transition, gone,
}

-- The library functions that classify a text: `str.lower`, `in` on texts, and `findall` of the two
-- regular expressions, as the list that the set of its matches is walked in.
pub record Patterns : Type 0 where
  pub lower : String → String
  pub contains : String → String → Bool
  pub symbols : String → List String
  pub base_tickers : String → List String

abbrev listing_keywords : List String
listing_keywords = "list" ∷ "listing" ∷ "listed" ∷ "上线" ∷ "上架" ∷ "perpetual" ∷ "spot trading" ∷ []

abbrev pub is_listing_announcement : Patterns → Announcement → Bool
is_listing_announcement re a =
    some_eq a.type_key "new_crypto"
    || any (λ tag. re.contains (re.lower tag) "listing") a.tags
    || any (re.contains (re.lower (concat (a.title ∷ " " ∷ a.description ∷ [])))) listing_keywords

abbrev or_else : List String → List String → List String
or_else [] ys = ys
or_else (x ∷ xs) ys = x ∷ xs

abbrev pub symbols_from_announcement : Patterns → Announcement → List String
symbols_from_announcement re a =
    let text = concat (a.title ∷ " " ∷ a.description ∷ []) in
    if is_listing_announcement re a then or_else (re.symbols text) (re.base_tickers text) else []

-- An empty category counts as absent.
abbrev category_or_announcement : Option String → String
category_or_announcement none = "announcement"
category_or_announcement (some c) = if c == "" then "announcement" else c

abbrev pub event_key_for : Option String → String → String → String
event_key_for category symbol event_type =
    concat (category_or_announcement category ∷ ":" ∷ symbol ∷ ":" ∷ event_type ∷ [])

unfoldable pub listing_dedupe_key : String → String
listing_dedupe_key event_key = concat ("listing:" ∷ event_key ∷ [])

abbrev pub transition_type : Option String → Option String → Option String
transition_type old_status new_status =
    if some_eq old_status "PreLaunch" && some_eq new_status "Trading" then some "trading" else none

abbrev pub new_type : Option String → Option String
new_type new_status =
    if some_eq new_status "PreLaunch"
    then some "prelaunch"
    else if some_eq new_status "Trading"
    then some "trading"
    else none

unfoldable pub event_type_for : RegistryEvent → Option String
event_type_for e = elim e.event [
  | gone ↦ some "delisted"
  | new ↦ new_type e.new_status
  | status_transition ↦ transition_type e.old_status e.new_status
]

-- What the tracker relies on: the message of an event becomes one open row under the key of the
-- event, or the call raises IntegrityError when the key is taken.
pub record Notifier : Type 0 where
  pub notify : ListingEvent → ℕ → Db → Result Db
  pub row : ListingEvent → ℕ → ℕ → Notification
  pub row_key :
      (e : ListingEvent) (id now : ℕ)
      → (row e id now).dedupe_key ≡ some (listing_dedupe_key e.event_key)
  pub row_open : (e : ListingEvent) (id now : ℕ) → (row e id now).status ≡ pending
  pub notify_new :
      (e : ListingEvent) (now : ℕ) (db : Db)
      → any (has_dedupe_key (listing_dedupe_key e.event_key)) db.outgoing ≡ false
      → notify e now db
        ≡ ok (record db {
          outgoing = db.outgoing ++ row e (suc db.last_id) now ∷ [];
          last_id = suc db.last_id;
        })
  pub notify_taken :
      (e : ListingEvent) (now : ℕ) (db : Db)
      → any (has_dedupe_key (listing_dedupe_key e.event_key)) db.outgoing ≡ true
      → notify e now db ≡ err integrity_error

module _ (config : Settings) (notifier : Notifier) (now : ℕ) where
  -- `_notify`
  unfoldable pub notify_event : ListingEvent → Db → Result Db
  notify_event e db =
      if e.event_type == "delisted"
      then ok db
      else if not config.listing_notifications_enabled
      then ok db
      else notifier.notify e now db

  abbrev pub after_notify : ListingEvent → Db → Result Db → Db × Result (List ListingEvent)
  after_notify fresh written (ok notified) = (notified, ok (fresh ∷ []))
  after_notify fresh written (err x) = (written, err x)

  -- An event is recorded, and if it is new, its message is enqueued. An exception of the latter
  -- leaves the event recorded.
  unfoldable pub record_and_notify : ListingEvent → Db → Db × Result (List ListingEvent)
  record_and_notify e db =
      let (written, recorded) = record_event e db in
      elim recorded [
        | none ↦ (written, ok [])
        | some fresh ↦ after_notify fresh written (notify_event fresh written)
      ]

  abbrev pub prepend :
      List ListingEvent → Db × Result (List ListingEvent) → Db × Result (List ListingEvent)
  prepend es (db, ok created) = (db, ok (es ++ created))
  prepend es (db, err x) = (db, err x)

  unfoldable pub record_all : List ListingEvent → Db → Db × Result (List ListingEvent)
  record_all [] db = (db, ok [])
  record_all (e ∷ es) db =
      let (next, outcome) = record_and_notify e db in
      let rest = record_all es next in
      elim outcome [ ok created ↦ prepend created rest | err x ↦ (next, err x) ]

  abbrev registry_event : RegistryEvent → String → ListingEvent
  registry_event e event_type =
      new_event (event_key_for (some e.category) e.symbol event_type) (some e.category) e.symbol
        event_type now

  -- The events that the loop of `handle_registry` records.
  unfoldable pub listing_events : List RegistryEvent → List ListingEvent
  listing_events [] = []
  listing_events (e ∷ es) = elim (event_type_for e) [
    | none ↦ listing_events es
    | some event_type ↦ registry_event e event_type ∷ listing_events es
  ]

  unfoldable pub handle_registry : DiscoveryResult → Db → Db × Result (List ListingEvent)
  handle_registry result db =
      if result.first_run then (db, ok []) else record_all (listing_events result.events) db

  abbrev announced : List String → List ListingEvent
  announced [] = []
  announced (symbol ∷ symbols) =
      new_event (event_key_for none symbol "announced") none symbol "announced" now
      ∷ announced symbols

  unfoldable pub announced_events : Patterns → List Announcement → List ListingEvent
  announced_events re [] = []
  announced_events re (a ∷ rest) =
      announced (symbols_from_announcement re a) ++ announced_events re rest

  unfoldable pub handle_announcements :
      Patterns → List Announcement → Db → Db × Result (List ListingEvent)
  handle_announcements re announcements db = record_all (announced_events re announcements) db

  abbrev pub is_sent : DeliveryStatus → Bool
  is_sent sent = true
  is_sent _ = false

  abbrev pub count_notified : Db → Result Db → Db × Result ℕ
  count_notified db (ok notified) = (notified, ok 1)
  count_notified db (err x) = (db, err x)

  -- One turn of the loop of `reconcile_unsent`, with what it adds to the count, for a tracker that
  -- has an outbox and a `notify`, as app/main.py makes it.
  unfoldable pub repair : ListingEvent → Db → Db × Result ℕ
  repair e db = elim (find_notification_by_dedupe (listing_dedupe_key e.event_key) db) [
    | some row ↦ if is_sent row.status then (mark_sent e.event_key db, ok 1) else (db, ok 0)
    | none ↦ count_notified db (notify_event e db)
  ]

  abbrev pub add : ℕ → Db × Result ℕ → Db × Result ℕ
  add n (db, ok m) = (db, ok (n + m))
  add n (db, err x) = (db, err x)

  unfoldable pub repair_all : List ListingEvent → Db → Db × Result ℕ
  repair_all [] db = (db, ok 0)
  repair_all (e ∷ es) db =
      let (next, outcome) = repair e db in
      let rest = repair_all es next in elim outcome [ ok n ↦ add n rest | err x ↦ (next, err x) ]

  unfoldable pub reconcile_unsent : Db → Db × Result ℕ
  reconcile_unsent db = repair_all (unsent db) db
