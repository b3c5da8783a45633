-- ===== src/Market/Listing/Repair.antt =====
-- The repair at startup: every event that was not confirmed is paired with a row of the outbox.
use bybit_crypto_monitor_tel.Base.{
  ℕ, suc, ◌+◌, ◌≡◌, inl, inr, refl, sym, ◌∙◌, ap, Bool, true, false, ◌&&◌, ◌||◌, not, Option, none,
  some, String, List, [], ◌∷◌, ◌++◌, ◌==◌, String_eq, any, if◌then◌else◌, arith, Bool-cases,
  Option-cases, text_eq_iff, All, All-map, subst, keep,
}
use bybit_crypto_monitor_tel.Base.Result.{Result, ok, err}
use bybit_crypto_monitor_tel.Config.{Settings}
use bybit_crypto_monitor_tel.Persistence.Tables.{Db, ListingEvent, Notification, pending}
use bybit_crypto_monitor_tel.Persistence.Outbox.{
  has_dedupe_key, find_row, find_notification_by_dedupe, mark_event,
}
use bybit_crypto_monitor_tel.Persistence.Listings.{mark_sent, unsent, is_unsent}
use bybit_crypto_monitor_tel.Market.Listing.{
  Notifier, listing_dedupe_key, notify_event, repair, repair_all, add, reconcile_unsent, is_sent,
  count_notified,
}
use bybit_crypto_monitor_tel.Market.Listing.Once.{
  with_row, Notified, skipped, enqueued, taken, notify_event-Notified,
}

abbrev found_or : Option Notification → Option Notification → Option Notification
found_or (some row) other = some row
found_or none other = other

find_row-append :
    (key : String) (rows : List Notification) (row : Notification)
    → find_row key (rows ++ row ∷ [])
      ≡ found_or (find_row key rows) (if has_dedupe_key key row then some row else none)
unfolding find_row
find_row-append key [] row = refl
find_row-append key (r ∷ rows) row = elim (Bool-cases (has_dedupe_key key r)) [
  | inl here ↦ rw here refl
  | inr further ↦ rw further (find_row-append key rows row)
]

find_row-none :
    (key : String) (rows : List Notification)
    → find_row key rows ≡ none
    → any (has_dedupe_key key) rows ≡ false
unfolding find_row
find_row-none key [] h = refl
find_row-none key (r ∷ rows) h = elim (Bool-cases (has_dedupe_key key r)) [
  | inl here ↦ let found : find_row key (r ∷ rows) ≡ some r = rw here refl in cc (found, h)
  | inr further ↦
      rw further (
        find_row-none key rows
          (sym (ap (λ b. if b then some r else find_row key rows) further) ∙ h))
]

-- Whether each event with the key has its flag set.
unfoldable pub flagged : String → List ListingEvent → Bool
flagged key [] = true
flagged key (e ∷ es) = (not (e.event_key == key) || e.telegram_sent) && flagged key es

mark_event-flagged :
    (key : String) (es : List ListingEvent) → flagged key (mark_event key es) ≡ true
unfolding mark_event flagged
mark_event-flagged key [] = refl
mark_event-flagged key (e ∷ es) = ground (arith, mark_event-flagged key es)

mark_event-keeps :
    (j key : String) (es : List ListingEvent)
    → flagged key es ≡ true
    → flagged key (mark_event j es) ≡ true
unfolding mark_event flagged
mark_event-keeps j key [] h = refl
mark_event-keeps j key (e ∷ es) h = ground (arith, h, mark_event-keeps j key es)

module _ (config : Settings) (notifier : Notifier) (now : ℕ) where
  -- An event is settled when its row is still to be delivered or dead, or was sent and the event is
  -- flagged; or when it has no row, and messages on listings are turned off.
  abbrev pub settled_as : Option Notification → Bool → Bool
  settled_as none flag = not config.listing_notifications_enabled
  settled_as (some row) flag = not (is_sent config notifier now row.status) || flag

  abbrev pub settled : ListingEvent → Db → Bool
  settled e db =
      settled_as (find_row (listing_dedupe_key e.event_key) db.outgoing)
        (flagged e.event_key db.listing_events)

  -- What one turn does.
  data Turn (e : ListingEvent) (db : Db) : Db × Result ℕ → Type 0 where
    left : settled e db ≡ true → Turn e db (db, ok 0)
    quiet : settled e db ≡ true → Turn e db (db, ok 1)
    marked :
        settled e (mark_sent e.event_key db) ≡ true → Turn e db (mark_sent e.event_key db, ok 1)
    queued :
        settled e (with_row config notifier now e db) ≡ true
        → Turn e db (with_row config notifier now e db, ok 1)

  abbrev then_repair : ListingEvent → Db → Option Notification → Db × Result ℕ
  then_repair e db o = elim o [
    | some row ↦
        if is_sent config notifier now row.status
        then (mark_sent e.event_key db, ok 1)
        else (db, ok 0)
    | none ↦ count_notified config notifier now db (notify_event config notifier now e db)
  ]

  repair-step :
      (e : ListingEvent) (db : Db) (o : Option Notification)
      → find_row (listing_dedupe_key e.event_key) db.outgoing ≡ o
      → repair config notifier now e db ≡ then_repair e db o
  unfolding repair find_notification_by_dedupe
  repair-step e db o h = ap (then_repair e db) h

  new_row_settled :
      (e : ListingEvent) (db : Db)
      → find_row (listing_dedupe_key e.event_key) db.outgoing ≡ none
      → settled e (with_row config notifier now e db) ≡ true
  new_row_settled e db absent =
      let row = notifier.row e (suc db.last_id) now in
      let key = listing_dedupe_key e.event_key in
      let mine : has_dedupe_key key row ≡ true =
        rw (notifier.row_key e (suc db.last_id) now) ((text_eq_iff key key).1 refl) in
      rw
        (
          find_row-append key db.outgoing row,
          absent,
          mine,
          notifier.row_open e (suc db.last_id) now,
        )
        refl

  missing-Turn :
      (e : ListingEvent) (db : Db) (r : Result Db)
      → is_unsent e ≡ true
      → find_row (listing_dedupe_key e.event_key) db.outgoing ≡ none
      → Notified config notifier now e db r
      → Turn e db (count_notified config notifier now db r)
  missing-Turn e db r h absent (skipped off q) =
      subst (λ x. Turn e db (count_notified config notifier now db x)) (sym q)
        (quiet (rw absent (ground (arith, h, off))))
  missing-Turn e db r h absent (enqueued free q) =
      subst (λ x. Turn e db (count_notified config notifier now db x)) (sym q)
        (queued (new_row_settled e db absent))
  missing-Turn e db r h absent (taken there q) =
      cc (find_row-none (listing_dedupe_key e.event_key) db.outgoing absent, there)

  sent_settled :
      (e : ListingEvent) (db : Db) (row : Notification)
      → find_row (listing_dedupe_key e.event_key) db.outgoing ≡ some row
      → settled e (mark_sent e.event_key db) ≡ true
  unfolding mark_sent
  sent_settled e db row there =
      rw (there, mark_event-flagged e.event_key db.listing_events) (ground arith)

  repair-Turn :
      (e : ListingEvent) (db : Db)
      → is_unsent e ≡ true
      → Turn e db (repair config notifier now e db)
  repair-Turn e db h = elim (Option-cases (find_row (listing_dedupe_key e.event_key) db.outgoing)) [
    | inl absent ↦
        subst (Turn e db) (sym (repair-step e db none absent))
          (missing-Turn e db _ h absent (notify_event-Notified config notifier now e db))
    | inr (row, there) ↦
        subst (Turn e db) (sym (repair-step e db (some row) there))
          (elim (Bool-cases (is_sent config notifier now row.status)) [
            | inl was_sent ↦ rw was_sent (marked (sent_settled e db row there))
            | inr unsent_row ↦ rw unsent_row (left (rw (there, unsent_row) refl))
          ])
  ]

  appended_settled :
      (o : Option Notification) (b : Bool) (row : Notification) (flag : Bool)
      → row.status ≡ pending
      → settled_as o flag ≡ true
      → settled_as (found_or o (if b then some row else none)) flag ≡ true
  appended_settled none true row flag p h = rw p refl
  appended_settled none false row flag p h = h
  appended_settled (some r) b row flag p h = h

  flag_settled :
      (o : Option Notification) (flag set : Bool)
      → (flag ≡ true → set ≡ true)
      → settled_as o flag ≡ true
      → settled_as o set ≡ true
  flag_settled none flag set up h = h
  flag_settled (some row) flag set up h = ground (arith, up, h)

  -- A turn on one event leaves the others settled.
  Turn-keeps :
      (e other : ListingEvent) (db : Db) {r : Db × Result ℕ}
      → Turn other db r
      → settled e db ≡ true
      → settled e r.0 ≡ true
  unfolding mark_sent
  Turn-keeps e other db (left s) h = h
  Turn-keeps e other db (quiet s) h = h
  Turn-keeps e other db (marked s) h =
      flag_settled (find_row (listing_dedupe_key e.event_key) db.outgoing)
        (flagged e.event_key db.listing_events)
        (flagged e.event_key (mark_event other.event_key db.listing_events))
        (mark_event-keeps other.event_key e.event_key db.listing_events) h
  Turn-keeps e other db (queued s) h =
      let row = notifier.row other (suc db.last_id) now in
      rw (find_row-append (listing_dedupe_key e.event_key) db.outgoing row) (
        appended_settled (find_row (listing_dedupe_key e.event_key) db.outgoing)
          (has_dedupe_key (listing_dedupe_key e.event_key) row) row
          (flagged e.event_key db.listing_events) (notifier.row_open other (suc db.last_id) now) h)

  Turn-settled :
      (e : ListingEvent) (db : Db) {r : Db × Result ℕ}
      → Turn e db r
      → (settled e r.0 ≡ true) × ((n : ℕ) × (r.1 ≡ ok n))
  Turn-settled e db (left s) = (s, (0, refl))
  Turn-settled e db (quiet s) = (s, (1, refl))
  Turn-settled e db (marked s) = (s, (1, refl))
  Turn-settled e db (queued s) = (s, (1, refl))

  abbrev AllSettled : List ListingEvent → Db → Type 0
  AllSettled es db = All (λ e. settled e db ≡ true) es

  abbrev then_all : List ListingEvent → Db → Result ℕ → Db × Result ℕ
  then_all es next outcome = elim outcome [
    | ok n ↦ add config notifier now n (repair_all config notifier now es next)
    | err x ↦ (next, err x)
  ]

  repair_all-settled :
      (earlier es : List ListingEvent) (db : Db)
      → All (λ e. is_unsent e ≡ true) es
      → AllSettled earlier db
      → (after : Db) × (n : ℕ) × (repair_all config notifier now es db ≡ (after, ok n))
        × AllSettled earlier after
        × AllSettled es after
  unfolding repair_all
  repair_all-settled earlier [] db h k = (db, 0, refl, k, tt)
  repair_all-settled earlier (e ∷ es) db h k =
      let turn = repair-Turn e db h.0 in
      let next = (repair config notifier now e db).0 in
      let (now_settled, (n, done)) = Turn-settled e db turn in
      let (after, m, rest, before, tail) =
        repair_all-settled (e ∷ earlier) es next h.1
          (now_settled, All-map earlier (λ f. Turn-keeps f e db turn) k) in
      (
        after,
        n + m,
        ap (then_all es next) done ∙ ap (add config notifier now n) rest,
        before.1,
        (before.0, tail),
      )

  unsent_each : (es : List ListingEvent) → All (λ e. is_unsent e ≡ true) (keep is_unsent es)
  unsent_each [] = tt
  unsent_each (e ∷ es) = elim (Bool-cases (is_unsent e)) [
    | inl yes_unsent ↦ rw yes_unsent (yes_unsent, unsent_each es)
    | inr no_more ↦ rw no_more (unsent_each es)
  ]

  -- The repair raises no exception, and afterwards each event that was unsent before it is
  -- settled: its row was not sent, or it was and the event is flagged, or there is no row and
  -- messages on listings are off.
  pub reconcile_unsent-settled :
      (db : Db)
      → (after : Db) × (n : ℕ) × (reconcile_unsent config notifier now db ≡ (after, ok n))
        × All (λ e. settled e after ≡ true) (unsent db)
  unfolding reconcile_unsent unsent
  reconcile_unsent-settled db =
      let (after, n, e, _, all) =
        repair_all-settled [] (keep is_unsent db.listing_events) db (unsent_each db.listing_events)
          tt in
      (after, n, e, all)
