-- ===== src/Market/Listing/Once.antt =====
-- Each listing event is recorded and announced once.
use bybit_crypto_monitor_tel.Base.{
  ℕ, suc, ◌≡◌, inl, inr, refl, sym, ◌∙◌, ap, Bool, true, false, ◌||◌, not, Option, none, some,
  String, List, [], ◌∷◌, ◌++◌, ◌==◌, String_eq, any, if◌then◌else◌, arith, Bool-cases, text_eq_iff,
  All, Option-cases,
}
use bybit_crypto_monitor_tel.Base.Result.{Result, ok, err, integrity_error}
use bybit_crypto_monitor_tel.Config.{Settings}
use bybit_crypto_monitor_tel.Persistence.Tables.{Db, ListingEvent}
use bybit_crypto_monitor_tel.Persistence.Outbox.{has_dedupe_key}
use bybit_crypto_monitor_tel.Persistence.Listings.{record_event, has_event}
use bybit_crypto_monitor_tel.Market.Discovery.{DiscoveryResult, RegistryEvent}
use bybit_crypto_monitor_tel.Market.Listing.{
  Notifier, listing_dedupe_key, notify_event, record_and_notify, record_all, prepend, after_notify,
  handle_registry, listing_events, event_key_for, event_type_for,
}

any-append :
    {A : Type 0} (p : A → Bool) (xs ys : List A) → any p (xs ++ ys) ≡ (any p xs || any p ys)
any-append p [] ys = refl
any-append p (x ∷ xs) ys = ground (arith, any-append p xs ys)

module _ (config : Settings) (notifier : Notifier) (now : ℕ) where
  -- The database with the event's row at the end of the outbox.
  abbrev pub with_row : ListingEvent → Db → Db
  with_row e db = record db {
    outgoing = db.outgoing ++ notifier.row e (suc db.last_id) now ∷ [];
    last_id = suc db.last_id;
  }

  -- How enqueuing an event's message can end.
  pub data Notified (e : ListingEvent) (db : Db) (r : Result Db) : Type 0 where
    skipped :
        (e.event_type == "delisted" || not config.listing_notifications_enabled) ≡ true
        → r ≡ ok db
        → Notified e db r
    enqueued :
        any (has_dedupe_key (listing_dedupe_key e.event_key)) db.outgoing ≡ false
        → r ≡ ok (with_row e db)
        → Notified e db r
    taken :
        any (has_dedupe_key (listing_dedupe_key e.event_key)) db.outgoing ≡ true
        → r ≡ err integrity_error
        → Notified e db r

  guarded-Notified :
      (e : ListingEvent) (db : Db) (d n : Bool) (r : Result Db)
      → (e.event_type == "delisted") ≡ d
      → not config.listing_notifications_enabled ≡ n
      → Notified e db r
      → Notified e db (if d then ok db else if n then ok db else r)
  guarded-Notified e db true n r p q h =
      skipped (ap (λ b. b || not config.listing_notifications_enabled) p) refl
  guarded-Notified e db false true r p q h =
      skipped (ap (λ b. b || not config.listing_notifications_enabled) p ∙ q) refl
  guarded-Notified e db false false r p q h = h

  pub notify_event-Notified :
      (e : ListingEvent) (db : Db) → Notified e db (notify_event config notifier now e db)
  unfolding notify_event
  notify_event-Notified e db =
      guarded-Notified e db _ _ (notifier.notify e now db) refl refl
        (elim (Bool-cases (any (has_dedupe_key (listing_dedupe_key e.event_key)) db.outgoing)) [
          | inl there ↦ taken there (notifier.notify_taken e now db there)
          | inr free ↦ enqueued free (notifier.notify_new e now db free)
        ])

  -- How recording an event can end.
  data Recorded (e : ListingEvent) (db : Db) (r : Db × Result (List ListingEvent)) : Type 0 where
    known : has_event e.event_key db.listing_events ≡ true → r ≡ (db, ok []) → Recorded e db r
    fresh :
        (after : Db) (outcome : Result (List ListingEvent))
        → after.listing_events ≡ db.listing_events ++ e ∷ []
        → r ≡ (after, outcome)
        → Recorded e db r

  record_known :
      (e : ListingEvent) (db : Db)
      → has_event e.event_key db.listing_events ≡ true
      → record_event e db ≡ (db, none)
  unfolding record_event
  record_known e db h = rw h refl

  record_new :
      (e : ListingEvent) (db : Db)
      → has_event e.event_key db.listing_events ≡ false
      → record_event e db ≡ (record db { listing_events = db.listing_events ++ e ∷ [] }, some e)
  unfolding record_event
  record_new e db h = rw h refl

  abbrev then_notify : Db × Option ListingEvent → Db × Result (List ListingEvent)
  then_notify p = elim p.1 [
    | none ↦ (p.0, ok [])
    | some f ↦ after_notify config notifier now f p.0 (notify_event config notifier now f p.0)
  ]

  record_and_notify-step :
      (e : ListingEvent) (db : Db) (p : Db × Option ListingEvent)
      → record_event e db ≡ p
      → record_and_notify config notifier now e db ≡ then_notify p
  unfolding record_and_notify
  record_and_notify-step e db p h = ap then_notify h

  fresh-Recorded :
      (e : ListingEvent) (db : Db) (o : Result Db)
      → let written : Db = record db { listing_events = db.listing_events ++ e ∷ [] } in
        Notified e written o
        → record_and_notify config notifier now e db ≡ after_notify config notifier now e written o
        → Recorded e db (record_and_notify config notifier now e db)
  fresh-Recorded e db o (skipped off q) h =
      let written : Db = record db { listing_events = db.listing_events ++ e ∷ [] } in
      fresh written (ok (e ∷ [])) refl (h ∙ ap (after_notify config notifier now e written) q)
  fresh-Recorded e db o (enqueued free q) h =
      let written : Db = record db { listing_events = db.listing_events ++ e ∷ [] } in
      fresh (with_row e written) (ok (e ∷ [])) refl
        (h ∙ ap (after_notify config notifier now e written) q)
  fresh-Recorded e db o (taken there q) h =
      let written : Db = record db { listing_events = db.listing_events ++ e ∷ [] } in
      fresh written (err integrity_error) refl
        (h ∙ ap (after_notify config notifier now e written) q)

  record_and_notify-Recorded :
      (e : ListingEvent) (db : Db) → Recorded e db (record_and_notify config notifier now e db)
  record_and_notify-Recorded e db = elim (Bool-cases (has_event e.event_key db.listing_events)) [
    | inl old ↦ known old (record_and_notify-step e db (db, none) (record_known e db old))
    | inr new ↦
        let written : Db = record db { listing_events = db.listing_events ++ e ∷ [] } in
        fresh-Recorded e db (notify_event config notifier now e written)
          (notify_event-Notified e written)
          (record_and_notify-step e db (written, some e) (record_new e db new))
  ]

  abbrev then_all :
      List ListingEvent → Db × Result (List ListingEvent) → Db × Result (List ListingEvent)
  then_all es p = elim p.1 [
    | ok created ↦ prepend config notifier now created (record_all config notifier now es p.0)
    | err x ↦ (p.0, err x)
  ]

  record_all-step :
      (e : ListingEvent) (es : List ListingEvent) (db : Db) (p : Db × Result (List ListingEvent))
      → record_and_notify config notifier now e db ≡ p
      → record_all config notifier now (e ∷ es) db ≡ then_all es p
  unfolding record_all
  record_all-step e es db p h = ap (then_all es) h

  prepend-ok :
      (es : List ListingEvent) (p : Db × Result (List ListingEvent)) (after : Db)
      (created : List ListingEvent)
      → prepend config notifier now es p ≡ (after, ok created)
      → (rest : List ListingEvent) × (p ≡ (after, ok rest))
  prepend-ok es (db, ok rest) after created h = (rest, ap (λ q. (q.0, ok rest)) h)
  prepend-ok es (db, err x) after created h = cc (ap (λ q. q.1) h)

  abbrev Has : Db → ListingEvent → Type 0
  Has db e = has_event e.event_key db.listing_events ≡ true

  known_again :
      (es : List ListingEvent) (db : Db)
      → All (Has db) es
      → record_all config notifier now es db ≡ (db, ok [])
  unfolding record_all
  known_again [] db h = refl
  known_again (e ∷ es) db h =
      record_all-step e es db (db, ok [])
        (record_and_notify-step e db (db, none) (record_known e db h.0))
      ∙ ap (prepend config notifier now []) (known_again es db h.1)

  abbrev Keeps : Db → Db → Type 0
  Keeps db after =
      (k : String) → has_event k db.listing_events ≡ true → has_event k after.listing_events ≡ true

  added-Keeps :
      (e : ListingEvent) (db next : Db)
      → next.listing_events ≡ db.listing_events ++ e ∷ []
      → Has next e × Keeps db next
  added-Keeps e db next added = (
    rw added (
        any-append (λ f. f.event_key == e.event_key) db.listing_events (e ∷ [])
        ∙ ground (arith, (text_eq_iff e.event_key e.event_key).1 refl)),
    λ k old. rw added (any-append (λ f. f.event_key == k) db.listing_events (e ∷ []) ∙ rw old refl),
  )

  record_all-Has :
      (es : List ListingEvent) (db after : Db) (created : List ListingEvent)
      → record_all config notifier now es db ≡ (after, ok created)
      → All (Has after) es × Keeps db after
  unfolding record_all
  record_all-Has [] db after created h =
      (tt, λ k there. ap (λ q. has_event k q.0.listing_events) (sym h) ∙ there)
  record_all-Has (e ∷ es) db after created h = elim (record_and_notify-Recorded e db) [
    | known old r ↦
        let (rest, tail) =
          prepend-ok [] (record_all config notifier now es db) after created
            (sym (record_all-step e es db (db, ok []) r) ∙ h) in
        let (all, kept) = record_all-Has es db after rest tail in
        ((kept e.event_key old, all), kept)
    | fresh next (ok made) added r ↦
        let (rest, tail) =
          prepend-ok made (record_all config notifier now es next) after created
            (sym (record_all-step e es db (next, ok made) r) ∙ h) in
        let (all, kept) = record_all-Has es next after rest tail in
        let (itself, before) = added-Keeps e db next added in
        ((kept e.event_key itself, all), λ k old. kept k (before k old))
    | fresh next (err x) added r ↦
        cc (ap (λ q. q.1) (sym (record_all-step e es db (next, err x) r) ∙ h))
  ]

module _ (config : Settings) (notifier : Notifier) (now later : ℕ) where
  abbrev event_keys : List ListingEvent → List String
  event_keys [] = []
  event_keys (e ∷ es) = e.event_key ∷ event_keys es

  abbrev first_key : List String → String
  first_key [] = ""
  first_key (k ∷ ks) = k

  abbrev other_keys : List String → List String
  other_keys [] = []
  other_keys (k ∷ ks) = ks

  -- The keys of the events do not depend on the time.
  event_keys-later :
      (es : List RegistryEvent)
      → event_keys (listing_events config notifier later es)
        ≡ event_keys (listing_events config notifier now es)
  unfolding listing_events
  event_keys-later [] = refl
  event_keys-later (e ∷ es) = elim (Option-cases (event_type_for e)) [
    | inl nothing ↦ rw (event_keys, nothing) (event_keys-later es)
    | inr (t, there) ↦
        rw (event_keys, there)
          (ap (◌∷◌ (event_key_for (some e.category) e.symbol t)) (event_keys-later es))
  ]

  Has-keys :
      (at other : ℕ) (es fs : List ListingEvent) (db : Db)
      → event_keys fs ≡ event_keys es
      → All (Has config notifier at db) es
      → All (Has config notifier other db) fs
  Has-keys at other [] [] db same h = tt
  Has-keys at other [] (f ∷ fs) db same h = cc
  Has-keys at other (e ∷ es) [] db same h = cc
  Has-keys at other (e ∷ es) (f ∷ fs) db same h = (
    ap (λ ks. has_event (first_key ks) db.listing_events) same ∙ h.0,
    Has-keys at other es fs db (ap other_keys same) h.1,
  )

  once :
      (first : Bool) (es : List RegistryEvent) (db after : Db) (created : List ListingEvent)
      → (if first
          then (db, ok [])
          else record_all config notifier now (listing_events config notifier now es) db)
        ≡ (after, ok created)
      → (if first
          then (after, ok [])
          else record_all config notifier later (listing_events config notifier later es) after)
        ≡ (after, ok [])
  once true es db after created h = refl
  once false es db after created h =
      known_again config notifier later (listing_events config notifier later es) after (
        Has-keys now later (listing_events config notifier now es)
          (listing_events config notifier later es) after (event_keys-later es)
          (record_all-Has config notifier now (listing_events config notifier now es) db after
            created h).0)

  -- If the events of a discovery were handled without an exception, handling the same events again,
  -- at any time, records and enqueues nothing.
  pub handle_registry-once :
      (result : DiscoveryResult) (db after : Db) (created : List ListingEvent)
      → handle_registry config notifier now result db ≡ (after, ok created)
      → handle_registry config notifier later result after ≡ (after, ok [])
  unfolding handle_registry
  handle_registry-once result db after created h =
      once result.first_run result.events db after created h
