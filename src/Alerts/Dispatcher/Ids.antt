-- ===== src/Alerts/Dispatcher/Ids.antt =====
-- The ids and the keys of the outbox: they are distinct, and stay so under every operation.
use bybit_crypto_monitor_tel.Base.{
  ℕ, suc, subst, ◌+◌, ◌≤◌, ◌≡◌, ◌⊎◌, inl, inr, refl, sym, ◌∙◌, ap, true, false, ◌||◌, List, [], ◌∷◌,
  ◌++◌, distinct, Each, none_left, each, arith, Bool-cases, ℕ_eq, String_eq, String, Option, none,
  some, elem, All, All-append, All-map, text_eq_iff, nat_eq_iff, Option-cases, any, ◌==◌, HasEq,
}
use bybit_crypto_monitor_tel.Base.Result.{Error, Result, ok, err, integrity_error, ◌>>=◌}
use bybit_crypto_monitor_tel.Config.{Settings, whole_seconds}
use bybit_crypto_monitor_tel.Persistence.Tables.{Db, Notification, transaction}
use bybit_crypto_monitor_tel.Persistence.Outbox.{
  expire_notifications, insert_outgoing_notification, insert-new, insert-duplicate, is_duplicate,
  has_dedupe_key, new_notification, mark_listing_sent, mark_notification_sent,
  mark_notification_dead, mark_notification_retry, due_notifications,
}
use bybit_crypto_monitor_tel.Alerts.Dispatcher.{
  SendOutcome, delivered, permanent, failed, Reply, process_due, iteration, confirm, deliver,
  deliver_all, listing_origin, poll_limit, write_retry, unless_raised, next_attempt,
}
use bybit_crypto_monitor_tel.Alerts.Dispatcher.Rows.{ids, change, KeepsId, change-KeepsId}
use bybit_crypto_monitor_tel.Alerts.Dispatcher.Delivery.{
  Step, unchanged, expired, attempted, iteration-Step,
}

-- The keys that are present.
abbrev pub add_key : Option String → List String → List String
add_key none ks = ks
add_key (some k) ks = k ∷ ks

abbrev pub dedupe_keys : List Notification → List String
dedupe_keys [] = []
dedupe_keys (n ∷ ns) = add_key n.dedupe_key (dedupe_keys ns)

-- No id is used twice or still to be given, and no key is used twice.
pub record IsWellFormed (db : Db) : Type 0 where
  pub given : All (λ n. n.id ≤ db.last_id) db.outgoing
  pub ids_distinct : distinct (ids db.outgoing) ≡ true
  pub keys_distinct : distinct (dedupe_keys db.outgoing) ≡ true

abbrev Keeps : Notification → Result Notification → Type 0
Keeps n (ok m) = (m.id ≡ n.id) × (m.dedupe_key ≡ n.dedupe_key)
Keeps n (err e) = Unit

applied-id :
    (n m : Notification) (r : Result (Notification → Notification))
    → KeepsId r
    → (r >>= λ f. ok (f n)) ≡ ok m
    → (m.id ≡ n.id) × (m.dedupe_key ≡ n.dedupe_key)
applied-id n m (ok f) keeps h = subst (λ r. Keeps n r) h (keeps n)
applied-id n m (err e) keeps h = cc h

module _ {alert_age listing_age expiry_now now : ℕ} {send : Notification → Reply} where
  Step-id :
      {n m : Notification}
      → Step alert_age listing_age send expiry_now now n m
      → (m.id ≡ n.id) × (m.dedupe_key ≡ n.dedupe_key)
  Step-id (unchanged n kept) = (refl, refl)
  Step-id (expired n old) = (refl, refl)
  Step-id (attempted n m kept due h) =
      applied-id n m (change (send n) n) (change-KeepsId (send n).at (send n).outcome n) h

  Each-ids :
      {ns ms : List Notification}
      → Each (Step alert_age listing_age send expiry_now now) ns ms
      → (ids ms ≡ ids ns) × (dedupe_keys ms ≡ dedupe_keys ns)
  Each-ids none_left = (refl, refl)
  Each-ids (each step steps) =
      let (same_id, same_key) = Step-id step in
      let (same_ids, same_keys) = Each-ids steps in
      (rw (same_id, same_ids) refl, rw (same_key, same_keys) refl)

confirm-last_id :
    (row : Notification) (now : ℕ) (origin : Option String) (db : Db)
    → (confirm row now origin db).last_id ≡ db.last_id
unfolding confirm transaction mark_listing_sent mark_notification_sent
confirm-last_id row now none db = refl
confirm-last_id row now (some key) db = refl

write_retry-last_id :
    (row : Notification) (error : String) (at : ℕ) (db : Db) (r : Result ℕ)
    → (write_retry row error at db r).0.last_id ≡ db.last_id
unfolding mark_notification_retry
write_retry-last_id row error at db (ok next) = refl
write_retry-last_id row error at db (err e) = refl

deliver-last_id :
    (at : ℕ) (o : SendOutcome) (row : Notification) (db : Db)
    → (deliver (record { outcome = o; at = at }) row db).0.last_id ≡ db.last_id
unfolding deliver mark_notification_dead
deliver-last_id at delivered row db = confirm-last_id row at (listing_origin row) db
deliver-last_id at (permanent error) row db = refl
deliver-last_id at (failed error after) row db =
    write_retry-last_id row error at db (next_attempt at (row.attempt_count + 1) after)

unless_raised-last_id :
    (next : Db → Db × Option Error) (p : Db × Option Error)
    → ((db : Db) → (next db).0.last_id ≡ db.last_id)
    → (unless_raised next p).0.last_id ≡ p.0.last_id
unless_raised-last_id next (db, none) h = h db
unless_raised-last_id next (db, some e) h = refl

deliver_all-last_id :
    (send : Notification → Reply) (rows : List Notification) (db : Db)
    → (deliver_all send rows db).0.last_id ≡ db.last_id
unfolding deliver_all
deliver_all-last_id send [] db = refl
deliver_all-last_id send (row ∷ rows) db =
    unless_raised-last_id (deliver_all send rows) (deliver (send row) row db)
      (deliver_all-last_id send rows)
    ∙ deliver-last_id (send row).at (send row).outcome row db

iteration-last_id :
    (config : Settings) (send : Notification → Reply) (expiry_now now : ℕ) (db : Db)
    → (iteration config send expiry_now now db).0.last_id ≡ db.last_id
unfolding iteration process_due expire_notifications
iteration-last_id config send expiry_now now db =
    let expired =
      (expire_notifications (whole_seconds config.notification_max_age_seconds)
        (whole_seconds config.listing_notification_max_age_seconds) expiry_now db).0 in
    deliver_all-last_id send (due_notifications poll_limit now expired) expired

bounded :
    (last : ℕ) (ns : List Notification) → All (λ n. n.id ≤ last) ns → All (λ i. i ≤ last) (ids ns)
bounded last [] h = tt
bounded last (n ∷ ns) h = (h.0, bounded last ns h.1)

rows_bounded :
    (last : ℕ) (ns : List Notification) → All (λ i. i ≤ last) (ids ns) → All (λ n. n.id ≤ last) ns
rows_bounded last [] h = tt
rows_bounded last (n ∷ ns) h = (h.0, rows_bounded last ns h.1)

above-absent : (i : ℕ) (js : List ℕ) → All (λ j. suc j ≤ i) js → elem i js ≡ false
above-absent i [] h = refl
above-absent i (j ∷ js) h = ground (arith, h, nat_eq_iff i j, above-absent i js h.1)

ids-append : (ns : List Notification) (n : Notification) → ids (ns ++ n ∷ []) ≡ ids ns ++ n.id ∷ []
ids-append [] n = refl
ids-append (m ∷ ns) n = ap (◌∷◌ m.id) (ids-append ns n)

keys-append :
    (ns : List Notification) (n : Notification)
    → dedupe_keys (ns ++ n ∷ []) ≡ dedupe_keys ns ++ add_key n.dedupe_key []
keys-append [] n = refl
keys-append (m ∷ ns) n = elim (Option-cases m.dedupe_key) [
  | inl none_there ↦ rw (none_there) (keys-append ns n)
  | inr (k, there) ↦ rw (there) (ap (◌∷◌ k) (keys-append ns n))
]

module _ {A : Type 0} ⦃e : HasEq A⦄ where
  elem-snoc : (a x : A) (xs : List A) → elem a (xs ++ x ∷ []) ≡ (elem a xs || a == x)
  elem-snoc a x [] = ground arith
  elem-snoc a x (y ∷ xs) = ground (arith, elem-snoc a x xs)

  distinct-snoc :
      (x : A) (xs : List A)
      → elem x xs ≡ false
      → distinct xs ≡ true
      → distinct (xs ++ x ∷ []) ≡ true
  distinct-snoc x [] h k = refl
  distinct-snoc x (y ∷ xs) h k =
      ground (arith, h, k, e.agrees x y, e.agrees y x, elem-snoc y x xs, distinct-snoc x xs)

append-nil : (xs : List String) → xs ++ [] ≡ xs
append-nil [] = refl
append-nil (x ∷ xs) = ap (◌∷◌ x) (append-nil xs)

duplicate-elem :
    (key : String) (ns : List Notification)
    → any (has_dedupe_key key) ns ≡ elem key (dedupe_keys ns)
duplicate-elem key [] = refl
duplicate-elem key (n ∷ ns) = elim (Option-cases n.dedupe_key) [
  | inl none_there ↦ rw (none_there) (duplicate-elem key ns)
  | inr (k, there) ↦
      rw (there) (ground (arith, text_eq_iff k key, text_eq_iff key k, duplicate-elem key ns))
]

module _ (db : Db) (h : IsWellFormed db) where
  -- If no id of the outbox is used twice or still to be given, and no key is used twice, that
  -- holds after a cycle of the worker too.
  pub iteration-IsWellFormed :
      (config : Settings) (send : Notification → Reply) (expiry_now now : ℕ)
      → IsWellFormed (iteration config send expiry_now now db).0
  iteration-IsWellFormed config send expiry_now now =
      let (same_ids, same_keys) =
        Each-ids (iteration-Step config send expiry_now now db h.ids_distinct) in
      record {
        given = rw (iteration-last_id config send expiry_now now db) (
            rows_bounded db.last_id (iteration config send expiry_now now db).0.outgoing
              (rw same_ids (bounded db.last_id db.outgoing h.given)));
        ids_distinct = ap distinct same_ids ∙ h.ids_distinct;
        keys_distinct = ap distinct same_keys ∙ h.keys_distinct;
      }

  suc_bounded :
      (ns : List Notification)
      → All (λ n. n.id ≤ db.last_id) ns
      → All (λ n. n.id ≤ suc db.last_id) ns
  suc_bounded ns k = All-map ns (λ n b. omega (arith, b)) k

  module _ (tag message : String) (at : ℕ) (key origin_type origin_key : Option String) where
    new_key_absent :
        (key : Option String)
        → is_duplicate key db.outgoing ≡ false
        → distinct (dedupe_keys db.outgoing ++ add_key key []) ≡ true
    new_key_absent none k = ap distinct (append-nil (dedupe_keys db.outgoing)) ∙ h.keys_distinct
    new_key_absent (some key) k =
        distinct-snoc key (dedupe_keys db.outgoing) (sym (duplicate-elem key db.outgoing) ∙ k)
          h.keys_distinct

    -- If no id of the outbox is used twice or still to be given, and no key is used twice, then
    -- an insertion is refused and its key is taken, or the same holds after it, with an id that
    -- no row had.
    insert-IsWellFormed :
        let r = insert_outgoing_notification tag message at key origin_type origin_key db in
        ((is_duplicate key db.outgoing ≡ true) × (r ≡ err integrity_error))
        ⊎ ((written : Db) × (id : ℕ) × (r ≡ ok (written, id))
            × IsWellFormed written
            × (elem id (ids db.outgoing) ≡ false))
    insert-IsWellFormed = elim (Bool-cases (is_duplicate key db.outgoing)) [
      | inl dup ↦ inl (dup, insert-duplicate tag message at key origin_type origin_key db dup)
      | inr new ↦
          let n = new_notification (suc db.last_id) tag message at key origin_type origin_key in
          let fresh = above-absent (suc db.last_id) (ids db.outgoing) (
            All-map (ids db.outgoing) (λ j b. omega (arith, b))
              (bounded db.last_id db.outgoing h.given)) in
          inr (
            _,
            suc db.last_id,
            insert-new tag message at key origin_type origin_key db new,
            record {
              given =
                  All-append (λ n. n.id ≤ suc db.last_id) db.outgoing (n ∷ [])
                    (suc_bounded db.outgoing h.given) (omega arith, tt);
              ids_distinct =
                  rw (ids-append db.outgoing n)
                    (distinct-snoc (suc db.last_id) (ids db.outgoing) fresh h.ids_distinct);
              keys_distinct = rw (keys-append db.outgoing n) (new_key_absent key new);
            },
            fresh,
          )
    ]
