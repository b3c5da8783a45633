-- ===== src/Alerts/Dispatcher/Rows.antt =====
-- The worker's effect on the outbox, row by row.
use bybit_crypto_monitor_tel.Base.{
  ℕ, zero, suc, ◌+◌, ◌/◌, ◌^◌, max, ltb, any, ◌≡◌, inl, inr, refl, ◌∙◌, ap, Bool, true, false,
  Option, none, some, String, List, [], ◌∷◌, ℕ_eq, String_eq, keep, take, elem, distinct,
  if◌then◌else◌, arith, Bool-cases, nat_eq_iff, nat_eq,
}
use bybit_crypto_monitor_tel.Base.Int.{pos, negsuc}
use bybit_crypto_monitor_tel.Base.Float.{Float, finite, infinity, minus_infinity, nan}
use bybit_crypto_monitor_tel.Base.Text.{text_take}
use bybit_crypto_monitor_tel.Base.Result.{
  Error, Result, ok, err, ◌>>=◌, value_error, overflow_error,
}
use bybit_crypto_monitor_tel.Persistence.Tables.{Db, Notification, transaction, sent, dead, retry}
use bybit_crypto_monitor_tel.Persistence.Outbox.{
  mark_notification_sent, mark_notification_retry, mark_notification_dead, mark_listing_sent,
  update_rows, as_sent, as_retry, is_due, due_notifications,
}
use bybit_crypto_monitor_tel.Alerts.Dispatcher.{
  SendOutcome, delivered, permanent, failed, Reply, next_attempt, retry_delay_for, write_retry,
  unless_raised, listing_origin, confirm, deliver, deliver_all, process_due, poll_limit, ended,
  has_rows,
}

abbrev pub within : ℕ → Result ℕ
within t = if ltb t (2 ^ 63) then ok t else err overflow_error

-- When a row is attempted again: after the delay for so many attempts, or after the number of
-- seconds that was asked for, if that is longer and a number that a column holds.
abbrev pub next_time : ℕ → ℕ → Option Float → Result ℕ
next_time now attempts none = within (now + retry_delay_for attempts)
next_time now attempts (some (finite (pos m))) =
    within (now + max (retry_delay_for attempts) (m / 2 ^ 1074))
next_time now attempts (some (finite (negsuc m))) = within (now + retry_delay_for attempts)
next_time now attempts (some nan) = err value_error
next_time now attempts (some infinity) = err overflow_error
next_time now attempts (some minus_infinity) = err overflow_error

next_attempt_lem :
    (now attempts : ℕ) (after : Option Float)
    → next_attempt now attempts after ≡ next_time now attempts after
unfolding next_attempt
next_attempt_lem now attempts none = refl
next_attempt_lem now attempts (some (finite (pos m))) = refl
next_attempt_lem now attempts (some (finite (negsuc m))) =
    let same : max (retry_delay_for attempts) 0 ≡ retry_delay_for attempts = omega arith in
    rw same refl
next_attempt_lem now attempts (some nan) = refl
next_attempt_lem now attempts (some infinity) = refl
next_attempt_lem now attempts (some minus_infinity) = refl

-- What an attempt that ends with the reply writes, for the attempts that the poll read; or what it
-- raises, and then it writes nothing.
abbrev pub change : Reply → Notification → Result (Notification → Notification)
change reply row = elim reply.outcome [
  | delivered ↦ ok (λ n. record n { status = sent; sent_at = some reply.at })
  | permanent error ↦ ok (λ n. record n { status = dead; error = some (text_take 500 error) })
  | failed error retry_after ↦ do
    next ← next_time reply.at (row.attempt_count + 1) retry_after
    ok (λ n. record n {
      status = retry;
      error = some (text_take 500 error);
      attempt_count = n.attempt_count + 1;
      last_attempt_at = some reply.at;
      next_attempt_at = some next;
    })
]

-- A row after an attempt that ends with the reply.
abbrev pub attempt : Reply → Notification → Result Notification
attempt reply n = do f ← change reply n; ok (f n)

abbrev pub put :
    Notification → List Notification → List Notification → Result Notification → List Notification
put n rest served (ok m) = m ∷ served
put n rest served (err e) = n ∷ rest

abbrev pub error_or : Option Error → Result Notification → Option Error
error_or rest (ok m) = rest
error_or rest (err e) = some e

-- The first `k` due rows are attempted, up to one whose attempt raises.
unfoldable pub serve : (Notification → Reply) → ℕ → ℕ → List Notification → List Notification
serve send now zero ns = ns
serve send now (suc k) [] = []
serve send now (suc k) (n ∷ ns) =
    let served = serve send now k ns in
    let passed = serve send now (suc k) ns in
    if is_due now n then put n ns served (attempt (send n) n) else n ∷ passed

-- What the first of these attempts that raises, raises.
unfoldable pub first_error : (Notification → Reply) → ℕ → ℕ → List Notification → Option Error
first_error send now zero ns = none
first_error send now (suc k) [] = none
first_error send now (suc k) (n ∷ ns) =
    let served = first_error send now k ns in
    let passed = first_error send now (suc k) ns in
    if is_due now n then error_or served (attempt (send n) n) else passed

abbrev pub ids : List Notification → List ℕ
ids [] = []
ids (n ∷ ns) = n.id ∷ ids ns

abbrev Rows : Type 0
Rows = List Notification × Option Error

abbrev applied : ℕ → List Notification → Result (Notification → Notification) → Rows
applied i ns (ok f) = (update_rows i f ns, none)
applied i ns (err e) = (ns, some e)

unfoldable deliver_rows : (Notification → Reply) → List Notification → List Notification → Rows
deliver_rows send [] ns = (ns, none)
deliver_rows send (row ∷ rows) ns =
    unless_raised (deliver_rows send rows) (applied row.id ns (change (send row) row))

-- An attempt leaves the id and the key of a row.
abbrev pub KeepsId : Result (Notification → Notification) → Type 0
KeepsId (ok f) = (n : Notification) → ((f n).id ≡ n.id) × ((f n).dedupe_key ≡ n.dedupe_key)
KeepsId (err e) = Unit

retry-KeepsId :
    (error : String) (at : ℕ) (r : Result ℕ) → KeepsId (r >>= λ next. ok (as_retry error next at))
retry-KeepsId error at (ok next) = λ n. (refl, refl)
retry-KeepsId error at (err e) = tt

pub change-KeepsId :
    (at : ℕ) (o : SendOutcome) (row : Notification)
    → KeepsId (change (record { outcome = o; at = at }) row)
change-KeepsId at delivered row = λ n. (refl, refl)
change-KeepsId at (permanent error) row = λ n. (refl, refl)
change-KeepsId at (failed error after) row =
    retry-KeepsId (text_take 500 error) at (next_time at (row.attempt_count + 1) after)

abbrev outgoing_of : Db × Option Error → Rows
outgoing_of (db, e) = (db.outgoing, e)

confirm-outgoing :
    (row : Notification) (now : ℕ) (origin : Option String) (db : Db)
    → (confirm row now origin db).outgoing ≡ update_rows row.id (as_sent now) db.outgoing
unfolding confirm transaction mark_listing_sent mark_notification_sent
confirm-outgoing row now none db = refl
confirm-outgoing row now (some key) db = refl

write_retry-outgoing :
    (row : Notification) (error : String) (at : ℕ) (db : Db) (r : Result ℕ)
    → outgoing_of (write_retry row error at db r)
      ≡ applied row.id db.outgoing (r >>= λ next. ok (as_retry (text_take 500 error) next at))
unfolding mark_notification_retry
write_retry-outgoing row error at db (ok next) = refl
write_retry-outgoing row error at db (err e) = refl

deliver-outgoing :
    (at : ℕ) (o : SendOutcome) (row : Notification) (db : Db)
    → let reply : Reply = record { outcome = o; at = at } in
      outgoing_of (deliver reply row db) ≡ applied row.id db.outgoing (change reply row)
unfolding deliver mark_notification_dead
deliver-outgoing at delivered row db =
    ap (λ rows. (rows, none)) (confirm-outgoing row at (listing_origin row) db)
deliver-outgoing at (permanent error) row db = refl
deliver-outgoing at (failed error after) row db =
    write_retry-outgoing row error at db (next_attempt at (row.attempt_count + 1) after)
    ∙ ap
        (λ r.
          applied row.id db.outgoing (r >>= λ next. ok (as_retry (text_take 500 error) next at)))
        (next_attempt_lem at (row.attempt_count + 1) after)

unless_raised-outgoing :
    (next : Db → Db × Option Error) (next_rows : List Notification → Rows) (p : Db × Option Error)
    → ((db : Db) → outgoing_of (next db) ≡ next_rows db.outgoing)
    → outgoing_of (unless_raised next p) ≡ unless_raised next_rows (outgoing_of p)
unless_raised-outgoing next next_rows (db, none) h = h db
unless_raised-outgoing next next_rows (db, some e) h = refl

deliver_all-outgoing :
    (send : Notification → Reply) (rows : List Notification) (db : Db)
    → outgoing_of (deliver_all send rows db) ≡ deliver_rows send rows db.outgoing
unfolding deliver_all deliver_rows
deliver_all-outgoing send [] db = refl
deliver_all-outgoing send (row ∷ rows) db =
    unless_raised-outgoing (deliver_all send rows) (deliver_rows send rows)
      (deliver (send row) row db) (deliver_all-outgoing send rows)
    ∙ ap (unless_raised (deliver_rows send rows))
        (deliver-outgoing (send row).at (send row).outcome row db)

update_rows-absent :
    (i : ℕ) (f : Notification → Notification) (ns : List Notification)
    → elem i (ids ns) ≡ false
    → update_rows i f ns ≡ ns
unfolding update_rows
update_rows-absent i f [] h = refl
update_rows-absent i f (n ∷ ns) h =
    ground (arith, nat_eq_iff n.id i, nat_eq_iff i n.id, update_rows-absent i f ns)

update_rows-first :
    (f : Notification → Notification) (n : Notification) (ns : List Notification)
    → elem n.id (ids ns) ≡ false
    → update_rows n.id f (n ∷ ns) ≡ f n ∷ ns
unfolding update_rows
update_rows-first f n ns h = ground (arith, nat_eq_iff n.id n.id, update_rows-absent n.id f ns h)

take-ids-absent :
    (i k : ℕ) (p : Notification → Bool) (ns : List Notification)
    → elem i (ids ns) ≡ false
    → elem i (ids (take k (keep p ns))) ≡ false
take-ids-absent i zero p ns h = refl
take-ids-absent i (suc k) p [] h = refl
take-ids-absent i (suc k) p (n ∷ ns) h = elim (Bool-cases (p n)) [
  | inl yes_p ↦ rw yes_p (ground (arith, h, take-ids-absent i k p ns))
  | inr no_p ↦ rw no_p (ground (arith, h, take-ids-absent i (suc k) p ns))
]

abbrev push : Notification → Rows → Rows
push m (ns, e) = (m ∷ ns, e)

update_rows-past :
    (i : ℕ) (f : Notification → Notification) (m : Notification) (ns : List Notification)
    → nat_eq m.id i ≡ false
    → update_rows i f (m ∷ ns) ≡ m ∷ update_rows i f ns
unfolding update_rows
update_rows-past i f m ns h = ground (arith, h, nat_eq_iff m.id i, nat_eq_iff i m.id)

absent-step :
    (next : List Notification → Rows) (i : ℕ) (m : Notification) (ns : List Notification)
    (v : Result (Notification → Notification))
    → nat_eq m.id i ≡ false
    → ((ms : List Notification) → next (m ∷ ms) ≡ push m (next ms))
    → unless_raised next (applied i (m ∷ ns) v) ≡ push m (unless_raised next (applied i ns v))
absent-step next i m ns (err e) h k = refl
absent-step next i m ns (ok f) h k = ap next (update_rows-past i f m ns h) ∙ k (update_rows i f ns)

deliver_rows-absent :
    (send : Notification → Reply) (rows : List Notification) (m : Notification)
    (ns : List Notification)
    → elem m.id (ids rows) ≡ false
    → deliver_rows send rows (m ∷ ns) ≡ push m (deliver_rows send rows ns)
unfolding deliver_rows
deliver_rows-absent send [] m ns h = refl
deliver_rows-absent send (row ∷ rows) m ns h =
    absent-step (deliver_rows send rows) row.id m ns (change (send row) row) (ground (arith, h))
      (λ ms. deliver_rows-absent send rows m ms (ground (arith, h)))

first-step :
    (send : Notification → Reply) (rows : List Notification) (n : Notification)
    (ns served : List Notification) (e : Option Error) (v : Result (Notification → Notification))
    → KeepsId v
    → elem n.id (ids ns) ≡ false
    → elem n.id (ids rows) ≡ false
    → deliver_rows send rows ns ≡ (served, e)
    → unless_raised (deliver_rows send rows) (applied n.id (n ∷ ns) v)
      ≡ (put n ns served (v >>= λ f. ok (f n)), error_or e (v >>= λ f. ok (f n)))
first-step send rows n ns served e (err x) keeps absent gone h = refl
first-step send rows n ns served e (ok f) keeps absent gone h =
    ap (deliver_rows send rows) (update_rows-first f n ns absent)
    ∙ deliver_rows-absent send rows (f n) ns (rw (keeps n).0 gone)
    ∙ ap (push (f n)) h

-- Attempting the first due rows one by one, by their ids, attempts each of them once.
deliver_rows-serve :
    (send : Notification → Reply) (now k : ℕ) (ns : List Notification)
    → distinct (ids ns) ≡ true
    → deliver_rows send (take k (keep (is_due now) ns)) ns
      ≡ (serve send now k ns, first_error send now k ns)
unfolding deliver_rows serve first_error
deliver_rows-serve send now zero ns h = refl
deliver_rows-serve send now (suc k) [] h = refl
deliver_rows-serve send now (suc k) (n ∷ ns) h =
    let absent : elem n.id (ids ns) ≡ false = ground (arith, h) in
    elim (Bool-cases (is_due now n)) [
      | inl due ↦ rw due (
          first-step send (take k (keep (is_due now) ns)) n ns (serve send now k ns)
            (first_error send now k ns) (change (send n) n)
            (change-KeepsId (send n).at (send n).outcome n) absent
            (take-ids-absent n.id k (is_due now) ns absent)
            (deliver_rows-serve send now k ns (ground (arith, h))))
      | inr waits ↦ rw waits (
          deliver_rows-absent send (take (suc k) (keep (is_due now) ns)) n ns
            (take-ids-absent n.id (suc k) (is_due now) ns absent)
          ∙ ap (push n) (deliver_rows-serve send now (suc k) ns (ground (arith, h))))
    ]

has_rows-take :
    (p : Notification → Bool) (k : ℕ) (ns : List Notification)
    → has_rows (take (suc k) (keep p ns)) ≡ any p ns
has_rows-take p k [] = refl
has_rows-take p k (n ∷ ns) = ground (arith, has_rows-take p k ns)

module _ (send : Notification → Reply) (now : ℕ) (db : Db) where
  -- If the ids are distinct, a poll attempts each of the first hundred due rows once, with the
  -- reply for that row, up to one whose attempt raises, and leaves that row and every other one as
  -- it is. It raises what that attempt raises, or tells whether a row was due.
  pub process_due-serve :
      distinct (ids db.outgoing) ≡ true
      → ((process_due send now db).0.outgoing ≡ serve send now 100 db.outgoing)
        × ((process_due send now db).1
            ≡ ended (any (is_due now) db.outgoing) (first_error send now 100 db.outgoing))
  unfolding process_due due_notifications
  process_due-serve h =
      let same =
        deliver_all-outgoing send (due_notifications poll_limit now db) db
        ∙ deliver_rows-serve send now 100 db.outgoing h in
      (
        ap (λ p. p.0) same,
        rw (has_rows-take (is_due now) 99 db.outgoing)
            (ap (λ p. ended (any (is_due now) db.outgoing) p.1) same),
      )
