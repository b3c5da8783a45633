-- ===== src/Alerts/Dispatcher/Delivery.antt =====
-- What one cycle of the worker does with each row of the outbox.
use bybit_crypto_monitor_tel.Base.{
  ℕ, zero, suc, ◌≡◌, inl, inr, refl, ◌∙◌, ap, true, false, some, List, [], ◌∷◌, distinct, Each,
  none_left, each, Bool-cases, ℕ_eq, arith,
}
use bybit_crypto_monitor_tel.Base.Result.{Error, Result, ok, err}
use bybit_crypto_monitor_tel.Config.{Settings, whole_seconds}
use bybit_crypto_monitor_tel.Persistence.Tables.{Db, Notification, DeliveryStatus}
use bybit_crypto_monitor_tel.Persistence.Outbox.{
  as_dead, is_due, expire_notifications, expire_rows, is_expired, is_open,
}
use bybit_crypto_monitor_tel.Alerts.Dispatcher.{Reply, iteration}
use bybit_crypto_monitor_tel.Alerts.Dispatcher.Due.{
  IsDue, IsOld, IsDue-cases, IsOld-cases, due, old, not_old,
}
use bybit_crypto_monitor_tel.Alerts.Dispatcher.Rows.{attempt, put, serve, ids, process_due-serve}

module _ (alert_age listing_age : ℕ) (send : Notification → Reply) (expiry_now now : ℕ) where
  -- The rows before and after a cycle that may attempt so many rows: a row that is too old is dead
  -- after it; of the others, those that are due are attempted, the first ones first, while the
  -- number lasts and none raises.
  pub data Served : ℕ → List Notification → List Notification → Type 0 where
    no_row : (k : ℕ) → Served k [] []
    dead :
        (k : ℕ) (n : Notification) (ns ms : List Notification)
        → IsOld alert_age listing_age expiry_now n
        → Served k ns ms
        → Served k (n ∷ ns) (record n { status = DeliveryStatus.dead; error = some "expired" } ∷ ms)
    answered :
        (k : ℕ) (n m : Notification) (ns ms : List Notification)
        → (IsOld alert_age listing_age expiry_now n → ⊥)
        → IsDue now n
        → attempt (send n) n ≡ ok m
        → Served k ns ms
        → Served (suc k) (n ∷ ns) (m ∷ ms)
    raising :
        (k : ℕ) (n : Notification) (e : Error) (ns ms : List Notification)
        → (IsOld alert_age listing_age expiry_now n → ⊥)
        → IsDue now n
        → attempt (send n) n ≡ err e
        → Served 0 ns ms
        → Served (suc k) (n ∷ ns) (n ∷ ms)
    past_limit :
        (n : Notification) (ns ms : List Notification)
        → (IsOld alert_age listing_age expiry_now n → ⊥)
        → IsDue now n
        → Served 0 ns ms
        → Served 0 (n ∷ ns) (n ∷ ms)
    waiting :
        (k : ℕ) (n : Notification) (ns ms : List Notification)
        → (IsOld alert_age listing_age expiry_now n → ⊥)
        → (IsDue now n → ⊥)
        → Served k ns ms
        → Served k (n ∷ ns) (n ∷ ms)

  expire-Served :
      (ns : List Notification) → Served 0 ns (expire_rows alert_age listing_age expiry_now ns)
  unfolding expire_rows
  expire-Served [] = no_row 0
  expire-Served (n ∷ ns) =
      let rest = expire-Served ns in
      let after = expire_rows alert_age listing_age expiry_now ns in
      elim (IsOld-cases expiry_now n alert_age listing_age) [
        | inl (old, yes_old) ↦ rw yes_old (dead 0 n ns after old rest)
        | inr (kept, not_yet) ↦ elim (IsDue-cases now n) [
          | inl (due, yes_due) ↦ rw not_yet (past_limit n ns after kept due rest)
          | inr (waits, not_due) ↦ rw not_yet (waiting 0 n ns after kept waits rest)
        ]
      ]

  attempted-Served :
      (k : ℕ) (n : Notification) (ns served : List Notification) (r : Result Notification)
      → (IsOld alert_age listing_age expiry_now n → ⊥)
      → IsDue now n
      → attempt (send n) n ≡ r
      → Served k ns served
      → Served (suc k) (n ∷ ns) (put n (expire_rows alert_age listing_age expiry_now ns) served r)
  attempted-Served k n ns served (ok m) kept due h rest = answered k n m ns served kept due h rest
  attempted-Served k n ns served (err e) kept due h rest =
      raising k n e ns (expire_rows alert_age listing_age expiry_now ns) kept due h
        (expire-Served ns)

  serve-Served :
      (k : ℕ) (ns : List Notification)
      → Served k ns (serve send now k (expire_rows alert_age listing_age expiry_now ns))
  unfolding serve expire_rows
  serve-Served zero ns = expire-Served ns
  serve-Served (suc k) [] = no_row (suc k)
  serve-Served (suc k) (n ∷ ns) =
      let expired = expire_rows alert_age listing_age expiry_now ns in
      elim (IsOld-cases expiry_now n alert_age listing_age) [
        | inl (old, yes_old) ↦
            rw yes_old
              (dead (suc k) n ns (serve send now (suc k) expired) old (serve-Served (suc k) ns))
        | inr (kept, not_yet) ↦ elim (IsDue-cases now n) [
          | inl (due, yes_due) ↦
              rw (not_yet, yes_due)
                (attempted-Served k n ns (serve send now k expired) (attempt (send n) n) kept due
                  refl (serve-Served k ns))
          | inr (waits, not_due) ↦
              rw (not_yet, not_due)
                (waiting (suc k) n ns (serve send now (suc k) expired) kept waits
                  (serve-Served (suc k) ns))
        ]
      ]

  expire_rows-ids :
      (ns : List Notification) → ids (expire_rows alert_age listing_age expiry_now ns) ≡ ids ns
  unfolding expire_rows
  expire_rows-ids [] = refl
  expire_rows-ids (n ∷ ns) = elim (Bool-cases (is_expired alert_age listing_age expiry_now n)) [
    | inl old ↦ rw old (ap (◌∷◌ n.id) (expire_rows-ids ns))
    | inr kept ↦ rw kept (ap (◌∷◌ n.id) (expire_rows-ids ns))
  ]

-- If the ids are distinct, a cycle marks every row dead that is too old, and attempts the first
-- hundred others that are due, each once, up to one whose attempt raises; it changes no other row.
pub iteration-Served :
    (config : Settings) (send : Notification → Reply) (expiry_now now : ℕ) (db : Db)
    → distinct (ids db.outgoing) ≡ true
    → Served
        (whole_seconds config.notification_max_age_seconds)
        (whole_seconds config.listing_notification_max_age_seconds)
        send
        expiry_now
        now
        100
        db.outgoing
        (iteration config send expiry_now now db).0.outgoing
unfolding iteration expire_notifications
iteration-Served config send expiry_now now db h =
    let alert_age = whole_seconds config.notification_max_age_seconds in
    let listing_age = whole_seconds config.listing_notification_max_age_seconds in
    let rows = expire_rows alert_age listing_age expiry_now db.outgoing in
    rw
      (process_due-serve send now (record db { outgoing = rows })
        (ap distinct (expire_rows-ids alert_age listing_age send expiry_now now db.outgoing) ∙ h)).0
      (serve-Served alert_age listing_age send expiry_now now 100 db.outgoing)

-- What can happen to a single row in a cycle.
pub data Step (alert_age listing_age : ℕ) (send : Notification → Reply) (expiry_now now : ℕ)
    : Notification → Notification → Type 0 where
  unchanged :
      (n : Notification)
      → is_expired alert_age listing_age expiry_now n ≡ false
      → Step alert_age listing_age send expiry_now now n n
  expired :
      (n : Notification)
      → is_expired alert_age listing_age expiry_now n ≡ true
      → Step alert_age listing_age send expiry_now now n (as_dead "expired" n)
  attempted :
      (n m : Notification)
      → is_expired alert_age listing_age expiry_now n ≡ false
      → is_due now n ≡ true
      → attempt (send n) n ≡ ok m
      → Step alert_age listing_age send expiry_now now n m

module _ {alert_age listing_age expiry_now now : ℕ} {send : Notification → Reply} where
  Served-Step :
      {k : ℕ} {ns ms : List Notification}
      → Served alert_age listing_age send expiry_now now k ns ms
      → Each (Step alert_age listing_age send expiry_now now) ns ms
  Served-Step (no_row k) = none_left
  Served-Step (dead k n ns ms too_old rest) =
      each (expired n (old expiry_now n alert_age listing_age too_old)) (Served-Step rest)
  Served-Step (answered k n m ns ms kept is_time h rest) =
      each (attempted n m (not_old expiry_now n alert_age listing_age kept) (due now n is_time) h)
        (Served-Step rest)
  Served-Step (raising k n e ns ms kept is_time h rest) =
      each (unchanged n (not_old expiry_now n alert_age listing_age kept)) (Served-Step rest)
  Served-Step (past_limit n ns ms kept is_time rest) =
      each (unchanged n (not_old expiry_now n alert_age listing_age kept)) (Served-Step rest)
  Served-Step (waiting k n ns ms kept waits rest) =
      each (unchanged n (not_old expiry_now n alert_age listing_age kept)) (Served-Step rest)

  Step-final :
      {n m : Notification}
      → Step alert_age listing_age send expiry_now now n m
      → is_open n.status ≡ false
      → m ≡ n
  Step-final (unchanged n kept) h = refl
  Step-final (expired n old) h = ground (arith, old, h)
  Step-final (attempted n m kept due e) h = ground (arith, due, h)

  -- Position by position, a row that was sent or is dead stays as it is.
  Each-final :
      {ns ms : List Notification}
      → Each (Step alert_age listing_age send expiry_now now) ns ms
      → Each (λ n m. is_open n.status ≡ false → m ≡ n) ns ms
  Each-final none_left = none_left
  Each-final (each step steps) = each (Step-final step) (Each-final steps)

module _ (config : Settings) (send : Notification → Reply) (expiry_now now : ℕ) (db : Db)
    (h : distinct (ids db.outgoing) ≡ true) where
  -- Row by row, a cycle can only do this.
  pub iteration-Step :
      Each
        (Step
          (whole_seconds config.notification_max_age_seconds)
          (whole_seconds config.listing_notification_max_age_seconds)
          send
          expiry_now
          now)
        db.outgoing
        (iteration config send expiry_now now db).0.outgoing
  iteration-Step = Served-Step (iteration-Served config send expiry_now now db h)

  -- If the ids are distinct, a cycle changes no row that was sent or is dead.
  iteration-final :
      Each
        (λ n m. is_open n.status ≡ false → m ≡ n)
        db.outgoing
        (iteration config send expiry_now now db).0.outgoing
  iteration-final = Each-final iteration-Step
