-- ===== src/Alerts/Dispatcher/Progress.antt =====
-- How many rows a poll takes off the queue.
use bybit_crypto_monitor_tel.Base.{
  All, ℕ, zero, suc, ◌+◌, ◌-◌, ◌^◌, ◌/◌, max, ltb, any, ◌≤◌, ◌≡◌, inl, inr, refl, ◌∙◌, Bool, true,
  false, Option, none, some, String, List, [], ◌∷◌, ℕ_eq, String_eq, keep, length, distinct, arith,
  Bool-cases,
}
use bybit_crypto_monitor_tel.Base.Text.{text_take}
use bybit_crypto_monitor_tel.Base.Int.{pos, negsuc}
use bybit_crypto_monitor_tel.Base.Float.{Float, finite, infinity, minus_infinity, nan}
use bybit_crypto_monitor_tel.Base.Result.{Result, ok, err, ◌>>=◌}
use bybit_crypto_monitor_tel.Persistence.Tables.{Db, Notification}
use bybit_crypto_monitor_tel.Persistence.Outbox.{as_retry, is_due}
use bybit_crypto_monitor_tel.Alerts.Dispatcher.Delays.{retry_delay_for-bounds}
use bybit_crypto_monitor_tel.Alerts.Dispatcher.{
  SendOutcome, delivered, permanent, failed, Reply, retry_delay_for, process_due,
}
use bybit_crypto_monitor_tel.Alerts.Dispatcher.Rows.{
  attempt, within, next_time, put, serve, first_error, error_or, ids, process_due-serve,
}

-- A row that was attempted at or after the time of the poll is not due at that time any more.
abbrev NotDue : ℕ → Result Notification → Type 0
NotDue now (ok m) = is_due now m ≡ false
NotDue now (err e) = Unit

abbrev retried : String → ℕ → Notification → Result ℕ → Result Notification
retried error at n r = do
  f ← do next ← r; ok (as_retry error next at)
  ok (f n)

within-NotDue :
    (now at delay : ℕ) (error : String) (n : Notification)
    → now ≤ at
    → 1 ≤ delay
    → NotDue now (retried error at n (within (at + delay)))
within-NotDue now at delay error n h k = elim (Bool-cases (ltb (at + delay) (2 ^ 63))) [
  | inl fits ↦ rw fits (ground (arith, h, k))
  | inr large ↦ rw large tt
]

next_time-NotDue :
    (now at attempts : ℕ) (after : Option Float) (error : String) (n : Notification)
    → now ≤ at
    → NotDue now (retried error at n (next_time at attempts after))
next_time-NotDue now at attempts none error n h =
    within-NotDue now at (retry_delay_for attempts) error n h
      (omega (arith, retry_delay_for-bounds attempts))
next_time-NotDue now at attempts (some (finite (pos m))) error n h =
    within-NotDue now at (max (retry_delay_for attempts) (m / 2 ^ 1074)) error n h
      (ground (arith, retry_delay_for-bounds attempts))
next_time-NotDue now at attempts (some (finite (negsuc m))) error n h =
    within-NotDue now at (retry_delay_for attempts) error n h
      (omega (arith, retry_delay_for-bounds attempts))
next_time-NotDue now at attempts (some nan) error n h = tt
next_time-NotDue now at attempts (some infinity) error n h = tt
next_time-NotDue now at attempts (some minus_infinity) error n h = tt

attempt-NotDue :
    (now at : ℕ) (o : SendOutcome) (n : Notification)
    → now ≤ at
    → NotDue now (attempt (record { outcome = o; at = at }) n)
attempt-NotDue now at delivered n h = refl
attempt-NotDue now at (permanent error) n h = refl
attempt-NotDue now at (failed error after) n h =
    next_time-NotDue now at (n.attempt_count + 1) after (text_take 500 error) n h

abbrev pub due_count : ℕ → List Notification → ℕ
due_count now ns = length (keep (is_due now) ns)

abbrev is_err {ℓ} : {A : Type ℓ} → Result A → Bool
is_err (ok a) = false
is_err (err e) = true

-- No attempt at a row raises.
abbrev AllReturn : (Notification → Reply) → List Notification → Type 0
AllReturn send ns = All (λ n. is_err (attempt (send n) n) ≡ false) ns

put-due_count :
    (now : ℕ) (n : Notification) (rest served : List Notification) (r : Result Notification)
    → NotDue now r
    → is_err r ≡ false
    → due_count now (put n rest served r) ≡ due_count now served
put-due_count now n rest served (ok m) h k = rw h refl
put-due_count now n rest served (err e) h k = ground arith

serve-due_count :
    (send : Notification → Reply) (now k : ℕ) (ns : List Notification)
    → ((n : Notification) → now ≤ (send n).at)
    → AllReturn send ns
    → due_count now (serve send now k ns) ≡ due_count now ns - k
unfolding serve
serve-due_count send now zero ns late fine = omega arith
serve-due_count send now (suc k) [] late fine = omega arith
serve-due_count send now (suc k) (n ∷ ns) late fine =
    let gone = attempt-NotDue now (send n).at (send n).outcome n (late n) in
    elim (Bool-cases (is_due now n)) [
      | inl due ↦ rw due (
          put-due_count now n ns (serve send now k ns) (attempt (send n) n) gone fine.0
          ∙ omega (arith, serve-due_count send now k ns late fine.1))
      | inr waits ↦ rw (waits, waits) (serve-due_count send now (suc k) ns late fine.1)
    ]

error_or-none : (r : Result Notification) → is_err r ≡ false → error_or none r ≡ none
error_or-none (ok m) h = refl
error_or-none (err e) h = ground arith

first_error-none :
    (send : Notification → Reply) (now k : ℕ) (ns : List Notification)
    → AllReturn send ns
    → first_error send now k ns ≡ none
unfolding first_error
first_error-none send now zero ns fine = refl
first_error-none send now (suc k) [] fine = refl
first_error-none send now (suc k) (n ∷ ns) fine = elim (Bool-cases (is_due now n)) [
  | inl due ↦
      rw (due, first_error-none send now k ns fine.1) (error_or-none (attempt (send n) n) fine.0)
  | inr waits ↦ rw waits (first_error-none send now (suc k) ns fine.1)
]

module _ (send : Notification → Reply) (now : ℕ) (db : Db) where
  -- If the ids are distinct, the clock does not go back and no attempt at a row raises, a poll
  -- takes a hundred due rows off the queue, or all of them if they are fewer, and returns whether
  -- there was one.
  pub process_due-progress :
      distinct (ids db.outgoing) ≡ true
      → ((n : Notification) → now ≤ (send n).at)
      → AllReturn send db.outgoing
      → (due_count now (process_due send now db).0.outgoing ≡ due_count now db.outgoing - 100)
        × ((process_due send now db).1 ≡ ok (any (is_due now) db.outgoing))
  process_due-progress h late fine =
      let (rows, result) = process_due-serve send now db h in
      (
        rw rows (serve-due_count send now 100 db.outgoing late fine),
        rw (result, first_error-none send now 100 db.outgoing fine) refl,
      )
