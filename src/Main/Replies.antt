-- ===== src/Main/Replies.antt =====
-- app/main.py gives the dispatcher the Telegram client: what a row's delivery comes to, and what a
-- row that is marked as sent tells.
use bybit_crypto_monitor_tel.Base.{
  ℕ, ℕ_eq, ◌+◌, ◌≡◌, ◌⊎◌, inl, inr, refl, true, String, List, distinct, Each, none_left, each,
  arith,
}
use bybit_crypto_monitor_tel.Base.Text.{text_take}
use bybit_crypto_monitor_tel.Base.Result.{Result, ok, err, ◌>>=◌}
use bybit_crypto_monitor_tel.Persistence.Outbox.{as_retry}
use bybit_crypto_monitor_tel.Config.{Settings}
use bybit_crypto_monitor_tel.Persistence.Tables.{Db, Notification, sent}
use bybit_crypto_monitor_tel.Telegram.Split.{message_chunk_limit, split_message}
use bybit_crypto_monitor_tel.Telegram.Client.{Client, Answer, send_message}
use bybit_crypto_monitor_tel.Telegram.Attempts.{AllAccepted, is_delivered, send_message-delivers}
use bybit_crypto_monitor_tel.Alerts.Dispatcher.{
  SendOutcome, delivered, permanent, failed, Reply, iteration,
}
use bybit_crypto_monitor_tel.Alerts.Dispatcher.Rows.{attempt, next_time, ids}
use bybit_crypto_monitor_tel.Alerts.Dispatcher.Delivery.{
  Step, unchanged, expired, attempted, iteration-Step,
}

-- What the posts for each row come to, by its id, and the clock after its delivery. The outcome of a
-- delivery does not depend on the client's health fields, so each row is given the same ones.
pub record Posts : Type 0 where
  pub answers : ℕ → ℕ → String → ℕ → Answer
  pub after : ℕ → ℕ

unfoldable pub reply_to : ℕ → Posts → Client → Notification → Reply
reply_to max_retries posts telegram row = record {
  outcome = (send_message max_retries (posts.answers row.id) row.message telegram).1;
  at = posts.after row.id;
}

-- Every chunk of the row's message was accepted by Telegram.
abbrev pub IsAccepted : ℕ → Posts → Notification → Type 0
IsAccepted max_retries posts n =
    AllAccepted max_retries (posts.answers n.id) 0 (split_message n.message message_chunk_limit)

-- A row that is written as retried is not sent.
retry-unsent :
    (error : String) (at : ℕ) (n m : Notification) (r : Result ℕ)
    → ((r >>= λ next. ok (as_retry error next at)) >>= λ f. ok (f n)) ≡ ok m
    → m.status ≡ sent
    → ⊥
retry-unsent error at n m (ok next) e h = ground (arith, e, h)
retry-unsent error at n m (err x) e h = cc e

attempt-sent :
    (o : SendOutcome) (at : ℕ) (n m : Notification)
    → let reply : Reply = record { outcome = o; at = at } in
      attempt reply n ≡ ok m → m.status ≡ sent → is_delivered o ≡ true
attempt-sent delivered at n m e h = refl
attempt-sent (permanent error) at n m e h = ground (arith, e, h)
attempt-sent (failed error retry_after) at n m e h =
    absurd (
      retry-unsent (text_take 500 error) at n m (next_time at (n.attempt_count + 1) retry_after) e
        h)

module _ (max_retries : ℕ) (posts : Posts) (telegram : Client) where
  Step-IsAccepted :
      {alert_age listing_age expiry_now now : ℕ} {n m : Notification}
      → Step alert_age listing_age (reply_to max_retries posts telegram) expiry_now now n m
      → m.status ≡ sent
      → (n.status ≡ sent) ⊎ IsAccepted max_retries posts n
  unfolding reply_to
  Step-IsAccepted (unchanged n kept) h = inl h
  Step-IsAccepted (expired n old) h = ground arith
  Step-IsAccepted (attempted n m kept due e) h = inr (
      (send_message-delivers max_retries (posts.answers n.id) n.message telegram).0 (
        attempt-sent (send_message max_retries (posts.answers n.id) n.message telegram).1
          (posts.after n.id) n m e h))

  Each-IsAccepted :
      {alert_age listing_age expiry_now now : ℕ} {ns ms : List Notification}
      → Each (Step alert_age listing_age (reply_to max_retries posts telegram) expiry_now now) ns ms
      → Each (λ n m. m.status ≡ sent → (n.status ≡ sent) ⊎ IsAccepted max_retries posts n) ns ms
  Each-IsAccepted none_left = none_left
  Each-IsAccepted (each step steps) = each (Step-IsAccepted step) (Each-IsAccepted steps)

-- If the ids are distinct, a row that is marked as sent after a cycle was so before, or Telegram
-- accepted every chunk of its message in this cycle.
pub iteration-IsAccepted :
    (max_retries : ℕ) (posts : Posts) (telegram : Client) (config : Settings) (expiry_now now : ℕ)
    (db : Db)
    → distinct (ids db.outgoing) ≡ true
    → Each
        (λ n m. m.status ≡ sent → (n.status ≡ sent) ⊎ IsAccepted max_retries posts n)
        db.outgoing
        (iteration config (reply_to max_retries posts telegram) expiry_now now db).0.outgoing
iteration-IsAccepted max_retries posts telegram config expiry_now now db h =
    Each-IsAccepted max_retries posts telegram
      (iteration-Step config (reply_to max_retries posts telegram) expiry_now now db h)
