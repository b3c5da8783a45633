-- ===== src/Examples/Chat.antt =====
-- A message whose first post times out, a text of two lines, and the theorems applied to them.
use bybit_crypto_monitor_tel.Base.{
  ℕ, zero, suc, ◌≡◌, ◌↔◌, refl, true, none, some, String, [], ◌∷◌, All, Each, arith, ◌⊎◌,
}
use bybit_crypto_monitor_tel.Base.Text.{text_take}
use bybit_crypto_monitor_tel.Telegram.Split.{
  message_chunk_limit, is_space, text_drop, lstrip, before_stripped, rstrip, found_from,
  rfind_newline, cut_at, split_from, split_message,
}
use bybit_crypto_monitor_tel.Telegram.Chunks.{Fits, visible, visible_all, split_message-chunks}
use bybit_crypto_monitor_tel.Telegram.Client.{
  Client, Answer, http_error, response, object, missing, send_chunk, send_chunks, send_message,
  after_chunk, send_from, after_attempt, attempt_once, read_body,
}
use bybit_crypto_monitor_tel.Telegram.Attempts.{AllAccepted, is_delivered, send_message-delivers}
use bybit_crypto_monitor_tel.Persistence.Tables.{sent}
use bybit_crypto_monitor_tel.Alerts.Dispatcher.{iteration}
use bybit_crypto_monitor_tel.Main.Replies.{Posts, reply_to, IsAccepted, iteration-IsAccepted}
use bybit_crypto_monitor_tel.Examples.Data.{config, outbox}

abbrev new_client : Client
new_client = record { last_success_at = none; last_error_at = none; last_error_type = none }

abbrev accepting : Answer
accepting = record {
  post = response (record {
    status_code = 200;
    body = object (record { is_ok = true; retry_after = missing });
    header_retry_after = none;
  });
  at = 1001;
}

-- The first attempt times out.
abbrev second_attempt : ℕ → Answer
second_attempt zero = record { post = http_error "ReadTimeout"; at = 1000 }
second_attempt (suc _) = accepting

abbrev answers : ℕ → String → ℕ → Answer
answers n text = second_attempt

greeting-sent :
    (is_delivered (send_message 1 answers "hello" new_client).1 ≡ true)
    × ((send_message 1 answers "hello" new_client).0.last_error_at ≡ some 1000)
unfolding send_message send_chunks send_chunk after_chunk send_from after_attempt attempt_once
    read_body split_message
greeting-sent = (refl, refl)

two_lines-split : split_message "hello \n world" 9 ≡ "hello" ∷ "world" ∷ []
unfolding split_message split_from is_space text_drop lstrip before_stripped rstrip found_from
    rfind_newline cut_at text_take
two_lines-split = refl

send_message-delivers_example :
    (is_delivered (send_message 1 answers "hello" new_client).1 ≡ true)
    ↔ AllAccepted 1 answers 0 (split_message "hello" message_chunk_limit)
send_message-delivers_example = send_message-delivers 1 answers "hello" new_client

split_message-chunks_example :
    All (Fits 9) (split_message "hello \n world" 9)
    × (visible_all (split_message "hello \n world" 9) ≡ visible "hello \n world" "")
split_message-chunks_example = split_message-chunks "hello \n world" 9 (omega arith)

abbrev posts : Posts
posts = record { answers = λ id. answers; after = λ id. 200 }

iteration-IsAccepted_example :
    Each
      (λ n m. m.status ≡ sent → (n.status ≡ sent) ⊎ IsAccepted 1 posts n)
      outbox.outgoing
      (iteration config (reply_to 1 posts new_client) 199 200 outbox).0.outgoing
iteration-IsAccepted_example = iteration-IsAccepted 1 posts new_client config 199 200 outbox refl
