-- ===== src/Bybit/WebSocket/Fresh.antt =====
-- The ids of the requests of app/bybit/websocket.py: those to come are free.
use bybit_crypto_monitor_tel.Base.{
  ◌+◌, ℕ, suc, refl, sym, subst, Bool, true, false, Option, none, some, String, List, [], ◌∷◌, ℕ_eq,
  length, arith, leb, Bool-cases, inl, inr,
}
use bybit_crypto_monitor_tel.Base.Dict.{get, get-nil, get-delete}
use bybit_crypto_monitor_tel.Config.{Settings}
use bybit_crypto_monitor_tel.Bybit.WebSocket.{
  Client, PendingSubscription, is_empty, set_symbols, on_open, add_pending, roll_back,
  send_subscribe, send_unsubscribe, resubscribe, unsubscribe, handle_subscribe_ack, handle_raw,
  Frame, ack, pong, ticker, other, note_any_message, expired_pending_subscriptions,
  fail_unacked_subscriptions, ticker_since, ticker_stale, Event, connecting, closed, opened, wanted,
  synced, dropped, received, checked, step, run,
}
use bybit_crypto_monitor_tel.Bybit.WebSocket.Calls.{
  resubscribe_cases, unsubscribe_cases, missing_batches, stale_batches, down_unless, then_ack,
  handle_subscribe_ack-step,
}
use bybit_crypto_monitor_tel.Bybit.WebSocket.Covered.{IsFresh, add_pending-IsFresh}

-- Taking an entry away frees an id at most.
delete-IsFresh : (id : ℕ) (c : Client) → IsFresh c → IsFresh (roll_back id c)
delete-IsFresh id c h n above = ground (arith, get-delete id n c.pending_subscriptions, h n above)

send_subscribe-IsFresh :
    (sends : ℕ → Bool) (clock : ℕ → ℕ) (bs : List (List String)) (c : Client)
    → IsFresh c
    → IsFresh (send_subscribe sends clock bs c).0
unfolding send_subscribe
send_subscribe-IsFresh sends clock [] c h = h
send_subscribe-IsFresh sends clock (batch ∷ rest) c h =
    let id = suc c.sequence in
    let added = add_pending (clock id) batch c in
    let fresh = add_pending-IsFresh (clock id) batch c h in
    elim (Bool-cases (sends id)) [
      | inl sent ↦ rw sent (send_subscribe-IsFresh sends clock rest added fresh)
      | inr broken ↦ rw broken (delete-IsFresh id added fresh)
    ]

send_unsubscribe-IsFresh :
    (sends : ℕ → Bool) (bs : List (List String)) (c : Client)
    → IsFresh c
    → IsFresh (send_unsubscribe sends bs c).0
unfolding send_unsubscribe
send_unsubscribe-IsFresh sends [] c h = h
send_unsubscribe-IsFresh sends (batch ∷ rest) c h = elim (Bool-cases (sends (length rest))) [
  | inl sent ↦ rw sent (send_unsubscribe-IsFresh sends rest _ h)
  | inr broken ↦ rw broken h
]

resubscribe-IsFresh :
    (config : Settings) (sends : ℕ → Bool) (clock : ℕ → ℕ) (c : Client)
    → IsFresh c
    → IsFresh (resubscribe config sends clock c).0
resubscribe-IsFresh config sends clock c h =
    resubscribe_cases IsFresh config sends clock c h
      (send_subscribe-IsFresh sends clock (missing_batches config c) c h)

unsubscribe-IsFresh :
    (config : Settings) (sends : ℕ → Bool) (symbols : List String) (c : Client)
    → IsFresh c
    → IsFresh (unsubscribe config sends symbols c).0
unsubscribe-IsFresh config sends symbols c h =
    unsubscribe_cases IsFresh config sends symbols c h
      (send_unsubscribe-IsFresh sends (stale_batches config symbols c) c h)

then_ack-IsFresh :
    (id : ℕ) (success : Bool) (c : Client) (o : Option PendingSubscription)
    → IsFresh c
    → IsFresh (then_ack id success c o).0
then_ack-IsFresh id success c none h = h
then_ack-IsFresh id true c (some p) h = delete-IsFresh id c h
then_ack-IsFresh id false c (some p) h = delete-IsFresh id c h

ack-IsFresh :
    (id : Option ℕ) (success : Bool) (c : Client)
    → IsFresh c
    → IsFresh (handle_subscribe_ack id success c).0
unfolding handle_subscribe_ack
ack-IsFresh none success c h = h
ack-IsFresh (some id) success c h =
    subst (λ r. IsFresh r.0)
      (sym (handle_subscribe_ack-step id success c (get id c.pending_subscriptions) refl))
      (then_ack-IsFresh id success c (get id c.pending_subscriptions) h)

handle_raw-IsFresh :
    (now : ℕ) (frame : Frame) (c : Client) → IsFresh c → IsFresh (handle_raw now frame c).0
unfolding handle_raw
handle_raw-IsFresh now (ack id success) c h = ack-IsFresh id success (note_any_message now c) h
handle_raw-IsFresh now pong c h = h
handle_raw-IsFresh now (ticker symbol) c h = h
handle_raw-IsFresh now other c h = h

checked-IsFresh :
    (config : Settings) (now : ℕ) (c : Client)
    → IsFresh c
    → IsFresh (ticker_stale config now (fail_unacked_subscriptions config now c).0).0
unfolding ticker_stale fail_unacked_subscriptions
checked-IsFresh config now c h =
    let watched = (fail_unacked_subscriptions config now c).0 in
    let fresh : IsFresh watched =
      down_unless IsFresh false
        (is_empty (expired_pending_subscriptions config now c.pending_subscriptions)) c h h in
    down_unless IsFresh (is_empty watched.desired_symbols)
      (leb now (ticker_since watched + config.ws_stale_seconds)) watched fresh fresh

step-IsFresh : (config : Settings) (e : Event) (c : Client) → IsFresh c → IsFresh (step config e c)
unfolding step on_open set_symbols
step-IsFresh config connecting c h = h
step-IsFresh config closed c h = h
step-IsFresh config (opened now) c h = λ n above. get-nil n
step-IsFresh config (wanted symbols) c h = h
step-IsFresh config (synced sends clock) c h = resubscribe-IsFresh config sends clock c h
step-IsFresh config (dropped sends symbols) c h = unsubscribe-IsFresh config sends symbols c h
step-IsFresh config (received now frame) c h = handle_raw-IsFresh now frame c h
step-IsFresh config (checked now) c h = checked-IsFresh config now c h

-- The ids after the last one given are free in every client that the program can have.
pub run-IsFresh : (config : Settings) (events : List Event) → IsFresh (run config events)
unfolding run
run-IsFresh config [] = λ n above. get-nil n
run-IsFresh config (e ∷ earlier) =
    step-IsFresh config e (run config earlier) (run-IsFresh config earlier)
