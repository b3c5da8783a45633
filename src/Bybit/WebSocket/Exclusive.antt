-- ===== src/Bybit/WebSocket/Exclusive.antt =====
-- No symbol is requested twice: it is confirmed, or in one pending request, or neither.
use bybit_crypto_monitor_tel.Base.{
  ℕ, suc, ◌+◌, ◌≤◌, ◌≡◌, refl, sym, subst, Bool, true, false, Option, none, some, String, List, [],
  ◌∷◌, String_eq, ℕ_eq, length, arith, Bool-cases, inl, inr, leb,
}
use bybit_crypto_monitor_tel.Base.Dict.{get, set}
use bybit_crypto_monitor_tel.Config.{Settings}
use bybit_crypto_monitor_tel.Bybit.WebSocket.{
  Client, PendingSubscription, minus, symbols_of, pending_symbols, set_symbols, on_open,
  add_pending, send_subscribe, send_unsubscribe, missing_symbols, resubscribe, unsubscribe,
  handle_subscribe_ack, Frame, ack, pong, ticker, other, handle_raw, note_any_message,
  fail_unacked_subscriptions, ticker_stale, ticker_since, is_empty, expired_pending_subscriptions,
  Event, step, run, connecting, closed, opened, wanted, synced, dropped, received, checked,
}
use bybit_crypto_monitor_tel.Bybit.WebSocket.Times.{
  times, times-sorted, elem-times, times-minus, times-union, union-once, total, total-batches,
  times-set, times-delete, times-get,
}
use bybit_crypto_monitor_tel.Bybit.WebSocket.Calls.{
  missing_batches, stale_batches, resubscribe_cases, unsubscribe_cases, then_ack,
  handle_subscribe_ack-step, down_unless,
}

-- How often a symbol is confirmed or requested.
abbrev pub uses : String → Client → ℕ
uses s c = times s (pending_symbols c) + times s c.subscribed

-- No symbol is confirmed or requested twice, or wanted twice.
abbrev pub IsExclusive : Client → Type 0
IsExclusive c = (s : String) → (uses s c ≤ 1) × (times s c.desired_symbols ≤ 1)

send_subscribe-uses :
    (sends : ℕ → Bool) (clock : ℕ → ℕ) (bs : List (List String)) (c : Client) (s : String)
    → let after = (send_subscribe sends clock bs c).0 in
      (uses s after ≤ uses s c + total s bs) × (after.desired_symbols ≡ c.desired_symbols)
unfolding send_subscribe
send_subscribe-uses sends clock [] c s = (omega arith, refl)
send_subscribe-uses sends clock (batch ∷ rest) c s =
    let id = suc c.sequence in
    let added = add_pending (clock id) batch c in
    let p : PendingSubscription = record { symbols = batch; sent_at = clock id } in
    let grown = times-set s id p c.pending_subscriptions in
    elim (Bool-cases (sends id)) [
      | inl taken ↦
          let (later, same) = send_subscribe-uses sends clock rest added s in
          rw taken (omega (arith, later, grown), same)
      | inr raised ↦
          rw raised
            (omega (arith, grown, times-delete s id (set id p c.pending_subscriptions)), refl)
    ]

send_unsubscribe-uses :
    (sends : ℕ → Bool) (bs : List (List String)) (c : Client) (s : String)
    → let after = (send_unsubscribe sends bs c).0 in
      (uses s after ≤ uses s c) × (after.desired_symbols ≡ c.desired_symbols)
unfolding send_unsubscribe
send_unsubscribe-uses sends [] c s = (omega arith, refl)
send_unsubscribe-uses sends (batch ∷ rest) c s = elim (Bool-cases (sends (length rest))) [
  | inl taken ↦
      let (later, same) =
        send_unsubscribe-uses sends rest (record c { subscribed = minus c.subscribed batch }) s in
      rw taken (ground (arith, later, times-minus s c.subscribed batch), same)
  | inr raised ↦ rw raised (omega arith, refl)
]

missing-uses :
    (c : Client) (s : String) → IsExclusive c → times s (missing_symbols c) + uses s c ≤ 1
missing-uses c s h =
    let waiting = minus c.desired_symbols c.subscribed in
    ground (
      arith,
      h s,
      times-sorted s (minus waiting (pending_symbols c)),
      times-minus s waiting (pending_symbols c),
      times-minus s c.desired_symbols c.subscribed,
      elem-times s (pending_symbols c),
      elem-times s c.subscribed,
    )

resubscribe-IsExclusive :
    (config : Settings) (sends : ℕ → Bool) (clock : ℕ → ℕ) (c : Client)
    → IsExclusive c
    → IsExclusive (resubscribe config sends clock c).0
resubscribe-IsExclusive config sends clock c h =
    resubscribe_cases IsExclusive config sends clock c h (λ s.
      let (used, same) = send_subscribe-uses sends clock (missing_batches config c) c s in
      (
        omega (
          arith,
          used,
          missing-uses c s h,
          total-batches s (length (missing_symbols c)) config.ws_subscribe_batch_size
              (missing_symbols c),
        ),
        subst (λ xs. times s xs ≤ 1) (sym same) (h s).1,
      ))

unsubscribe-IsExclusive :
    (config : Settings) (sends : ℕ → Bool) (symbols : List String) (c : Client)
    → IsExclusive c
    → IsExclusive (unsubscribe config sends symbols c).0
unsubscribe-IsExclusive config sends symbols c h =
    unsubscribe_cases IsExclusive config sends symbols c h (λ s.
      let (used, same) = send_unsubscribe-uses sends (stale_batches config symbols c) c s in
      (omega (arith, used, (h s).0), subst (λ xs. times s xs ≤ 1) (sym same) (h s).1))

then_ack-IsExclusive :
    (id : ℕ) (success : Bool) (c : Client) (o : Option PendingSubscription)
    → get id c.pending_subscriptions ≡ o
    → IsExclusive c
    → IsExclusive (then_ack id success c o).0
then_ack-IsExclusive id success c none e h s = h s
then_ack-IsExclusive id true c (some p) e h s = (
  omega (
    arith,
    (h s).0,
    times-get s id p c.pending_subscriptions e,
    times-union s c.subscribed p.symbols,
  ),
  (h s).1,
)
then_ack-IsExclusive id false c (some p) e h s =
    (omega (arith, (h s).0, times-delete s id c.pending_subscriptions), (h s).1)

handle_subscribe_ack-IsExclusive :
    (id : Option ℕ) (success : Bool) (c : Client)
    → IsExclusive c
    → IsExclusive (handle_subscribe_ack id success c).0
unfolding handle_subscribe_ack
handle_subscribe_ack-IsExclusive none success c h = h
handle_subscribe_ack-IsExclusive (some id) success c h =
    subst (λ r. IsExclusive r.0)
      (sym (handle_subscribe_ack-step id success c (get id c.pending_subscriptions) refl))
      (then_ack-IsExclusive id success c (get id c.pending_subscriptions) refl h)

handle_raw-IsExclusive :
    (now : ℕ) (frame : Frame) (c : Client) → IsExclusive c → IsExclusive (handle_raw now frame c).0
unfolding handle_raw
handle_raw-IsExclusive now (ack id success) c h =
    handle_subscribe_ack-IsExclusive id success (note_any_message now c) h
handle_raw-IsExclusive now pong c h = h
handle_raw-IsExclusive now (ticker symbol) c h = h
handle_raw-IsExclusive now other c h = h

fail_unacked-IsExclusive :
    (config : Settings) (now : ℕ) (c : Client)
    → IsExclusive c
    → IsExclusive (fail_unacked_subscriptions config now c).0
unfolding fail_unacked_subscriptions
fail_unacked-IsExclusive config now c h =
    down_unless IsExclusive false
      (is_empty (expired_pending_subscriptions config now c.pending_subscriptions)) c h h

ticker_stale-IsExclusive :
    (config : Settings) (now : ℕ) (c : Client)
    → IsExclusive c
    → IsExclusive (ticker_stale config now c).0
unfolding ticker_stale
ticker_stale-IsExclusive config now c h =
    down_unless IsExclusive (is_empty c.desired_symbols)
      (leb now (ticker_since c + config.ws_stale_seconds)) c h h

step-IsExclusive :
    (config : Settings) (e : Event) (c : Client) → IsExclusive c → IsExclusive (step config e c)
unfolding step on_open set_symbols symbols_of
step-IsExclusive config connecting c h s = h s
step-IsExclusive config closed c h s = h s
step-IsExclusive config (opened now) c h s = (omega arith, (h s).1)
step-IsExclusive config (wanted symbols) c h s = ((h s).0, union-once s [] symbols (omega arith))
step-IsExclusive config (synced sends clock) c h s =
    resubscribe-IsExclusive config sends clock c h s
step-IsExclusive config (dropped sends symbols) c h s =
    unsubscribe-IsExclusive config sends symbols c h s
step-IsExclusive config (received now frame) c h s = handle_raw-IsExclusive now frame c h s
step-IsExclusive config (checked now) c h s =
    ticker_stale-IsExclusive config now (fail_unacked_subscriptions config now c).0
      (fail_unacked-IsExclusive config now c h) s

run-IsExclusive : (config : Settings) (events : List Event) → IsExclusive (run config events)
unfolding run symbols_of
run-IsExclusive config [] s = (omega arith, omega arith)
run-IsExclusive config (e ∷ earlier) s =
    step-IsExclusive config e (run config earlier) (run-IsExclusive config earlier) s

-- Whatever happens to a new client, each symbol stands at most once among the confirmed symbols
-- and the pending requests together.
pub run-exclusive :
    (config : Settings) (events : List Event) (s : String) → uses s (run config events) ≤ 1
run-exclusive config events s = (run-IsExclusive config events s).0
