-- ===== src/Bybit/WebSocket/Confirmed.antt =====
-- A symbol is confirmed by the acknowledgement of a request for it, and in no other way.
use bybit_crypto_monitor_tel.Base.{
  elem-append, ℕ, suc, ◌+◌, ◌≡◌, refl, sym, ◌∙◌, ap, subst, Bool, true, false, ◌||◌, Option, none,
  some, String, List, [], ◌∷◌, ◌++◌, ◌==◌, String_eq, ℕ_eq, elem, length, if◌then◌else◌, arith,
  text_eq_iff, Bool-cases, inl, inr, leb,
}
use bybit_crypto_monitor_tel.Base.Dict.{get}
use bybit_crypto_monitor_tel.Config.{Settings}
use bybit_crypto_monitor_tel.Bybit.WebSocket.{
  Client, PendingSubscription, union, minus, send_subscribe, send_unsubscribe, resubscribe,
  unsubscribe, handle_subscribe_ack, ack, pong, ticker, other, handle_raw, note_any_message,
  add_pending, fail_unacked_subscriptions, ticker_stale, ticker_since, set_status, is_empty,
  expired_pending_subscriptions, set_symbols, on_open, Event, connecting, closed, opened, wanted,
  synced, dropped, received, checked, step,
}
use bybit_crypto_monitor_tel.Bybit.WebSocket.Calls.{
  resubscribe_cases, unsubscribe_cases, missing_batches, stale_batches, then_ack,
  handle_subscribe_ack-step,
}

pub elem-union :
    (s : String) (xs ys : List String) → elem s (union xs ys) ≡ (elem s xs || elem s ys)
unfolding union
elem-union s xs [] = ground arith
elem-union s xs (y ∷ ys) = elim (Bool-cases (elem y xs)) [
  | inl there ↦ rw there (
      elem-union s xs ys ∙ elim (Bool-cases (s == y)) [
        | inl same ↦
            let also : elem s xs ≡ true = ap (λ t. elem t xs) ((text_eq_iff s y).0 same) ∙ there in
            rw (also) (ground arith)
        | inr differs ↦ rw differs refl
      ])
  | inr absent ↦
      rw absent (elem-union s (xs ++ y ∷ []) ys ∙ ground (arith, elem-append s xs (y ∷ [])))
]

elem-minus : (s : String) (xs ys : List String) → elem s (minus xs ys) ≡ true → elem s xs ≡ true
elem-minus s [] ys h = h
elem-minus s (x ∷ xs) ys h = ground (arith, h, elem-minus s xs ys)

-- How a symbol can be confirmed after an event.
pub data Confirmed (s : String) (c : Client) : Event → Type 0 where
  before : {e : Event} → elem s c.subscribed ≡ true → Confirmed s c e
  acknowledged :
      (now id : ℕ) (p : PendingSubscription)
      → get id c.pending_subscriptions ≡ some p
      → elem s p.symbols ≡ true
      → Confirmed s c (received now (ack (some id) true))

module _ (s : String) where
  abbrev Shrinks : Client → Client → Type 0
  Shrinks c after = elem s after.subscribed ≡ true → elem s c.subscribed ≡ true

  send_subscribe-Shrinks :
      (sends : ℕ → Bool) (clock : ℕ → ℕ) (bs : List (List String)) (c : Client)
      → Shrinks c (send_subscribe sends clock bs c).0
  unfolding send_subscribe
  send_subscribe-Shrinks sends clock [] c = λ h. h
  send_subscribe-Shrinks sends clock (batch ∷ rest) c =
      let id = suc c.sequence in
      elim (Bool-cases (sends id)) [
        | inl taken ↦
            rw taken (send_subscribe-Shrinks sends clock rest (add_pending (clock id) batch c))
        | inr raised ↦ rw raised (λ h. h)
      ]

  send_unsubscribe-Shrinks :
      (sends : ℕ → Bool) (bs : List (List String)) (c : Client)
      → Shrinks c (send_unsubscribe sends bs c).0
  unfolding send_unsubscribe
  send_unsubscribe-Shrinks sends [] c = λ h. h
  send_unsubscribe-Shrinks sends (batch ∷ rest) c = elim (Bool-cases (sends (length rest))) [
    | inl taken ↦ rw taken (λ h. elem-minus s c.subscribed batch (
        send_unsubscribe-Shrinks sends rest (record c { subscribed = minus c.subscribed batch }) h))
    | inr raised ↦ rw raised (λ h. h)
  ]

  resubscribe-Shrinks :
      (config : Settings) (sends : ℕ → Bool) (clock : ℕ → ℕ) (c : Client)
      → Shrinks c (resubscribe config sends clock c).0
  resubscribe-Shrinks config sends clock c =
      resubscribe_cases (Shrinks c) config sends clock c (λ h. h)
        (send_subscribe-Shrinks sends clock (missing_batches config c) c)

  unsubscribe-Shrinks :
      (config : Settings) (sends : ℕ → Bool) (symbols : List String) (c : Client)
      → Shrinks c (unsubscribe config sends symbols c).0
  unsubscribe-Shrinks config sends symbols c =
      unsubscribe_cases (Shrinks c) config sends symbols c (λ h. h)
        (send_unsubscribe-Shrinks sends (stale_batches config symbols c) c)

  down_unless-Shrinks :
      (a b : Bool) (c : Client)
      → let r : Client × Bool =
          if a then (c, false) else if b then (c, false) else (set_status false c, true) in
        Shrinks c r.0
  down_unless-Shrinks true b c h = h
  down_unless-Shrinks false true c h = h
  down_unless-Shrinks false false c h = h

  checks-Shrinks :
      (config : Settings) (now : ℕ) (c : Client) → Shrinks c (step config (checked now) c)
  unfolding step fail_unacked_subscriptions ticker_stale
  checks-Shrinks config now c h =
      let first = (fail_unacked_subscriptions config now c).0 in
      down_unless-Shrinks false
        (is_empty (expired_pending_subscriptions config now c.pending_subscriptions)) c
        (down_unless-Shrinks (is_empty first.desired_symbols)
          (leb now (ticker_since first + config.ws_stale_seconds)) first h)

  ack-Confirmed :
      (now id : ℕ) (success : Bool) (c : Client) (o : Option PendingSubscription)
      → get id c.pending_subscriptions ≡ o
      → elem s (then_ack id success (note_any_message now c) o).0.subscribed ≡ true
      → Confirmed s c (received now (ack (some id) success))
  ack-Confirmed now id success c none e h = before h
  ack-Confirmed now id false c (some p) e h = before h
  ack-Confirmed now id true c (some p) e h = elim (Bool-cases (elem s p.symbols)) [
    | inl there ↦ acknowledged now id p e there
    | inr absent ↦ before (ground (arith, sym (elem-union s c.subscribed p.symbols) ∙ h, absent))
  ]

  -- After any event, a symbol is confirmed only if it was confirmed before, or the event is the
  -- successful acknowledgement, with its id, of a pending request for that symbol.
  pub step-Confirmed :
      (config : Settings) (e : Event) (c : Client)
      → elem s (step config e c).subscribed ≡ true
      → Confirmed s c e
  unfolding step on_open set_symbols handle_raw handle_subscribe_ack
  step-Confirmed config connecting c h = before h
  step-Confirmed config closed c h = before h
  step-Confirmed config (opened now) c h = cc
  step-Confirmed config (wanted symbols) c h = before h
  step-Confirmed config (synced sends clock) c h =
      before (resubscribe-Shrinks config sends clock c h)
  step-Confirmed config (dropped sends symbols) c h =
      before (unsubscribe-Shrinks config sends symbols c h)
  step-Confirmed config (received now (ack none success)) c h = before h
  step-Confirmed config (received now (ack (some id) success)) c h =
      ack-Confirmed now id success c (get id c.pending_subscriptions) refl (
        subst (λ r. elem s r.0.subscribed ≡ true)
          (handle_subscribe_ack-step id success (note_any_message now c)
            (get id c.pending_subscriptions) refl)
          h)
  step-Confirmed config (received now pong) c h = before h
  step-Confirmed config (received now (ticker symbol)) c h = before h
  step-Confirmed config (received now other) c h = before h
  step-Confirmed config (checked now) c h = before (checks-Shrinks config now c h)
