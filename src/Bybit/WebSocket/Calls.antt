-- ===== src/Bybit/WebSocket/Calls.antt =====
-- What the calls of app/bybit/websocket.py come to, case by case.
use bybit_crypto_monitor_tel.Base.{
  ◌&&◌, ℕ, ◌≡◌, ap, Bool, true, false, not, Option, none, some, String, List, [], String_eq, ℕ_eq,
  length, if◌then◌else◌, nat_eq,
}
use bybit_crypto_monitor_tel.Base.Dict.{get, delete}
use bybit_crypto_monitor_tel.Base.Sort.{sorted}
use bybit_crypto_monitor_tel.Base.TextOrder.{text_leb}
use bybit_crypto_monitor_tel.Config.{Settings}
use bybit_crypto_monitor_tel.Bybit.WebSocket.{
  Client, PendingSubscription, union, common, batches, send_subscribe, send_unsubscribe,
  missing_symbols, resubscribe, unsubscribe, handle_subscribe_ack, set_status, is_empty,
}

-- A call that may end before its loop.
pub guarded :
    (P : Client → Type 0) (c : Client) (early wrong : Bool) (r : Client × Bool)
    → P c
    → P r.0
    → P (if early then (c, false) else if wrong then (c, true) else r).0
guarded P c true wrong r h k = h
guarded P c false true r h k = h
guarded P c false false r h k = k

-- What the two calls send.
abbrev pub missing_batches : Settings → Client → List (List String)
missing_batches config c =
    batches (length (missing_symbols c)) config.ws_subscribe_batch_size (missing_symbols c)

abbrev pub stale_symbols : List String → Client → List String
stale_symbols symbols c = sorted text_leb (common (union [] symbols) c.subscribed)

abbrev pub stale_batches : Settings → List String → Client → List (List String)
stale_batches config symbols c =
    let stale = stale_symbols symbols c in
    batches (length stale) config.ws_subscribe_batch_size stale

-- The calls end before their loops, or run them.
pub resubscribe_cases :
    (P : Client → Type 0) (config : Settings) (sends : ℕ → Bool) (clock : ℕ → ℕ) (c : Client)
    → P c
    → P (send_subscribe sends clock (missing_batches config c) c).0
    → P (resubscribe config sends clock c).0
unfolding resubscribe
resubscribe_cases P config sends clock c h k =
    guarded P c (not c.has_socket)
      (nat_eq config.ws_subscribe_batch_size 0 && not (is_empty (missing_symbols c)))
      (send_subscribe sends clock (missing_batches config c) c) h k

pub unsubscribe_cases :
    (P : Client → Type 0) (config : Settings) (sends : ℕ → Bool) (symbols : List String)
    (c : Client)
    → P c
    → P (send_unsubscribe sends (stale_batches config symbols c) c).0
    → P (unsubscribe config sends symbols c).0
unfolding unsubscribe
unsubscribe_cases P config sends symbols c h k =
    guarded P c (not c.has_socket)
      (nat_eq config.ws_subscribe_batch_size 0 && not (is_empty (stale_symbols symbols c)))
      (send_unsubscribe sends (stale_batches config symbols c) c) h k

abbrev pub then_ack : ℕ → Bool → Client → Option PendingSubscription → Client × Bool
then_ack id success c o = elim o [
  | none ↦ (c, false)
  | some p ↦
      let rest : Client = record c { pending_subscriptions = delete id c.pending_subscriptions } in
      if success
      then (record rest { subscribed = union c.subscribed p.symbols }, false)
      else (rest, true)
]

pub handle_subscribe_ack-step :
    (id : ℕ) (success : Bool) (c : Client) (o : Option PendingSubscription)
    → get id c.pending_subscriptions ≡ o
    → handle_subscribe_ack (some id) success c ≡ then_ack id success c o
unfolding handle_subscribe_ack
handle_subscribe_ack-step id success c o h = ap (then_ack id success c) h

-- A watchdog, which may set the status and changes nothing else.
pub down_unless :
    (P : Client → Type 0) (a b : Bool) (c : Client)
    → P c
    → P (set_status false c)
    → let r : Client × Bool =
        if a then (c, false) else if b then (c, false) else (set_status false c, true) in
      P r.0
down_unless P true b c h k = h
down_unless P false true c h k = h
down_unless P false false c h k = k
