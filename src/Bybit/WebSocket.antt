-- ===== src/Bybit/WebSocket.antt =====
-- app/bybit/websocket.py: the client of one stream, without the socket itself. A set is a list
-- without repetition. `sub-{category}-{n}`, the id of a request, stands as its number `n`; the clock
-- is monotonic, in milliseconds.
pub mod Confirmed
pub mod Times
pub mod Calls
pub mod Exclusive
pub mod Covered
pub mod Fresh
pub mod Dropped
use bybit_crypto_monitor_tel.Base.{
  ℕ, zero, suc, ◌+◌, ◌*◌, ◌^◌, min, max, Bool, true, false, ◌&&◌, ◌||◌, not, Option, none, some,
  String, List, [], ◌∷◌, ◌++◌, ◌==◌, String_eq, ℕ_eq, elem, keep, take, drop, length, leb, ltb,
  nat_eq, is_some, if◌then◌else◌,
}
use bybit_crypto_monitor_tel.Base.Dict.{Dict, get, set, delete}
use bybit_crypto_monitor_tel.Base.Sort.{sorted}
use bybit_crypto_monitor_tel.Base.TextOrder.{text_leb}
use bybit_crypto_monitor_tel.Config.{Settings}

pub record PendingSubscription : Type 0 where
  pub symbols : List String
  pub sent_at : ℕ

pub record Client : Type 0 where
  pub desired_symbols : List String
  pub subscribed : List String
  pub pending_subscriptions : Dict ℕ PendingSubscription
  pub sequence : ℕ
  pub connect_attempts : ℕ
  pub last_any_message_at : Option ℕ
  pub last_ticker_at : Option ℕ
  pub connected_at : ℕ
  pub last_ping_at : ℕ
  pub connected : Bool
  pub has_socket : Bool

abbrev pub new_client : Client
new_client = record {
  desired_symbols = [];
  subscribed = [];
  pending_subscriptions = [];
  sequence = 0;
  connect_attempts = 0;
  last_any_message_at = none;
  last_ticker_at = none;
  connected_at = 0;
  last_ping_at = 0;
  connected = false;
  has_socket = false;
}

-- `set.update`
unfoldable pub union : List String → List String → List String
union xs [] = xs
union xs (y ∷ ys) = if elem y xs then union xs ys else union (xs ++ y ∷ []) ys

-- `xs - ys`
abbrev pub minus : List String → List String → List String
minus xs ys = keep (λ x. not (elem x ys)) xs

-- `xs & ys`
abbrev pub common : List String → List String → List String
common xs ys = keep (λ x. elem x ys) xs

unfoldable pub symbols_of : Dict ℕ PendingSubscription → List String
symbols_of [] = []
symbols_of ((id, p) ∷ rest) = p.symbols ++ symbols_of rest

abbrev pub pending_symbols : Client → List String
pending_symbols c = symbols_of c.pending_subscriptions

unfoldable pub set_symbols : List String → Client → Client
set_symbols symbols c = record c { desired_symbols = union [] symbols }

-- `2 ** min(max(attempts, 1), 6)` seconds, at most a minute.
unfoldable pub backoff_delay : Client → ℕ
backoff_delay c = min 60 (2 ^ min (max c.connect_attempts 1) 6)

abbrev pub set_status : Bool → Client → Client
set_status connected c = record c { connected = connected }

abbrev pub start_connecting : Client → Client
start_connecting c = record c { connect_attempts = c.connect_attempts + 1; connected = false }

-- A connection is there: what was confirmed and pending is cleared, and the desired set is kept.
unfoldable pub on_open : ℕ → Client → Client
on_open now c = record c {
  connect_attempts = 0;
  has_socket = true;
  subscribed = [];
  pending_subscriptions = [];
  last_any_message_at = some now;
  last_ticker_at = none;
  connected_at = now;
  last_ping_at = now;
  connected = true;
}

-- The cleanup on every way out of a connection.
abbrev pub on_close : Client → Client
on_close c = record c { has_socket = false; connected = false }

-- `now - sent_at > timeout`
abbrev pub is_expired : Settings → ℕ → PendingSubscription → Bool
is_expired config now p = ltb (p.sent_at + config.ws_subscription_ack_timeout_seconds) now

unfoldable pub expired_pending_subscriptions :
    Settings → ℕ → Dict ℕ PendingSubscription → Dict ℕ PendingSubscription
expired_pending_subscriptions config now [] = []
expired_pending_subscriptions config now ((id, p) ∷ rest) =
    let others = expired_pending_subscriptions config now rest in
    if is_expired config now p then (id, p) ∷ others else others

abbrev pub is_empty {ℓ} : {A : Type ℓ} → List A → Bool
is_empty [] = true
is_empty (x ∷ xs) = false

-- True when the connection must be torn down.
unfoldable pub fail_unacked_subscriptions : Settings → ℕ → Client → Client × Bool
fail_unacked_subscriptions config now c =
    if is_empty (expired_pending_subscriptions config now c.pending_subscriptions)
    then (c, false)
    else (set_status false c, true)

-- The last ticker, or the connection if there was none yet.
abbrev pub ticker_since : Client → ℕ
ticker_since c = elim c.last_ticker_at [ some at ↦ at | none ↦ c.connected_at ]

-- The age is compared as `now <= since + limit`.
unfoldable pub ticker_stale : Settings → ℕ → Client → Client × Bool
ticker_stale config now c =
    if is_empty c.desired_symbols
    then (c, false)
    else if leb now (ticker_since c + config.ws_stale_seconds)
    then (c, false)
    else (set_status false c, true)

-- The steps of `range(0, n, size)`, with as much fuel as there are symbols.
unfoldable pub batches : ℕ → ℕ → List String → List (List String)
batches zero size xs = []
batches (suc fuel) size [] = []
batches (suc fuel) size (x ∷ xs) = take size (x ∷ xs) ∷ batches fuel size (drop size (x ∷ xs))

abbrev pub add_pending : ℕ → List String → Client → Client
add_pending now batch c =
    let id = suc c.sequence in
    record c {
      sequence = id;
      pending_subscriptions =
          set id (record { symbols = batch; sent_at = now }) c.pending_subscriptions;
    }

abbrev pub roll_back : ℕ → Client → Client
roll_back id c = record c { pending_subscriptions = delete id c.pending_subscriptions }

-- The `subscribe` branch of `_send_topic_ops`: `sends id` tells whether the socket takes the request,
-- and `clock id` when it was made. True when a send raised.
unfoldable pub send_subscribe : (ℕ → Bool) → (ℕ → ℕ) → List (List String) → Client → Client × Bool
send_subscribe sends clock [] c = (c, false)
send_subscribe sends clock (batch ∷ rest) c =
    let id = suc c.sequence in
    let added = add_pending (clock id) batch c in
    let later = send_subscribe sends clock rest added in
    if sends id then later else (roll_back id added, true)

-- The `unsubscribe` branch; `sends n` is for the batch with `n` batches after it.
unfoldable pub send_unsubscribe : (ℕ → Bool) → List (List String) → Client → Client × Bool
send_unsubscribe sends [] c = (c, false)
send_unsubscribe sends (batch ∷ rest) c =
    let later = send_unsubscribe sends rest (record c { subscribed = minus c.subscribed batch }) in
    if sends (length rest) then later else (c, true)

abbrev pub missing_symbols : Client → List String
missing_symbols c =
    sorted text_leb (minus (minus c.desired_symbols c.subscribed) (pending_symbols c))

-- A `range` with step 0 raises ValueError, unless there is nothing to send.
abbrev pub in_batches :
    Settings → List String → (List (List String) → Client × Bool) → Client → Client × Bool
in_batches config symbols send c =
    if nat_eq config.ws_subscribe_batch_size 0 && not (is_empty symbols)
    then (c, true)
    else send (batches (length symbols) config.ws_subscribe_batch_size symbols)

unfoldable pub resubscribe : Settings → (ℕ → Bool) → (ℕ → ℕ) → Client → Client × Bool
resubscribe config sends clock c =
    if not c.has_socket
    then (c, false)
    else in_batches config (missing_symbols c) (λ bs. send_subscribe sends clock bs c) c

unfoldable pub unsubscribe : Settings → (ℕ → Bool) → List String → Client → Client × Bool
unsubscribe config sends symbols c =
    if not c.has_socket
    then (c, false)
    else in_batches config (sorted text_leb (common (union [] symbols) c.subscribed))
        (λ bs. send_unsubscribe sends bs c) c

-- `_handle_subscribe_ack`: `none` is a missing id or one of another form. True when it raises
-- SubscriptionAckError.
unfoldable pub handle_subscribe_ack : Option ℕ → Bool → Client → Client × Bool
handle_subscribe_ack none success c = (c, false)
handle_subscribe_ack (some id) success c = elim (get id c.pending_subscriptions) [
  | none ↦ (c, false)
  | some p ↦
      let rest = record c { pending_subscriptions = delete id c.pending_subscriptions } in
      if success
      then (record rest { subscribed = union c.subscribed p.symbols }, false)
      else (rest, true)
]

-- A frame that `json.loads` accepts, as far as `_handle_raw` reads it.
pub data Frame : Type 0 where
  ack : (req_id : Option ℕ) (success : Bool) → Frame
  pong : Frame
  ticker : (symbol : String) → Frame
  other : Frame

abbrev pub note_any_message : ℕ → Client → Client
note_any_message now c = record c { last_any_message_at = some now }

-- A ticker frame is passed on to `on_message` as well.
unfoldable pub handle_raw : ℕ → Frame → Client → Client × Bool
handle_raw now (ack req_id success) c = handle_subscribe_ack req_id success (note_any_message now c)
handle_raw now pong c = (note_any_message now c, false)
handle_raw now (ticker symbol) c =
    (record (note_any_message now c) { last_ticker_at = some now }, false)
handle_raw now other c = (note_any_message now c, false)

-- What can happen to a client, one thing after another.
pub data Event : Type 0 where
  connecting closed : Event
  opened : (now : ℕ) → Event
  wanted : (symbols : List String) → Event
  synced : (sends : ℕ → Bool) (clock : ℕ → ℕ) → Event
  dropped : (sends : ℕ → Bool) (symbols : List String) → Event
  received : (now : ℕ) (frame : Frame) → Event
  checked : (now : ℕ) → Event

unfoldable pub step : Settings → Event → Client → Client
step config connecting c = start_connecting c
step config closed c = on_close c
step config (opened now) c = on_open now c
step config (wanted symbols) c = set_symbols symbols c
step config (synced sends clock) c = (resubscribe config sends clock c).0
step config (dropped sends symbols) c = (unsubscribe config sends symbols c).0
step config (received now frame) c = (handle_raw now frame c).0
step config (checked now) c =
    (ticker_stale config now (fail_unacked_subscriptions config now c).0).0

-- The latest event first.
unfoldable pub run : Settings → List Event → Client
run config [] = new_client
run config (e ∷ earlier) = step config e (run config earlier)
