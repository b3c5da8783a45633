-- ===== src/Bybit/Manager/Exact.antt =====
-- What a synchronization of app/bybit/websocket.py leaves of the subscriptions of a client.
use bybit_crypto_monitor_tel.Base.{
  ◌&&◌, ◌||◌, ℕ, ◌≤◌, ◌≡◌, refl, ap, ◌∙◌, Bool, true, false, not, String, List, [], ◌∷◌, ◌==◌,
  String_eq, elem, any, arith, elem-keep,
}
use bybit_crypto_monitor_tel.Base.Dict.{values}
use bybit_crypto_monitor_tel.Config.{Settings}
use bybit_crypto_monitor_tel.Bybit.Models.{Instrument}
use bybit_crypto_monitor_tel.Persistence.Instruments.{Table, load_all}
use bybit_crypto_monitor_tel.Bybit.WebSocket.{
  Client, minus, set_symbols, pending_symbols, resubscribe, Event, wanted, step, run,
}
use bybit_crypto_monitor_tel.Bybit.WebSocket.Confirmed.{elem-union}
use bybit_crypto_monitor_tel.Bybit.WebSocket.Exclusive.{uses}
use bybit_crypto_monitor_tel.Bybit.WebSocket.Times.{elem-times}
use bybit_crypto_monitor_tel.Bybit.WebSocket.Covered.{resubscribe-covers}
use bybit_crypto_monitor_tel.Bybit.WebSocket.Fresh.{run-IsFresh}
use bybit_crypto_monitor_tel.Bybit.WebSocket.Dropped.{unsubscribe-Drops, resubscribe-Keeps}
use bybit_crypto_monitor_tel.Bybit.Manager.{wants, wanted_symbols, desired, Wire, sync_client}

-- A registered instrument with this symbol is wanted on the stream.
abbrev pub is_wanted : Settings → String → Table → String → Bool
is_wanted config category table s =
    any (λ i. wants config category i && s == i.symbol) (values (load_all table))

elem-wanted_symbols :
    (config : Settings) (category s : String) (is : List Instrument)
    → elem s (wanted_symbols config category is)
      ≡ any (λ i. wants config category i && s == i.symbol) is
unfolding wanted_symbols
elem-wanted_symbols config category s [] = refl
elem-wanted_symbols config category s (i ∷ rest) =
    ground (arith, elem-wanted_symbols config category s rest)

elem-desired :
    (config : Settings) (category s : String) (table : Table)
    → elem s (desired config category table) ≡ is_wanted config category table s
elem-desired config category s table =
    elem-union s [] (wanted_symbols config category (values (load_all table)))
    ∙ elem-wanted_symbols config category s (values (load_all table))

-- The last steps of the argument, on the truth values alone.
confirmed_left :
    (after_s synced_s c_s stale_s symbols_s wanted_s : Bool)
    → after_s ≡ (synced_s && not stale_s)
    → synced_s ≡ c_s
    → stale_s ≡ (c_s && not symbols_s)
    → symbols_s ≡ wanted_s
    → after_s ≡ (c_s && wanted_s)
confirmed_left after_s synced_s c_s stale_s symbols_s wanted_s h k l m = ground arith

uses-elem :
    (s : String) (c : Client)
    → 1 ≤ uses s c
    → (elem s c.subscribed || elem s (pending_symbols c)) ≡ true
uses-elem s c h = ground (arith, elem-times s c.subscribed, elem-times s (pending_symbols c))

still_there :
    (after_s c_s synced_s waits_s waits' wanted_s : Bool)
    → after_s ≡ (c_s && wanted_s)
    → synced_s ≡ c_s
    → waits' ≡ waits_s
    → wanted_s ≡ true
    → (synced_s || waits_s) ≡ true
    → (after_s || waits') ≡ true
still_there after_s c_s synced_s waits_s waits' wanted_s h k l m n = ground arith

-- Desired are exactly the symbols that are wanted, confirmed exactly those of them that were
-- confirmed, and each of them is confirmed or requested.
abbrev pub Synced : Settings → String → Table → Client → Client → Type 0
Synced config category table before after =
    (s : String)
    → (elem s after.desired_symbols ≡ is_wanted config category table s)
      × (elem s after.subscribed ≡ (elem s before.subscribed && is_wanted config category table s))
      × (is_wanted config category table s ≡ true
          → (elem s after.subscribed || elem s (pending_symbols after)) ≡ true)

-- In any client that the program can have, whose socket is there and takes every request, a
-- synchronization raises nothing and leaves desired exactly the symbols that are wanted, confirmed
-- exactly those of them that were confirmed, and each of them confirmed or requested.
pub sync_client-exact :
    (config : Settings) (events : List Event) (wire : Wire) (category : String) (table : Table)
    → 1 ≤ config.ws_subscribe_batch_size
    → (run config events).has_socket ≡ true
    → ((n : ℕ) → wire.sends n ≡ true)
    → ((n : ℕ) → wire.drops n ≡ true)
    → let c = run config events in
      let (after, wrong) = sync_client config wire category table c in
      (wrong ≡ false) × Synced config category table c after
unfolding sync_client set_symbols run step
sync_client-exact config events wire category table size socket sends drops =
    let c = run config events in
    let symbols = desired config category table in
    let ready = set_symbols symbols c in
    let fresh = run-IsFresh config (wanted symbols ∷ events) in
    let synced = (resubscribe config wire.sends wire.clock ready).0 in
    let (calm, same, covered) =
      resubscribe-covers config wire.sends wire.clock ready socket size sends fresh in
    let (socket_kept, desired_kept) = resubscribe-Keeps config wire.sends wire.clock ready in
    let (calm', wanted_kept, waits, left) =
      unsubscribe-Drops config wire.drops (minus c.subscribed symbols) synced (socket_kept ∙ socket)
        size drops in
    rw calm (
      calm',
      λ s.
          let known = elem-desired config category s table in
          let confirmed =
            confirmed_left _ (elem s synced.subscribed) (elem s c.subscribed)
              (elem s (minus c.subscribed symbols)) (elem s symbols)
              (is_wanted config category table s) (left s) (ap (elem s) same)
              (elem-keep (λ x. not (elem x symbols)) s c.subscribed) known in
          (
            ap (elem s) (wanted_kept ∙ desired_kept) ∙ elem-union s [] symbols ∙ known,
            confirmed,
            λ on.
                still_there _ (elem s c.subscribed) (elem s synced.subscribed)
                  (elem s (pending_symbols synced)) _ (is_wanted config category table s) confirmed
                  (ap (elem s) same) (ap (elem s) waits) on
                  (uses-elem s synced (covered s (elem-union s [] symbols ∙ known ∙ on))),
          ),
    )
