-- ===== src/Bybit/Manager.antt =====
-- app/bybit/websocket.py: WebSocketManager.sync_subscriptions, for one of its two clients at a time.
-- The calls follow one another: what the loop of the client may do between two of them is left out.
pub mod Exact
use bybit_crypto_monitor_tel.Base.{
  ℕ, ◌+◌, Bool, true, false, ◌&&◌, not, Option, none, some, String, List, [], ◌∷◌, ◌==◌, String_eq,
  some_eq, length, if◌then◌else◌,
}
use bybit_crypto_monitor_tel.Base.Dict.{values}
use bybit_crypto_monitor_tel.Config.{Settings}
use bybit_crypto_monitor_tel.Bybit.Models.{Instrument}
use bybit_crypto_monitor_tel.Persistence.Instruments.{Table, load_all}
use bybit_crypto_monitor_tel.Bybit.WebSocket.{
  Client, union, minus, set_symbols, resubscribe, unsubscribe,
}

-- Whether a stream wants an instrument, by the flags for its kind.
abbrev pub settle_enabled : Settings → Option String → Bool
settle_enabled config settle_coin =
    if some_eq settle_coin "USDT"
    then config.enable_linear_usdt
    else if some_eq settle_coin "USDC"
    then config.enable_linear_usdc
    else false

unfoldable pub wants : Settings → String → Instrument → Bool
wants config category i =
    if not (i.category == category)
    then false
    else if not (i.status == "Trading")
    then false
    else if category == "spot"
    then config.enable_spot
    else settle_enabled config i.settle_coin

unfoldable pub wanted_symbols : Settings → String → List Instrument → List String
wanted_symbols config category [] = []
wanted_symbols config category (i ∷ rest) =
    let others = wanted_symbols config category rest in
    if wants config category i then i.symbol ∷ others else others

-- The set of the symbols that are wanted.
abbrev pub desired : Settings → String → Table → List String
desired config category table = union [] (wanted_symbols config category (values (load_all table)))

-- What the sockets do with the requests of one client.
pub record Wire : Type 0 where
  pub sends : ℕ → Bool
  pub clock : ℕ → ℕ
  pub drops : ℕ → Bool

-- The symbols that were confirmed and are wanted no more are unsubscribed, unless an exception ended
-- the call before.
abbrev pub then_drop : Settings → Wire → List String → Client × Bool → Client × Bool
then_drop config wire stale (c, true) = (c, true)
then_drop config wire stale (c, false) = unsubscribe config wire.drops stale c

unfoldable pub sync_client : Settings → Wire → String → Table → Client → Client × Bool
sync_client config wire category table c =
    let symbols = desired config category table in
    then_drop config wire (minus c.subscribed symbols)
      (resubscribe config wire.sends wire.clock (set_symbols symbols c))

pub record Clients : Type 0 where
  pub spot : Client
  pub linear : Client

-- Spot first, then linear; the number of the symbols that are wanted, none if an exception is raised.
abbrev pub after_linear : ℕ → Client → Client × Bool → Clients × Option ℕ
after_linear total spot (linear, true) = (record { spot = spot; linear = linear }, none)
after_linear total spot (linear, false) = (record { spot = spot; linear = linear }, some total)

abbrev pub after_spot : Settings → Wire → Table → ℕ → Client → Client × Bool → Clients × Option ℕ
after_spot config wire table total linear (spot, true) =
    (record { spot = spot; linear = linear }, none)
after_spot config wire table total linear (spot, false) =
    after_linear total spot (sync_client config wire "linear" table linear)

unfoldable pub sync_subscriptions : Settings → Wire → Wire → Table → Clients → Clients × Option ℕ
sync_subscriptions config spot_wire linear_wire table clients =
    let total = length (desired config "spot" table) + length (desired config "linear" table) in
    after_spot config linear_wire table total clients.linear
      (sync_client config spot_wire "spot" table clients.spot)
