-- ===== src/Main/Rounds/Synced.antt =====
-- The streams of app/main.py after a round of discovery.
use bybit_crypto_monitor_tel.Base.{
  ℕ, ◌+◌, ◌≤◌, ◌≡◌, refl, ap, ◌∙◌, Bool, true, false, some, List, length,
}
use bybit_crypto_monitor_tel.Base.Result.{Result, ok, err}
use bybit_crypto_monitor_tel.Config.{Settings}
use bybit_crypto_monitor_tel.Bybit.Models.{Instrument}
use bybit_crypto_monitor_tel.Bybit.WebSocket.{Client, Event, run}
use bybit_crypto_monitor_tel.Bybit.Manager.{
  Wire, Clients, desired, sync_client, after_linear, after_spot, sync_subscriptions,
}
use bybit_crypto_monitor_tel.Bybit.Manager.Exact.{Synced, sync_client-exact}
use bybit_crypto_monitor_tel.Persistence.Tables.{Db, ListingEvent}
use bybit_crypto_monitor_tel.Persistence.Instruments.{Table}
use bybit_crypto_monitor_tel.Market.Discovery.{
  Discovery, DiscoveryResult, Fetches, fetch, reconcile, discover_once,
}
use bybit_crypto_monitor_tel.Market.Listing.{Notifier, handle_registry}
use bybit_crypto_monitor_tel.Main.Rounds.{finished, Outside, discovery_round}

-- A stream whose socket is there and takes every request.
pub record IsOpen (config : Settings) (events : List Event) (wire : Wire) : Type 0 where
  pub socket : (run config events).has_socket ≡ true
  pub sends : (n : ℕ) → wire.sends n ≡ true
  pub drops : (n : ℕ) → wire.drops n ≡ true

after_linear-calm :
    (total : ℕ) (spot : Client) (p : Client × Bool)
    → p.1 ≡ false
    → after_linear total spot p ≡ (record { spot = spot; linear = p.0 }, some total)
after_linear-calm total spot (linear, true) h = cc
after_linear-calm total spot (linear, false) h = refl

after_spot-calm :
    (config : Settings) (wire : Wire) (table : Table) (total : ℕ) (linear : Client)
    (p : Client × Bool)
    → p.1 ≡ false
    → after_spot config wire table total linear p
      ≡ after_linear total p.0 (sync_client config wire "linear" table linear)
after_spot-calm config wire table total linear (spot, true) h = cc
after_spot-calm config wire table total linear (spot, false) h = refl

-- How many symbols are wanted on both streams.
abbrev pub wanted_count : Settings → Table → ℕ
wanted_count config table =
    length (desired config "spot" table) + length (desired config "linear" table)

abbrev pub BothSynced : Settings → Table → Clients → Clients → Type 0
BothSynced config table before after =
    Synced config "spot" table before.spot after.spot
    × Synced config "linear" table before.linear after.linear

module _ (config : Settings) (spot_events linear_events : List Event) (spot_wire linear_wire : Wire)
    (size : 1 ≤ config.ws_subscribe_batch_size) (spot_open : IsOpen config spot_events spot_wire)
    (linear_open : IsOpen config linear_events linear_wire) where
  abbrev before : Clients
  before = record { spot = run config spot_events; linear = run config linear_events }

  sync_subscriptions-synced :
      (table : Table)
      → (after : Clients) × (sync_subscriptions config spot_wire linear_wire table before
          ≡ (after, some (wanted_count config table)))
        × BothSynced config table before after
  unfolding sync_subscriptions
  sync_subscriptions-synced table =
      let (calm, spot) =
        sync_client-exact config spot_events spot_wire "spot" table size spot_open.socket
          spot_open.sends spot_open.drops in
      let (calm', linear) =
        sync_client-exact config linear_events linear_wire "linear" table size linear_open.socket
          linear_open.sends linear_open.drops in
      let s = sync_client config spot_wire "spot" table (run config spot_events) in
      let l = sync_client config linear_wire "linear" table (run config linear_events) in
      (
        record { spot = s.0; linear = l.0 },
        after_spot-calm config linear_wire table (wanted_count config table)
              (run config linear_events) s calm
            ∙ after_linear-calm (wanted_count config table) s.0 l calm',
        (spot, linear),
      )

discover_once-ok :
    (config : Settings) (api : Fetches) (now : ℕ) (d : Discovery) (fetched : List Instrument)
    → fetch config api ≡ ok fetched
    → let (table, result) = reconcile fetched now d.table in
      discover_once config api now d
      ≡ (record { table = table; last_result = some result; last_success_at = some now }, ok result)
unfolding discover_once
discover_once-ok config api now d fetched h = ap round h
  where
    round : Result (List Instrument) → Discovery × Result DiscoveryResult
    round r = elim r [
      | err e ↦ (d, err e)
      | ok fetched ↦
          let (table, result) = reconcile fetched now d.table in
          (
            record { table = table; last_result = some result; last_success_at = some now },
            ok result,
          )
    ]

-- If both sockets are there and take every request, and neither the fetches nor the recording of
-- the events raise, then a round of discovery raises nothing, and the streams follow the registry
-- as it was reconciled in this round: on each, desired are exactly the symbols of the tradable
-- instruments that the settings want, confirmed exactly those of them that were confirmed, and
-- each of them is confirmed or requested.
pub discovery_round-synced :
    (config : Settings) (spot_events linear_events : List Event) (notifier : Notifier) (o : Outside)
    (d : Discovery) (db after_db : Db) (fetched : List Instrument) (created : List ListingEvent)
    → 1 ≤ config.ws_subscribe_batch_size
    → IsOpen config spot_events o.spot_wire
    → IsOpen config linear_events o.linear_wire
    → fetch config o.fetches ≡ ok fetched
    → handle_registry config notifier o.recorded_at (reconcile fetched o.now d.table).1 db
      ≡ (after_db, ok created)
    → let table = (reconcile fetched o.now d.table).0 in
      let clients : Clients = record {
        spot = run config spot_events;
        linear = run config linear_events;
      } in
      let (after, end) =
        discovery_round config notifier o (record { discovery = d; db = db; clients = clients }) in
      (end ≡ finished (wanted_count config table))
      × (after.discovery.table ≡ table)
      × (after.db ≡ after_db)
      × BothSynced config table clients after.clients
unfolding discovery_round
discovery_round-synced config spot_events linear_events notifier o d db after_db fetched created
      size spot_open linear_open got recorded =
    let (clients, same, both) =
      sync_subscriptions-synced config spot_events linear_events o.spot_wire o.linear_wire size
        spot_open linear_open (reconcile fetched o.now d.table).0 in
    let found = discover_once-ok config o.fetches o.now d fetched got in
    rw (found, recorded, same) (refl, refl, refl, both)
