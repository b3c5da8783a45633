-- ===== src/Main/Rounds.antt =====
-- app/main.py: a round of discovery with the callback `_on_discovery_events`, and a turn of
-- `_announcement_loop`. The loops log an exception and go on with the next round.
pub mod Synced
use bybit_crypto_monitor_tel.Base.{ℕ, Option, none, some, List}
use bybit_crypto_monitor_tel.Base.Result.{Error, Result, ok, err}
use bybit_crypto_monitor_tel.Config.{Settings}
use bybit_crypto_monitor_tel.Bybit.Models.{Announcement}
use bybit_crypto_monitor_tel.Bybit.Rest.Request.{Fetched, raised, returned}
use bybit_crypto_monitor_tel.Bybit.Manager.{Wire, Clients, sync_subscriptions}
use bybit_crypto_monitor_tel.Persistence.Tables.{Db, ListingEvent}
use bybit_crypto_monitor_tel.Market.Discovery.{Fetches, Discovery, DiscoveryResult, discover_once}
use bybit_crypto_monitor_tel.Market.Listing.{
  Notifier, Patterns, handle_registry, handle_announcements,
}

-- What a round writes: the registry with the last result, the database, and the two streams.
pub record Universe : Type 0 where
  pub discovery : Discovery
  pub db : Db
  pub clients : Clients

-- How a round ends: in a call that raised, or with the number of the symbols that are wanted.
pub data Ended : Type 0 where
  not_fetched not_recorded : Error → Ended
  not_synced : Ended
  finished : ℕ → Ended

-- What happens outside while a round runs: the answers, the sockets, and the clock that is read
-- again for the events.
pub record Outside : Type 0 where
  pub fetches : Fetches
  pub spot_wire : Wire
  pub linear_wire : Wire
  pub now : ℕ
  pub recorded_at : ℕ

abbrev pub after_sync : Universe → Clients × Option ℕ → Universe × Ended
after_sync u (clients, none) = (record u { clients = clients }, not_synced)
after_sync u (clients, some total) = (record u { clients = clients }, finished total)

module _ (config : Settings) (notifier : Notifier) where
  abbrev pub after_recording :
      Outside → Universe → Db × Result (List ListingEvent) → Universe × Ended
  after_recording o u (db, err e) = (record u { db = db }, not_recorded e)
  after_recording o u (db, ok created) =
      after_sync (record u { db = db })
        (sync_subscriptions config o.spot_wire o.linear_wire u.discovery.table u.clients)

  -- `_on_discovery_events`, after the registry was reconciled.
  abbrev pub after_discovery :
      Outside → Universe → Discovery × Result DiscoveryResult → Universe × Ended
  after_discovery o u (d, err e) = (record u { discovery = d }, not_fetched e)
  after_discovery o u (d, ok result) =
      after_recording o (record u { discovery = d })
        (handle_registry config notifier o.recorded_at result u.db)

  unfoldable pub discovery_round : Outside → Universe → Universe × Ended
  discovery_round o u = after_discovery o u (discover_once config o.fetches o.now u.discovery)

  -- A turn of the loop over announcements: the database, whatever is raised.
  unfoldable pub announcement_turn : Patterns → ℕ → Fetched (List Announcement) → Db → Db
  announcement_turn re now (raised e) db = db
  announcement_turn re now (returned announcements) db =
      (handle_announcements config notifier now re announcements db).0
