-- ===== src/Examples/Turns.antt =====
-- Two migrations and a turn of the market loop, and the theorems applied to them.
use bybit_crypto_monitor_tel.Base.{
  ◌≡◌, refl, true, none, some, String, String_eq, List, [], ◌∷◌, ◌++◌, ◌==◌, keep, any, elem,
  distinct, length, if◌then◌else◌,
}
use bybit_crypto_monitor_tel.Base.Float.{finite}
use bybit_crypto_monitor_tel.Base.Int.{pos}
use bybit_crypto_monitor_tel.Base.Result.{Result, ok, err, value_error}
use bybit_crypto_monitor_tel.Persistence.Migrations.{
  Migration, max_version, apply_migrations, apply_from, migrate, execute_all, insert_version,
}
use bybit_crypto_monitor_tel.Persistence.Migrations.Prefix.{Runs, is_pending, apply_migrations-Runs}
use bybit_crypto_monitor_tel.Persistence.Instruments.{Table, upsert_many}
use bybit_crypto_monitor_tel.Market.PriceEngine.{PriceEngine}
use bybit_crypto_monitor_tel.Market.Deduplication.Coins.{qualifies_as}
use bybit_crypto_monitor_tel.Main.MarketLoop.{Clocks, Shared, evaluated, market_turn}
use bybit_crypto_monitor_tel.Main.MarketLoop.Bounded.{Bounded, market_turn-Bounded}
use bybit_crypto_monitor_tel.Health.Classify.{new_monitor}
use bybit_crypto_monitor_tel.Examples.Data.{config, formats, instrument, ticker, empty_db}

-- A schema is the list of the statements that were executed; one statement is refused.
abbrev execute : String → List String → Result (List String)
execute statement schema =
    if statement == "BROKEN" then err value_error else ok (schema ++ statement ∷ [])

abbrev migrations : List Migration
migrations =
    record { version = 1; statements = "CREATE a" ∷ [] }
    ∷ record { version = 2; statements = "CREATE b" ∷ "BROKEN" ∷ [] }
    ∷ []

-- The first migration stays, and nothing of the second.
half_migrated : apply_migrations execute (λ version. 100) migrations [] none ≡ (
  record { schema = "CREATE a" ∷ []; versions = record { version = 1; applied_at = 100 } ∷ [] },
  some value_error,
)
unfolding apply_migrations apply_from migrate execute_all insert_version max_version
half_migrated = refl

apply_migrations-Runs_example :
    let (after, e) = apply_migrations execute (λ version. 100) migrations [] none in
    Runs execute
      (λ version. 100)
      (keep (is_pending (max_version [])) migrations)
      (record { schema = []; versions = [] })
      after
      e
    × (e ≡ none
        → apply_migrations execute (λ version. 200) migrations after.schema (some after.versions)
          ≡ (after, none))
apply_migrations-Runs_example =
    apply_migrations-Runs execute (λ version. 100) (λ version. 200) migrations [] none

abbrev engine : PriceEngine
engine = record {
  latest =
      (
        ("linear", "BTC"),
        record (ticker "BTC") { category = "linear"; prev_price_1h = some (finite (pos 1)) },
      )
      ∷ [];
  received = 1;
  accepted = 1;
  rejected = 0;
}

abbrev registry : Table
unfolding upsert_many
registry =
    upsert_many 1
      (record (instrument "BTC" "Trading") { category = "linear"; settle_coin = some "USDT" } ∷ [])
      []

abbrev clocks : Clocks
clocks = record { evaluated_at = 100; decided_at = 101; inserted_at = 102; pruned_at = 103 }

abbrev shared : Shared
shared = record {
  history = record { samples = []; last_sample_at = [] };
  db = empty_db;
  monitor = new_monitor;
}

market_turn-Bounded_example :
    let found =
      (evaluated (λ last reference. finite (pos 9)) config engine registry 100 shared.history).1 in
    (coins : List String) × (distinct coins ≡ true)
    × ((c : String) → elem c coins ≡ any (qualifies_as (finite (pos 8)) c) found)
    × Bounded config
        (length coins)
        empty_db
        (market_turn
          (λ last reference. finite (pos 9))
          (λ text. text)
          formats
          config
          engine
          registry
          clocks
          shared).0.db
market_turn-Bounded_example =
    market_turn-Bounded (λ last reference. finite (pos 9)) (λ text. text) formats config engine
      registry clocks shared
