-- ===== src/Examples/Markets.antt =====
-- The theorems on aggregation, discovery and prices, applied.
use bybit_crypto_monitor_tel.Base.{
  ℕ, ◌≡◌, refl, none, some, List, [], ◌∷◌, ℕ_eq, String_eq, pair_eq, keep,
}
use bybit_crypto_monitor_tel.Base.Int.{pos}
use bybit_crypto_monitor_tel.Base.Float.{finite}
use bybit_crypto_monitor_tel.Base.Dict.{get, set}
use bybit_crypto_monitor_tel.Base.Result.{ok}
use mathlib.Core.List.{Perm}
use bybit_crypto_monitor_tel.Bybit.Models.{Instrument}
use bybit_crypto_monitor_tel.Persistence.Instruments.{Table, upserted}
use bybit_crypto_monitor_tel.Market.Value.{qualifies}
use bybit_crypto_monitor_tel.Market.Deduplication.{aggregate_qualifying}
use bybit_crypto_monitor_tel.Market.Deduplication.Partition.{markets, aggregate_qualifying-perm}
use bybit_crypto_monitor_tel.Market.Discovery.{reconcile}
use bybit_crypto_monitor_tel.Market.Discovery.Registry.{reconciled, last_of, get-reconcile}
use bybit_crypto_monitor_tel.Market.Discovery.Idempotent.{reconcile-idempotent}
use bybit_crypto_monitor_tel.Market.PriceEngine.{new_engine, update_tickers, accept, Conversions}
use bybit_crypto_monitor_tel.Market.PriceEngine.Counts.{later, last_accepted, get-update_tickers}
use bybit_crypto_monitor_tel.Market.PriceEngine.Latest.{feed_all, Feed, polled, feed}
use bybit_crypto_monitor_tel.Examples.Data.{values, instrument, ticker}

aggregate_qualifying-perm_example :
    Perm
      (markets (aggregate_qualifying (λ t. t) values (finite (pos 8))))
      (keep (λ v. qualifies v.change_1h (finite (pos 8))) values)
aggregate_qualifying-perm_example = aggregate_qualifying-perm (λ t. t) values (finite (pos 8))

abbrev table : Table
table =
    (("spot", "OLD"), upserted 1 (instrument "OLD" "Trading") none)
    ∷ (("spot", "NEW"), upserted 1 (instrument "NEW" "PreLaunch") none)
    ∷ []

abbrev fetched : List Instrument
fetched = instrument "NEW" "Trading" ∷ []

get-reconcile_example :
    get ("spot", "OLD") (reconcile fetched 5 table).0
    ≡ reconciled 5 (last_of ("spot", "OLD") fetched) (get ("spot", "OLD") table)
get-reconcile_example = get-reconcile fetched 5 table refl ("spot", "OLD")

reconcile-idempotent_example : (reconcile fetched 6 (reconcile fetched 5 table).0).1.events ≡ []
reconcile-idempotent_example = reconcile-idempotent fetched 5 6 table refl refl

get-update_tickers_example :
    let (after, accepted) = update_tickers (ticker "A" ∷ []) new_engine new_engine.latest in
    (get ("spot", "A") after.latest
      ≡ later (last_accepted ("spot", "A") (ticker "A" ∷ [])) (get ("spot", "A") new_engine.latest))
    × (get ("spot", "A") accepted
        ≡ later
            (last_accepted ("spot", "A") (ticker "A" ∷ []))
            (get ("spot", "A") new_engine.latest))
get-update_tickers_example =
    get-update_tickers (ticker "A" ∷ []) new_engine new_engine.latest ("spot", "A")

-- Wire values that are whole numbers already.
abbrev whole_numbers : Conversions ℕ
whole_numbers = record {
  float = λ n. ok (finite (pos n));
  percent = λ n. some (finite (pos n));
  seconds = λ n. some (pos n);
}

abbrev polled_once : List (Feed whole_numbers)
polled_once = polled (ticker "A" ∷ []) ∷ []

price_there : get ("spot", "A") (feed_all whole_numbers polled_once).latest ≡ some (ticker "A")
unfolding feed_all feed update_tickers accept get set
price_there = refl
