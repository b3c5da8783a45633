-- ===== src/Market/TickerPoll.antt =====
-- app/market/price_engine.py: TickerPollService. What the REST client gives for each of its two
-- calls is an argument; the duration, which is only logged, is left out. No `on_tickers` is given.
use bybit_crypto_monitor_tel.Base.{
  ℕ, ◌+◌, ◌||◌, not, Option, String, List, [], ◌∷◌, ◌++◌, ◌==◌, String_eq, some_eq, length,
  if◌then◌else◌,
}
use bybit_crypto_monitor_tel.Base.Dict.{values}
use bybit_crypto_monitor_tel.Config.{Settings}
use bybit_crypto_monitor_tel.Bybit.Models.{Instrument, Ticker}
use bybit_crypto_monitor_tel.Bybit.Rest.Request.{Fetched, raised, returned, ◌>>=◌}
use bybit_crypto_monitor_tel.Persistence.Instruments.{Table, load_all}
use bybit_crypto_monitor_tel.Market.PriceEngine.{PriceEngine, update_tickers}

pub record Counts : Type 0 where
  pub spot_instruments : ℕ
  pub linear_usdt : ℕ
  pub linear_usdc : ℕ

abbrev pub no_counts : Counts
no_counts = record { spot_instruments = 0; linear_usdt = 0; linear_usdc = 0 }

abbrev pub count_linear : Option String → Counts → Counts
count_linear settle_coin c =
    if some_eq settle_coin "USDT"
    then record c { linear_usdt = c.linear_usdt + 1 }
    else if some_eq settle_coin "USDC"
    then record c { linear_usdc = c.linear_usdc + 1 }
    else c

abbrev pub count_one : Instrument → Counts → Counts
count_one i c =
    if not (i.status == "Trading")
    then c
    else if i.category == "spot"
    then record c { spot_instruments = c.spot_instruments + 1 }
    else if i.category == "linear"
    then count_linear i.settle_coin c
    else c

-- The loop of `_fill_instrument_counts`.
unfoldable pub fill_instrument_counts : List Instrument → Counts → Counts
fill_instrument_counts [] c = c
fill_instrument_counts (i ∷ rest) c = fill_instrument_counts rest (count_one i c)

pub record PollSummary : Type 0 where
  pub received : ℕ
  pub accepted : ℕ
  pub rejected : ℕ
  pub updated_count : ℕ
  pub counts : Counts

-- The calls that the settings ask for; the first that raises ends the poll.
abbrev pub fetch_tickers :
    Settings → Fetched (List Ticker) → Fetched (List Ticker) → Fetched (List Ticker)
fetch_tickers config spot linear = do
  fetched_spot ← if config.enable_spot then spot else returned []
  fetched_linear ←
      if config.enable_linear_usdt || config.enable_linear_usdc then linear else returned []
  returned (fetched_spot ++ fetched_linear)

abbrev pub after_fetch :
    Table → PriceEngine → Fetched (List Ticker) → PriceEngine × Fetched PollSummary
after_fetch table e (raised x) = (e, raised x)
after_fetch table e (returned fetched) =
    let (after, updated) = update_tickers fetched e [] in
    (
      after,
      returned (record {
        received = after.received;
        accepted = after.accepted;
        rejected = after.rejected;
        updated_count = length updated;
        counts = fill_instrument_counts (values (load_all table)) no_counts;
      }),
    )

unfoldable pub poll_once :
    Settings
    → Fetched (List Ticker)
    → Fetched (List Ticker)
    → Table
    → PriceEngine
    → PriceEngine × Fetched PollSummary
poll_once config spot linear table e = after_fetch table e (fetch_tickers config spot linear)
