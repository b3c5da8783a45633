-- ===== src/Main/MarketLoop.antt =====
-- app/main.py: one turn of Application._market_loop. The clock is read at four places, and an
-- exception ends the turn where it is raised; the loop logs it and goes on.
pub mod Bounded
use bybit_crypto_monitor_tel.Base.{ℕ, Bool, String, List}
use bybit_crypto_monitor_tel.Base.Float.{Float}
use bybit_crypto_monitor_tel.Base.Dict.{values}
use bybit_crypto_monitor_tel.Base.Result.{Error, Result, ok, err}
use bybit_crypto_monitor_tel.Config.{Settings}
use bybit_crypto_monitor_tel.Persistence.Tables.{Db}
use bybit_crypto_monitor_tel.Persistence.Instruments.{Table, load_all}
use bybit_crypto_monitor_tel.Market.Value.{MomentumValue}
use bybit_crypto_monitor_tel.Market.Momentum.{SpotHistory, prune, evaluate_all}
use bybit_crypto_monitor_tel.Market.Deduplication.{aggregate_qualifying}
use bybit_crypto_monitor_tel.Market.PriceEngine.{PriceEngine}
use bybit_crypto_monitor_tel.Alerts.StateMachine.{AlertDecision}
use bybit_crypto_monitor_tel.Alerts.Formatter.{Formats}
use bybit_crypto_monitor_tel.Alerts.Service.{process}
use bybit_crypto_monitor_tel.Health.Classify.{Monitor, set_qualifying_count}

-- The clock as `evaluate_all`, `process`, the insertion of a row and `prune` read it.
pub record Clocks : Type 0 where
  pub evaluated_at : ℕ
  pub decided_at : ℕ
  pub inserted_at : ℕ
  pub pruned_at : ℕ

-- What a turn writes: the price history, the database and the health monitor.
pub record Shared : Type 0 where
  pub history : SpotHistory
  pub db : Db
  pub monitor : Monitor

-- After `process`: the count and the pruning, unless it raised.
unfoldable pub after_process :
    Settings → ℕ → Shared → Result (AlertDecision × Bool) → Shared × Result Bool
after_process config pruned_at w (err e) = (w, err e)
after_process config pruned_at w (ok (d, woken)) = (
  record w {
    history = (prune pruned_at config.spot_history_retention_seconds w.history).0;
    monitor = set_qualifying_count d.qualifying_count w.monitor;
  },
  ok woken,
)

-- The history after the evaluation, and the values of the supported markets.
unfoldable pub evaluated :
    (Float → Float → Float)
    → Settings
    → PriceEngine
    → Table
    → ℕ
    → SpotHistory
    → SpotHistory × List MomentumValue
evaluated raw_change config engine table now h =
    evaluate_all raw_change config engine.latest (values (load_all table)) now h

module _ (raw_change : Float → Float → Float) (upper : String → String) (text : Formats) where
  -- Whether the dispatcher was woken is returned.
  unfoldable pub market_turn :
      Settings → PriceEngine → Table → Clocks → Shared → Shared × Result Bool
  market_turn config engine table clocks w =
      let (history, found) =
        evaluated raw_change config engine table clocks.evaluated_at w.history in
      let (db, result) =
        process text config (aggregate_qualifying upper found config.alert_threshold_percent)
          clocks.decided_at clocks.inserted_at w.db in
      after_process config clocks.pruned_at
        (record { history = history; db = db; monitor = w.monitor }) result
