-- ===== src/Health/State.antt =====
-- app/health/monitor.py: HealthState, and what the monitor reads of each subsystem.
use bybit_crypto_monitor_tel.Base.{ℕ, Bool, true, false, Option, none, String, List, []}
use bybit_crypto_monitor_tel.Base.Int.{ℤ, pos}
use bybit_crypto_monitor_tel.Persistence.Instruments.{Table}
use bybit_crypto_monitor_tel.Telegram.Client.{Client}

pub data Overall : Type 0 where
  healthy degraded unhealthy : Overall

pub record HealthState : Type 0 where
  pub collected_at : ℕ
  pub rest_healthy : Bool
  pub spot_ws_connected : Bool
  pub linear_ws_connected : Bool
  pub telegram_healthy : Bool
  pub dispatcher_healthy : Bool
  pub telegram_last_error_type : Option String
  pub telegram_last_error_age : Option ℕ
  pub telegram_dead_count : ℤ
  pub database_healthy : Bool
  pub last_spot_ticker_age : Option ℕ
  pub last_linear_ticker_age : Option ℕ
  pub last_discovery_age : Option ℕ
  pub spot_instrument_count : ℕ
  pub linear_usdt_count : ℕ
  pub linear_usdc_count : ℕ
  pub qualifying_coin_count : ℕ
  pub telegram_queue_depth : ℕ
  pub overall : Overall
  pub critical_issues : List String
  pub pending_critical_issues : List String
  pub degraded_issues : List String
  pub notes : List String

abbrev pub new_state : ℕ → HealthState
new_state now = record {
  collected_at = now;
  rest_healthy = false;
  spot_ws_connected = false;
  linear_ws_connected = false;
  telegram_healthy = false;
  dispatcher_healthy = true;
  telegram_last_error_type = none;
  telegram_last_error_age = none;
  telegram_dead_count = pos 0;
  database_healthy = false;
  last_spot_ticker_age = none;
  last_linear_ticker_age = none;
  last_discovery_age = none;
  spot_instrument_count = 0;
  linear_usdt_count = 0;
  linear_usdc_count = 0;
  qualifying_coin_count = 0;
  telegram_queue_depth = 0;
  overall = healthy;
  critical_issues = [];
  pending_critical_issues = [];
  degraded_issues = [];
  notes = [];
}

-- How `SELECT 1 AS one` ends: with the row's value, with no row, or with an exception.
pub data Probe : Type 0 where
  row : ℕ → Probe
  no_row raised : Probe

-- What a client of a stream shows; the time of its last ticker is in whole seconds.
pub record Stream : Type 0 where
  pub connected : Bool
  pub last_ticker_at : Option ℕ

pub record Streams : Type 0 where
  pub spot : Option Stream
  pub linear : Option Stream

-- What the dispatcher and its repository show; `count_dead` is absent when it raises.
pub record Deliveries : Type 0 where
  pub depth : ℕ
  pub worker_healthy : Bool
  pub count_dead : Option ℕ

-- The subsystems that the monitor is given, each of which it may lack.
pub record Subsystems : Type 0 where
  pub database : Option Probe
  pub discovery : Option (Option ℕ)
  pub ws_manager : Option Streams
  pub telegram : Option Client
  pub dispatcher : Option Deliveries
  pub registry : Option Table
