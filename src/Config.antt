-- ===== src/Config.antt =====
-- app/config.py: the settings that the modelled parts read. Durations, which the program holds as
-- floats of seconds, are whole numbers of milliseconds here.
pub mod Validation
use bybit_crypto_monitor_tel.Base.{ℕ, ◌/◌, Bool}
use bybit_crypto_monitor_tel.Base.Float.{Float}

pub record Settings : Type 0 where
  pub alert_threshold_percent : Float
  pub min_qualifying_coins : ℕ
  pub max_qualifying_coins : ℕ
  pub spot_sample_seconds : ℕ
  pub immediate_transition_alerts : Bool
  pub hourly_active_alerts : Bool
  pub composition_change_alerts : Bool
  pub listing_notifications_enabled : Bool
  pub alert_debounce_seconds : ℕ
  pub composition_change_cooldown_seconds : ℕ
  pub enable_spot : Bool
  pub enable_linear_usdt : Bool
  pub enable_linear_usdc : Bool
  pub enable_websocket : Bool
  pub spot_history_retention_seconds : ℕ
  pub spot_anchor_tolerance_seconds : ℕ
  pub ws_stale_seconds : ℕ
  pub ws_subscribe_batch_size : ℕ
  pub ws_subscription_ack_timeout_seconds : ℕ
  pub instrument_refresh_seconds : ℕ
  pub critical_health_failure_seconds : ℕ
  pub notification_max_age_seconds : ℕ
  pub listing_notification_max_age_seconds : ℕ

-- `int(duration)`, in seconds.
abbrev pub whole_seconds : ℕ → ℕ
whole_seconds milliseconds = milliseconds / 1000
