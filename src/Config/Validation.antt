-- ===== src/Config/Validation.antt =====
-- app/config.py: Settings._validate_ranges, alert_delivery_configured and validate_runtime, on the
-- values as they are read, before anything is known of them. What `getattr` gives for the name of a
-- duration is a function of the name; `str.upper` and `str.strip` are arguments.
pub mod Accepts
use bybit_crypto_monitor_tel.Base.{
  ◌≡◌, ◌↔◌, refl, Bool, true, false, ◌&&◌, ◌||◌, not, String, List, [], ◌∷◌, ◌==◌, String_eq, All,
  All-map, if◌then◌else◌, Bool-cases, inl, inr, arith,
}
use bybit_crypto_monitor_tel.Base.Int.{ℤ, pos, ltb_ℤ, leb_ℤ}
use bybit_crypto_monitor_tel.Base.Float.{Float, is_finite, float_lt, float_le, zero_float}
use bybit_crypto_monitor_tel.Base.Text.{concat}

abbrev pub numeric_non_negative : List String
numeric_non_negative =
    "instrument_refresh_seconds" ∷ "announcement_refresh_seconds" ∷ "rest_ticker_poll_seconds"
    ∷ "spot_sample_seconds" ∷ "alert_debounce_seconds" ∷ "composition_change_cooldown_seconds"
    ∷ "spot_history_retention_seconds" ∷ "spot_anchor_tolerance_seconds" ∷ "rest_timeout_seconds"
    ∷ "telegram_timeout_seconds" ∷ "ws_heartbeat_interval_seconds" ∷ "ws_stale_seconds"
    ∷ "ws_subscription_ack_timeout_seconds" ∷ "health_summary_seconds"
    ∷ "health_write_interval_seconds" ∷ "critical_health_failure_seconds"
    ∷ "health_heartbeat_stale_seconds" ∷ "dispatcher_poll_seconds"
    ∷ "dispatcher_error_backoff_seconds" ∷ "notification_max_age_seconds"
    ∷ "listing_notification_max_age_seconds" ∷ []

abbrev pub numeric_positive : List String
numeric_positive =
    "rest_ticker_poll_seconds" ∷ "rest_timeout_seconds" ∷ "telegram_timeout_seconds"
    ∷ "ws_heartbeat_interval_seconds" ∷ "ws_stale_seconds" ∷ "ws_subscription_ack_timeout_seconds"
    ∷ "health_write_interval_seconds" ∷ "health_heartbeat_stale_seconds"
    ∷ "spot_history_retention_seconds" ∷ "dispatcher_poll_seconds" ∷ []

pub record Candidate : Type 0 where
  pub telegram_bot_token : String
  pub telegram_chat_id : String
  pub alert_threshold_percent : Float
  pub min_qualifying_coins : ℤ
  pub max_qualifying_coins : ℤ
  pub rest_max_retries : ℤ
  pub telegram_max_retries : ℤ
  pub ws_subscribe_batch_size : ℤ
  pub duration : String → Float
  pub enable_spot : Bool
  pub enable_linear_usdt : Bool
  pub enable_linear_usdc : Bool
  pub immediate_transition_alerts : Bool
  pub hourly_active_alerts : Bool
  pub composition_change_alerts : Bool
  pub listing_notifications_enabled : Bool

-- The values are accepted, or ValueError is raised with a message.
pub data Verdict : Type 0 where
  accepted : Verdict
  value_error : (message : String) → Verdict

-- `if wrong: raise ValueError(message)`, and what follows.
unfoldable pub raise_if : Bool → String → Verdict → Verdict
raise_if wrong message next = if wrong then value_error message else next

-- `not math.isfinite(x) or x < 0`
abbrev pub is_not_non_negative : Float → Bool
is_not_non_negative x = not (is_finite x) || float_lt x zero_float

-- `not math.isfinite(x) or x <= 0`
abbrev pub is_not_positive : Float → Bool
is_not_positive x = not (is_finite x) || float_le x zero_float

abbrev pub is_zero : ℤ → Bool
is_zero n = leb_ℤ n (pos 0) && leb_ℤ (pos 0) n

module _ (upper : String → String) where
  unfoldable pub check_all :
      (Float → Bool) → String → (String → Float) → List String → Verdict → Verdict
  check_all wrong suffix duration [] next = next
  check_all wrong suffix duration (name ∷ names) next =
      raise_if (wrong (duration name)) (concat (upper name ∷ suffix ∷ []))
        (check_all wrong suffix duration names next)

  unfoldable pub validate_ranges : Candidate → Verdict
  validate_ranges c =
      raise_if (is_not_positive c.alert_threshold_percent)
        "ALERT_THRESHOLD_PERCENT must be a finite number > 0"
        (raise_if (ltb_ℤ c.min_qualifying_coins (pos 0)) "MIN_QUALIFYING_COINS must be >= 0" (
          raise_if (ltb_ℤ c.max_qualifying_coins c.min_qualifying_coins)
            "MAX_QUALIFYING_COINS must be >= MIN_QUALIFYING_COINS"
            (raise_if (ltb_ℤ c.rest_max_retries (pos 0) || ltb_ℤ c.telegram_max_retries (pos 0))
              "retry counts must be >= 0"
              (raise_if (ltb_ℤ c.ws_subscribe_batch_size (pos 1))
                "WS_SUBSCRIBE_BATCH_SIZE must be >= 1"
                (check_all is_not_non_negative " must be a finite number >= 0" c.duration
                  numeric_non_negative
                  (check_all is_not_positive " must be a finite number > 0" c.duration
                    numeric_positive
                    (raise_if
                      (not (c.enable_spot || (c.enable_linear_usdt || c.enable_linear_usdc)))
                      "At least one market universe must be enabled"
                      (raise_if (is_zero c.min_qualifying_coins || is_zero c.max_qualifying_coins)
                        "MIN/MAX_QUALIFYING_COINS must be >= 1" accepted))))))))

-- `alert_delivery_configured`
unfoldable pub alert_delivery_configured : (String → String) → Candidate → Bool
alert_delivery_configured strip c =
    not (strip c.telegram_bot_token == "") && not (strip c.telegram_chat_id == "")

abbrev pub layers_enabled : Candidate → Bool
layers_enabled c =
    c.immediate_transition_alerts || (c.hourly_active_alerts || c.listing_notifications_enabled)

unfoldable pub validate_runtime : (String → String) → Candidate → Verdict
validate_runtime strip c =
    raise_if (layers_enabled c && not (alert_delivery_configured strip c))
      "Telegram delivery is required because alert layers are enabled." accepted
