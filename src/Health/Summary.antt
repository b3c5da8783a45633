-- ===== src/Health/Summary.antt =====
-- app/health/monitor.py: HealthMonitor.format_summary.
use bybit_crypto_monitor_tel.Base.{
  ℕ, suc, Bool, Option, none, some, String, [], ◌∷◌, ◌==◌, String_eq, if◌then◌else◌,
}
use bybit_crypto_monitor_tel.Base.Int.{ℤ, pos, negsuc}
use bybit_crypto_monitor_tel.Base.Text.{concat, join, decimal}
use bybit_crypto_monitor_tel.Health.State.{HealthState}

abbrev pub age_text : Option ℕ → String
age_text none = "n/a"
age_text (some seconds) = concat (decimal seconds ∷ "s" ∷ [])

abbrev pub ws_text : Bool → Option ℕ → String
ws_text connected age =
    if connected then concat ("connected (" ∷ age_text age ∷ " last msg)" ∷ []) else "disconnected"

abbrev pub health_text : Bool → String
health_text fine = if fine then "healthy" else "unhealthy"

abbrev pub failure_text : Option ℕ → Option String → String
failure_text age none = ""
failure_text age (some error_type) =
    if error_type == ""
    then ""
    else concat (" (last failure: " ∷ age_text age ∷ " ago " ∷ error_type ∷ ")" ∷ [])

-- `str` of an integer.
abbrev pub integer_text : ℤ → String
integer_text (pos n) = decimal n
integer_text (negsuc n) = concat ("-" ∷ decimal (suc n) ∷ [])

abbrev pub line : String → String → String
line label value = concat (label ∷ ": " ∷ value ∷ [])

unfoldable pub format_summary : HealthState → String
format_summary st = join "\n" (
    "HEALTH"
    ∷ "------"
    ∷ line "Spot instruments" (decimal st.spot_instrument_count)
    ∷ line "Linear USDT" (decimal st.linear_usdt_count)
    ∷ line "Linear USDC" (decimal st.linear_usdc_count)
    ∷ line "Spot WS" (ws_text st.spot_ws_connected st.last_spot_ticker_age)
    ∷ line "Linear WS" (ws_text st.linear_ws_connected st.last_linear_ticker_age)
    ∷ line "REST" (health_text st.rest_healthy)
    ∷ line "Telegram" (
        concat (
          health_text st.telegram_healthy
          ∷ failure_text st.telegram_last_error_age st.telegram_last_error_type
          ∷ []))
    ∷ line "Dispatcher" (health_text st.dispatcher_healthy)
    ∷ line "Database" (health_text st.database_healthy)
    ∷ line "Qualifying coins" (decimal st.qualifying_coin_count)
    ∷ line "Telegram queue" (decimal st.telegram_queue_depth)
    ∷ line "Telegram dead" (integer_text st.telegram_dead_count)
    ∷ line "Last discovery" (concat (age_text st.last_discovery_age ∷ " ago" ∷ []))
    ∷ [])
