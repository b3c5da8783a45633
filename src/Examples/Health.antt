-- ===== src/Examples/Health.antt =====
-- A failing discovery, a persisted snapshot, settings and tasks, and the theorems applied to them.
use bybit_crypto_monitor_tel.Base.{
  ℕ, ◌*◌, ◌+◌, ◌≤◌, ◌≡◌, ◌≢◌, ◌↔◌, ◌⊎◌, refl, true, false, Option, none, some, String, List, [],
  ◌∷◌, ◌==◌, String_eq, any, if◌then◌else◌,
}
use bybit_crypto_monitor_tel.Base.Int.{pos}
use bybit_crypto_monitor_tel.Base.Float.{Float, finite, zero_float}
use bybit_crypto_monitor_tel.Base.Dict.{get, set}
use bybit_crypto_monitor_tel.Base.Result.{ok}
use bybit_crypto_monitor_tel.Config.{Settings, whole_seconds}
use bybit_crypto_monitor_tel.Config.Validation.{
  Candidate, accepted, validate_ranges, check_all, raise_if,
}
use bybit_crypto_monitor_tel.Config.Validation.Accepts.{IsValid, validate_ranges-IsValid}
use bybit_crypto_monitor_tel.Persistence.Lock.{
  Connection, connected, begun, execute, end_transaction, begin_transaction, enter_guard, Reach,
  start, later, begins, executes_inside, ends,
}
use bybit_crypto_monitor_tel.Persistence.Lock.Serial.{Serial, Reach-Serial}
use bybit_crypto_monitor_tel.Health.State.{
  Subsystems, Overall, healthy, degraded, unhealthy, row, new_state,
}
use bybit_crypto_monitor_tel.Health.Collect.{collect_substates}
use bybit_crypto_monitor_tel.Health.Classify.{
  Look, snapshot, new_monitor, degradations, classify, critical, track, track_all, set_default,
  only_bad, overall_of,
}
use bybit_crypto_monitor_tel.Health.Streaks.{bad_at, watch, is_overdue, snapshot-overall}
use bybit_crypto_monitor_tel.Health.Snapshot.{
  Payload, payload_of, readable, persist_snapshot, heartbeat_stale_seconds, main, main-persisted,
}
use bybit_crypto_monitor_tel.Examples.Data.{config}

-- The database answers, and discovery has not succeeded yet.
abbrev started : Subsystems
started = record {
  database = some (row 1);
  discovery = some none;
  ws_manager = none;
  telegram = none;
  dispatcher = none;
  registry = none;
}

abbrev quiet : Settings
quiet = record config { enable_websocket = false }

abbrev look : ℕ → Look
look t = record { now = t; monotonic = t; subsystems = started }

abbrev shown : ℕ → List Look → Overall
shown t earlier = (snapshot quiet (look t) (watch quiet earlier new_monitor)).0.overall

-- The failure counts when it is as old as the grace period.
grace-then-unhealthy :
    (shown 0 [] ≡ degraded)
    × (shown 299 (look 0 ∷ []) ≡ degraded)
    × (shown 300 (look 0 ∷ []) ≡ unhealthy)
unfolding snapshot watch classify critical track track_all set_default only_bad overall_of
    degradations get set collect_substates
grace-then-unhealthy = (refl, refl, refl)

snapshot-overall_example :
    let st = (snapshot quiet (look 300) (watch quiet (look 0 ∷ []) new_monitor)).0 in
    let bad = bad_at quiet (look 300) in
    ((st.overall ≡ unhealthy) ↔ (
      (st.database_healthy ≡ false)
      ⊎ (any (is_overdue quiet (look 300 ∷ look 0 ∷ []) 300) bad ≡ true)))
    × ((st.overall ≡ healthy) ↔ ((bad ≡ []) × (degradations st ≡ [])))
snapshot-overall_example = snapshot-overall quiet (look 300) (look 0 ∷ [])

abbrev print : Payload → String
print p = "{}"

abbrev read : String → Option Payload
read text = some (payload_of 1000000 (new_state 1000))

abbrev two_minutes : String → Option Float
two_minutes text = some (finite (pos 120))

valid_threshold : heartbeat_stale_seconds two_minutes none ≡ ok (finite (pos 120))
unfolding heartbeat_stale_seconds
valid_threshold = refl

main-persisted_example :
    (main print read two_minutes
        (λ x. 120000)
        (λ age. "")
        none
        1100000
        (readable (persist_snapshot print read 1000000 (new_state 1000) []))
      ≡ 0)
    ↔ ((1100000 ≤ whole_seconds 1000000 * 1000 + 120000) × ((new_state 1000).overall ≢ unhealthy))
main-persisted_example =
    main-persisted print read two_minutes (λ x. 120000) (λ age. "") none (finite (pos 120)) 1000000
      1100000 (new_state 1000) [] refl valid_threshold

abbrev candidate : Candidate
candidate = record {
  telegram_bot_token = "token";
  telegram_chat_id = "chat";
  alert_threshold_percent = finite (pos 8);
  min_qualifying_coins = pos 1;
  max_qualifying_coins = pos 10;
  rest_max_retries = pos 3;
  telegram_max_retries = pos 3;
  ws_subscribe_batch_size = pos 10;
  duration = λ name. if name == "alert_debounce_seconds" then zero_float else finite (pos 60);
  enable_spot = true;
  enable_linear_usdt = false;
  enable_linear_usdc = false;
  immediate_transition_alerts = true;
  hourly_active_alerts = true;
  composition_change_alerts = true;
  listing_notifications_enabled = true;
}

candidate-accepted : validate_ranges (λ text. text) candidate ≡ accepted
unfolding validate_ranges raise_if check_all
candidate-accepted = refl

validate_ranges-IsValid_example :
    (validate_ranges (λ text. text) candidate ≡ accepted) ↔ IsValid candidate
validate_ranges-IsValid_example = validate_ranges-IsValid (λ text. text) candidate

-- A task begins a transaction, executes a statement in it and ends it.
abbrev in_one : Connection
in_one = begun 1 connected

worked : Reach (end_transaction 1 (execute 1 in_one))
unfolding begin_transaction enter_guard
worked =
    later (later (later start (begins 1 in_one refl refl)) (executes_inside 1 refl refl))
      (ends 1 refl)

Reach-Serial_example : Serial (end_transaction 1 (execute 1 in_one)).log
Reach-Serial_example = Reach-Serial worked
