-- ===== src/Health/Collect.antt =====
-- app/health/monitor.py: HealthMonitor._collect_substates, one function for each subsystem.
use bybit_crypto_monitor_tel.Base.{
  ℕ, ◌+◌, ◌-◌, ◌*◌, Bool, true, false, ◌&&◌, not, Option, none, some, String, List, [], ◌∷◌, ◌++◌,
  ◌==◌, String_eq, ltb, leb, nat_eq, is_some, some_eq, if◌then◌else◌, option_map,
}
use bybit_crypto_monitor_tel.Base.Int.{ℤ, pos, negsuc}
use bybit_crypto_monitor_tel.Base.Dict.{values}
use bybit_crypto_monitor_tel.Config.{Settings}
use bybit_crypto_monitor_tel.Bybit.Models.{Instrument}
use bybit_crypto_monitor_tel.Persistence.Instruments.{Table, load_all}
use bybit_crypto_monitor_tel.Telegram.Client.{Client}
use bybit_crypto_monitor_tel.Health.State.{
  HealthState, Probe, row, no_row, raised, Stream, Streams, Deliveries, Subsystems,
}

-- `_age`: never negative, as subtraction stops at 0.
abbrev pub age : ℕ → Option ℕ → Option ℕ
age now last_seen = option_map (λ seen. now - seen) last_seen

-- A note is added when something is not healthy.
abbrev pub note_unless : Bool → String → HealthState → HealthState
note_unless fine note st = if fine then st else record st { notes = st.notes ++ note ∷ [] }

abbrev pub probe_healthy : Probe → Bool
probe_healthy (row one) = nat_eq one 1
probe_healthy no_row = false
probe_healthy raised = false

abbrev pub collect_database : Option Probe → HealthState → HealthState
collect_database none st = st
collect_database (some probe) st =
    let fine = probe_healthy probe in
    note_unless fine "database unhealthy" (record st { database_healthy = fine })

-- The age, which is in seconds, is above three refresh intervals.
abbrev pub is_stale : Settings → Option ℕ → Bool
is_stale config none = false
is_stale config (some seconds) = ltb (config.instrument_refresh_seconds * 3) (seconds * 1000)

abbrev pub collect_discovery : Settings → ℕ → Option (Option ℕ) → HealthState → HealthState
collect_discovery config now none st = st
collect_discovery config now (some last_success) st =
    let fine = is_some last_success && not (is_stale config (age now last_success)) in
    note_unless fine "rest unhealthy"
      (record st { last_discovery_age = age now last_success; rest_healthy = fine })

abbrev pub collect_spot : ℕ → Option Stream → HealthState → HealthState
collect_spot now none st = st
collect_spot now (some spot) st = note_unless spot.connected "spot ws disconnected" (record st {
  spot_ws_connected = spot.connected;
  last_spot_ticker_age = age now spot.last_ticker_at;
})

abbrev pub collect_linear : ℕ → Option Stream → HealthState → HealthState
collect_linear now none st = st
collect_linear now (some linear) st =
    note_unless linear.connected "linear ws disconnected" (record st {
      linear_ws_connected = linear.connected;
      last_linear_ticker_age = age now linear.last_ticker_at;
    })

abbrev pub collect_streams : ℕ → Option Streams → HealthState → HealthState
collect_streams now none st = st
collect_streams now (some streams) st =
    collect_linear now streams.linear (collect_spot now streams.spot st)

-- A success that no error follows.
abbrev pub delivers : Option ℕ → Option ℕ → Bool
delivers none last_error = false
delivers (some last_success) none = true
delivers (some last_success) (some last_error) = leb last_error last_success

abbrev pub collect_telegram : ℕ → Option Client → HealthState → HealthState
collect_telegram now none st = st
collect_telegram now (some telegram) st =
    let fine = delivers telegram.last_success_at telegram.last_error_at in
    note_unless fine "telegram unhealthy" (record st {
      telegram_healthy = fine;
      telegram_last_error_type = telegram.last_error_type;
      telegram_last_error_age = age now telegram.last_error_at;
    })

abbrev pub dead_count : Option ℕ → ℤ
dead_count none = negsuc 0
dead_count (some n) = pos n

-- `depth`, a count in the database, is taken to return.
abbrev pub collect_dispatcher : Option Deliveries → HealthState → HealthState
collect_dispatcher none st = st
collect_dispatcher (some dispatcher) st =
    let noted = note_unless dispatcher.worker_healthy "dispatcher unhealthy" (record st {
      telegram_queue_depth = dispatcher.depth;
      dispatcher_healthy = dispatcher.worker_healthy;
    }) in
    record noted { telegram_dead_count = dead_count dispatcher.count_dead }

abbrev pub count_linear : Option String → HealthState → HealthState
count_linear settle_coin st =
    if some_eq settle_coin "USDT"
    then record st { linear_usdt_count = st.linear_usdt_count + 1 }
    else if some_eq settle_coin "USDC"
    then record st { linear_usdc_count = st.linear_usdc_count + 1 }
    else st

abbrev pub count_instrument : Instrument → HealthState → HealthState
count_instrument i st =
    if not (i.status == "Trading")
    then st
    else if i.category == "spot"
    then record st { spot_instrument_count = st.spot_instrument_count + 1 }
    else if i.category == "linear"
    then count_linear i.settle_coin st
    else st

unfoldable pub count_all : List Instrument → HealthState → HealthState
count_all [] st = st
count_all (i ∷ rest) st = count_all rest (count_instrument i st)

abbrev pub collect_counts : Option Table → HealthState → HealthState
collect_counts none st = st
collect_counts (some table) st = count_all (values (load_all table)) st

unfoldable pub collect_substates : Settings → ℕ → Subsystems → HealthState → HealthState
collect_substates config now subsystems st = collect_counts subsystems.registry (
    collect_dispatcher subsystems.dispatcher (
      collect_telegram now subsystems.telegram (
        collect_streams now subsystems.ws_manager (
          collect_discovery config now subsystems.discovery
            (collect_database subsystems.database st)))))
