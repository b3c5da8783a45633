-- ===== src/Health/Classify.antt =====
-- app/health/monitor.py: HealthMonitor._classify and snapshot. `_critical_since` is a dictionary of
-- times of the monotonic clock, in milliseconds. The set of the issues that are bad is a list, in
-- the order in which they were found; Python's order of a set is not determined.
use bybit_crypto_monitor_tel.Base.{
  ℕ, ◌+◌, Bool, true, false, ◌&&◌, ◌||◌, not, Option, none, some, String, List, [], ◌∷◌, ◌++◌, ◌==◌,
  String_eq, elem, keep, leb, ltb, if◌then◌else◌,
}
use bybit_crypto_monitor_tel.Base.Dict.{Dict, get, set}
use bybit_crypto_monitor_tel.Base.Sort.{sorted}
use bybit_crypto_monitor_tel.Base.Text.{concat, join}
use bybit_crypto_monitor_tel.Base.TextOrder.{text_leb}
use bybit_crypto_monitor_tel.Config.{Settings, whole_seconds}
use bybit_crypto_monitor_tel.Health.State.{
  Overall, healthy, degraded, unhealthy, HealthState, Subsystems, new_state,
}
use bybit_crypto_monitor_tel.Health.Collect.{collect_substates}

-- `if condition: issues.append(name)`
abbrev pub issue_if : Bool → String → List String
issue_if condition name = if condition then name ∷ [] else []

abbrev pub ws_acceptable : Settings → Option ℕ → Bool
ws_acceptable config none = false
ws_acceptable config (some age) = leb age (whole_seconds config.ws_stale_seconds)

abbrev pub enabled_spot : Settings → Bool
enabled_spot config = config.enable_websocket && config.enable_spot

abbrev pub enabled_linear : Settings → Bool
enabled_linear config =
    config.enable_websocket && (config.enable_linear_usdt || config.enable_linear_usdc)

unfoldable pub critical : Settings → HealthState → List String
critical config st =
    issue_if (not st.database_healthy) "database"
    ++ (issue_if (not st.dispatcher_healthy) "dispatcher"
        ++ (issue_if (not st.rest_healthy) "rest"
            ++ (issue_if (enabled_spot config && not (ws_acceptable config st.last_spot_ticker_age))
                  "spot_ws"
                ++ issue_if
                    (enabled_linear config && not (ws_acceptable config st.last_linear_ticker_age))
                    "linear_ws")))

unfoldable pub degradations : HealthState → List String
degradations st =
    issue_if (not st.telegram_healthy) "telegram"
    ++ issue_if (ltb 0 st.telegram_queue_depth) "retry_queue"

-- The entries of the names that are still bad; the loop and the comprehension both keep these.
unfoldable pub only_bad : List String → Dict String ℕ → Dict String ℕ
only_bad bad [] = []
only_bad bad ((name, since) ∷ rest) =
    let others = only_bad bad rest in if elem name bad then (name, since) ∷ others else others

abbrev pub default_to : String → ℕ → Option ℕ → Dict String ℕ → Dict String ℕ
default_to name now none tracker = set name now tracker
default_to name now (some since) tracker = tracker

-- `setdefault`
unfoldable pub set_default : String → ℕ → Dict String ℕ → Dict String ℕ
set_default name now tracker = default_to name now (get name tracker) tracker

unfoldable pub track_all : ℕ → List String → Dict String ℕ → Dict String ℕ
track_all now [] tracker = tracker
track_all now (name ∷ names) tracker = track_all now names (set_default name now tracker)

-- The tracker after a snapshot in which these names are bad.
unfoldable pub track : ℕ → List String → Dict String ℕ → Dict String ℕ
track now bad tracker = only_bad bad (track_all now bad (only_bad bad tracker))

abbrev pub long_since : ℕ → ℕ → Option ℕ → Bool
long_since grace now none = false
long_since grace now (some since) = leb (since + grace) now

-- A failure of the database needs no grace.
abbrev pub is_persisted : ℕ → ℕ → Dict String ℕ → String → Bool
is_persisted grace now tracker name = long_since grace now (get name tracker) || name == "database"

abbrev pub is_empty : List String → Bool
is_empty [] = true
is_empty (_ ∷ _) = false

unfoldable pub overall_of : Bool → List String → List String → List String → Overall
overall_of database_healthy persisted bad degraded_issues =
    if not database_healthy
    then unhealthy
    else if not (is_empty persisted)
    then unhealthy
    else if not (is_empty bad) || not (is_empty degraded_issues)
    then degraded
    else healthy

abbrev pub critical_note : List String → List String → List String
critical_note [] notes = notes
critical_note (name ∷ names) notes =
    notes ++ concat ("critical: " ∷ join "," (sorted text_leb (name ∷ names)) ∷ []) ∷ []

unfoldable pub classify : Settings → ℕ → HealthState → Dict String ℕ → HealthState × Dict String ℕ
classify config now st tracker =
    let bad = critical config st in
    let tracked = track now bad tracker in
    let persisted = keep (is_persisted config.critical_health_failure_seconds now tracked) bad in
    let degraded_issues = degradations st in
    (
      record st {
        overall = overall_of st.database_healthy persisted bad degraded_issues;
        critical_issues = persisted;
        pending_critical_issues = sorted text_leb (keep (λ name. not (elem name persisted)) bad);
        degraded_issues = degraded_issues;
        notes = critical_note persisted st.notes;
      },
      tracked,
    )

pub record Monitor : Type 0 where
  pub qualifying_coin_count : ℕ
  pub last_state : Option HealthState
  pub critical_since : Dict String ℕ

abbrev pub new_monitor : Monitor
new_monitor = record { qualifying_coin_count = 0; last_state = none; critical_since = [] }

abbrev pub set_qualifying_count : ℕ → Monitor → Monitor
set_qualifying_count count m = record m { qualifying_coin_count = count }

-- What is read at one snapshot: the two clocks and the subsystems.
pub record Look : Type 0 where
  pub now : ℕ
  pub monotonic : ℕ
  pub subsystems : Subsystems

abbrev pub collected : Settings → ℕ → Look → HealthState
collected config count look =
    record (collect_substates config look.now look.subsystems (new_state look.now)) {
      qualifying_coin_count = count;
    }

unfoldable pub snapshot : Settings → Look → Monitor → HealthState × Monitor
snapshot config look m =
    let (st, tracker) =
      classify config look.monotonic (collected config m.qualifying_coin_count look)
        m.critical_since in
    (st, record m { last_state = some st; critical_since = tracker })
