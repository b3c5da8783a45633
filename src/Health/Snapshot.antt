-- ===== src/Health/Snapshot.antt =====
-- app/health/monitor.py: HealthMonitor.persist_snapshot, and scripts/container_healthcheck.py, which
-- reads what it wrote. The JSON text of a snapshot and its reading are arguments, and so are the
-- clocks, in milliseconds.
use bybit_crypto_monitor_tel.Base.{
  ℕ, ◌+◌, ◌*◌, ◌-◌, ◌≡◌, ◌↔◌, ◌≢◌, ◌≤◌, refl, Bool, true, false, not, Option, none, some, String,
  List, [], ◌∷◌, ◌==◌, String_eq, ltb, if◌then◌else◌, arith, get_or,
}
use bybit_crypto_monitor_tel.Base.Float.{Float, is_finite, float_le, zero_float}
use bybit_crypto_monitor_tel.Base.Text.{concat, join}
use bybit_crypto_monitor_tel.Base.Result.{Result, ok, err, value_error}
use bybit_crypto_monitor_tel.Base.Dict.{get-set}
use bybit_crypto_monitor_tel.Config.{whole_seconds}
use bybit_crypto_monitor_tel.Persistence.KeyValue.{KvTable, Entry, kv_get, kv_set, kv_set_json}
use bybit_crypto_monitor_tel.Health.State.{Overall, healthy, degraded, unhealthy, HealthState}

abbrev pub overall_text : Overall → String
overall_text healthy = "healthy"
overall_text degraded = "degraded"
overall_text unhealthy = "unhealthy"

-- The JSON object that is persisted, field by field.
pub record Payload : Type 0 where
  pub last_updated_at : ℕ
  pub overall : String
  pub database : String
  pub dispatcher : String
  pub rest : String
  pub spot_ws : String
  pub linear_ws : String
  pub last_discovery_age : Option ℕ
  pub last_spot_ticker_age : Option ℕ
  pub last_linear_ticker_age : Option ℕ
  pub critical_issues : List String
  pub pending_critical_issues : List String
  pub degraded_issues : List String

abbrev pub ok_or_fail : Bool → String
ok_or_fail fine = if fine then "ok" else "fail"

unfoldable pub payload_of : ℕ → HealthState → Payload
payload_of now st = record {
  last_updated_at = whole_seconds now;
  overall = overall_text st.overall;
  database = ok_or_fail st.database_healthy;
  dispatcher = ok_or_fail st.dispatcher_healthy;
  rest = ok_or_fail st.rest_healthy;
  spot_ws = ok_or_fail st.spot_ws_connected;
  linear_ws = ok_or_fail st.linear_ws_connected;
  last_discovery_age = st.last_discovery_age;
  last_spot_ticker_age = st.last_spot_ticker_age;
  last_linear_ticker_age = st.last_linear_ticker_age;
  critical_issues = st.critical_issues;
  pending_critical_issues = st.pending_critical_issues;
  degraded_issues = st.degraded_issues;
}

abbrev pub health_key : String
health_key = "health:snapshot"

-- The value of the environment variable, or 120; what is not a positive finite number raises.
unfoldable pub heartbeat_stale_seconds : (String → Option Float) → Option String → Result Float
heartbeat_stale_seconds float_of environment = elim (float_of (get_or environment "120")) [
  | none ↦ err value_error
  | some value ↦
      if not (is_finite value)
      then err value_error
      else if float_le value zero_float
      then err value_error
      else ok value
]

-- What `read_snapshot` ends with: the snapshot, no row, or another exception.
pub data Read : Type 0 where
  snapshot : Payload → Read
  no_snapshot : Read
  unreadable : (class_name : String) → Read

-- The database file: its table, or the class of the exception that opening or reading it raises.
pub data Database : Type 0 where
  readable : KvTable → Database
  broken : (class_name : String) → Database

module _ (dumps : Payload → String) (loads : String → Option Payload) where
  unfoldable pub persist_snapshot : ℕ → HealthState → KvTable → KvTable
  persist_snapshot now st kv =
      kv_set_json dumps loads (whole_seconds now) health_key (payload_of now st) kv

  abbrev read_text : Option String → Read
  read_text none = no_snapshot
  read_text (some raw) = elim (loads raw) [
    | none ↦ unreadable "JSONDecodeError"
    | some payload ↦ snapshot payload
  ]

  unfoldable pub read_snapshot : Database → Read
  read_snapshot (broken class_name) = unreadable class_name
  read_snapshot (readable kv) = read_text (kv_get health_key kv)

  -- `",".join(issues) or "unknown"`
  abbrev issues_text : List String → String
  issues_text issues = let text = join "," issues in if text == "" then "unknown" else text

  -- The verdict with its message, where the printing of an age in milliseconds is an argument.
  unfoldable pub judge : (ℕ → String) → ℕ → ℕ → Read → Bool × String
  judge print_age threshold now no_snapshot = (false, "no health snapshot persisted yet")
  judge print_age threshold now (unreadable class_name) =
      (false, concat ("database or snapshot unreadable: " ∷ class_name ∷ []))
  judge print_age threshold now (snapshot s) =
      let written = s.last_updated_at * 1000 in
      if ltb (written + threshold) now
      then (false, concat ("health heartbeat stale: " ∷ print_age (now - written) ∷ "s" ∷ []))
      else if s.overall == "unhealthy"
      then (false, concat ("critical application failure: " ∷ issues_text s.critical_issues ∷ []))
      else (true, concat ("healthy (" ∷ s.overall ∷ ")" ∷ []))

  unfoldable pub check_health : (ℕ → String) → ℕ → ℕ → Database → Bool × String
  check_health print_age threshold now db = judge print_age threshold now (read_snapshot db)

  -- A threshold in seconds is compared in milliseconds.
  unfoldable pub exit_code : (Float → ℕ) → (ℕ → String) → ℕ → Database → Result Float → ℕ
  exit_code milliseconds print_age now db (err _) = 1
  exit_code milliseconds print_age now db (ok threshold) =
      if (check_health print_age (milliseconds threshold) now db).0 then 0 else 1

  unfoldable pub main :
      (String → Option Float) → (Float → ℕ) → (ℕ → String) → Option String → ℕ → Database → ℕ
  main float_of milliseconds print_age environment now db =
      exit_code milliseconds print_age now db (heartbeat_stale_seconds float_of environment)

  read-persisted :
      (written : ℕ) (st : HealthState) (kv : KvTable)
      → loads (dumps (payload_of written st)) ≡ some (payload_of written st)
      → read_snapshot (readable (persist_snapshot written st kv)) ≡ snapshot (payload_of written st)
  unfolding read_snapshot persist_snapshot kv_set_json kv_set kv_get
  read-persisted written st kv reads =
      let entry : Entry = record {
        value = dumps (payload_of written st);
        updated_at = whole_seconds written;
      } in
      rw (get-set health_key health_key entry kv) (rw reads refl)

judge-passes :
    (dumps : Payload → String) (loads : String → Option Payload) (print_age : ℕ → String)
    (threshold now : ℕ) (p : Payload)
    → let code : ℕ = if (judge dumps loads print_age threshold now (snapshot p)).0 then 0 else 1 in
      (code ≡ 0)
      ↔ ((now ≤ p.last_updated_at * 1000 + threshold) × ((p.overall == "unhealthy") ≡ false))
unfolding judge
judge-passes dumps loads print_age threshold now p = (λ e. ground arith, λ e. ground arith)

overall_text-unhealthy : (o : Overall) → (overall_text o == "unhealthy") ≡ false ↔ (o ≢ unhealthy)
overall_text-unhealthy healthy = (λ _ e. cc, λ _. refl)
overall_text-unhealthy degraded = (λ _ e. cc, λ _. refl)
overall_text-unhealthy unhealthy = (λ e. cc, λ h. absurd (h refl))

-- A snapshot that was persisted, and that the JSON library reads back, makes the check pass exactly
-- when it is no older than the threshold, which is valid, and does not say unhealthy.
pub main-persisted :
    (dumps : Payload → String) (loads : String → Option Payload) (float_of : String → Option Float)
    (milliseconds : Float → ℕ) (print_age : ℕ → String) (environment : Option String)
    (threshold : Float) (written now : ℕ) (st : HealthState) (kv : KvTable)
    → loads (dumps (payload_of written st)) ≡ some (payload_of written st)
    → heartbeat_stale_seconds float_of environment ≡ ok threshold
    → (main dumps loads float_of milliseconds print_age environment now
          (readable (persist_snapshot dumps loads written st kv))
        ≡ 0)
      ↔ ((now ≤ whole_seconds written * 1000 + milliseconds threshold) × (st.overall ≢ unhealthy))
unfolding main exit_code check_health payload_of
main-persisted dumps loads float_of milliseconds print_age environment threshold written now st kv
      reads valid =
    rw valid (
      rw (read-persisted dumps loads written st kv reads) (
        let said = overall_text-unhealthy st.overall in
        let (there, back) =
          judge-passes dumps loads print_age (milliseconds threshold) now (payload_of written st) in
        (λ e. ((there e).0, said.0 (there e).1), λ h. back (h.0, said.1 h.1))))
