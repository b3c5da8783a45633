-- ===== src/Alerts/StateMachine.antt =====
-- app/alerts/state_machine.py: the alert policy over the unique coins.
mod Steps
mod Marks
pub mod Cycles
pub mod Policy
pub mod Debounce
pub mod Hourly
pub mod Transitions
use bybit_crypto_monitor_tel.Base.{
  ℕ, ◌+◌, Bool, true, false, not, ◌&&◌, Option, none, some, String, List, [], ◌∷◌, ◌==◌, String_eq,
  some_eq, is_none, get_or, ltb, leb, if◌then◌else◌,
}
use bybit_crypto_monitor_tel.Base.Text.{concat}
use bybit_crypto_monitor_tel.Base.Calendar.{hour_text}
use bybit_crypto_monitor_tel.Config.{Settings, whole_seconds}
use bybit_crypto_monitor_tel.Market.Deduplication.{QualifyingSet, count, fingerprint}
use bybit_crypto_monitor_tel.Persistence.Tables.{
  State, empty, active_range, over_range, AlertState, Db,
}

unfoldable pub classify_state : (count min_coins max_coins : ℕ) → State
classify_state count min_coins max_coins =
    if ltb count min_coins then empty else if leb count max_coins then active_range else over_range

-- The UTC hour, such as `2026-08-18-02`.
unfoldable pub hourly_bucket : ℕ → String
hourly_bucket ts = hour_text ts

pub record AlertDecision : Type 0 where
  pub state : State
  pub qualifying_count : ℕ
  pub fingerprint : List String
  pub live_transition : Bool
  pub composition_update : Bool
  pub hourly_update : Bool
  pub transition_reason : String

abbrev pub state_text : State → String
state_text empty = "EMPTY"
state_text active_range = "ACTIVE_RANGE"
state_text over_range = "OVER_RANGE"

abbrev pub is_active : State → Bool
is_active active_range = true
is_active _ = false

abbrev pub texts_eq : List String → List String → Bool
texts_eq [] [] = true
texts_eq (a ∷ as_) (b ∷ bs) = a == b && texts_eq as_ bs
texts_eq _ _ = false

-- What a fresh database holds.
abbrev pub initial_state : AlertState
initial_state = record {
  state = empty;
  fingerprint = [];
  updated_at = 0;
  last_transition_at = none;
  pending_since = none;
  pending_from = none;
  last_hourly_bucket = none;
  last_composition_at = none;
}

-- `AlertStateRepository.load`
unfoldable pub load : Db → AlertState
load db = get_or db.alert_state initial_state

-- `AlertStateRepository.save_no_commit`
unfoldable pub save_no_commit : AlertState → Db → Db
save_no_commit state db = record db { alert_state = some state }

-- The decision and the state that a step of `evaluate` has written so far.
abbrev pub Draft : Type 0
Draft = AlertDecision × AlertState

-- `now - int(last) < cooldown`, where the clock may have gone back.
abbrev in_cooldown : Settings → Option ℕ → ℕ → Bool
in_cooldown config none now = false
in_cooldown config (some last) now =
    ltb now (last + whole_seconds config.composition_change_cooldown_seconds)

unfoldable pub maybe_composition_update : Settings → ℕ → Draft → Draft
maybe_composition_update config now (decision, state) =
    if not config.composition_change_alerts
    then (decision, state)
    else if in_cooldown config state.last_composition_at now
    then (decision, state)
    else (
      record decision { composition_update = true },
      record state { last_composition_at = some now },
    )

-- A debounce starts when the range is entered and none is running.
unfoldable pub start_pending : State → ℕ → AlertState → AlertState
start_pending prev_state now state =
    if not (is_active prev_state) && is_none state.pending_since
    then record state { pending_since = some now; pending_from = some prev_state }
    else state

-- `now - int(pending) >= int(debounce)`
abbrev pub debounced : Settings → ℕ → ℕ → Bool
debounced config since now = leb (since + whole_seconds config.alert_debounce_seconds) now

abbrev transition_reason : State → Option State → String
transition_reason prev_state pending_from =
    concat (state_text (get_or pending_from prev_state) ∷ " -> " ∷ "ACTIVE_RANGE" ∷ [])

unfoldable pub finish_pending : Settings → State → ℕ → Draft → Draft
finish_pending config prev_state now (decision, state) =
    if config.immediate_transition_alerts
    then (
      record decision {
        live_transition = true;
        transition_reason = transition_reason prev_state state.pending_from;
      },
      record state {
        last_transition_at = some now;
        last_hourly_bucket = some (hourly_bucket now);
        pending_since = none;
        pending_from = none;
      },
    )
    else (decision, record state { pending_since = none; pending_from = none })

-- The body of `if pending is None … else …`.
unfoldable pub active_step : Settings → State → ℕ → Option ℕ → Draft → Draft
active_step config prev_state now none (decision, state) =
    if texts_eq decision.fingerprint state.fingerprint
    then (decision, state)
    else maybe_composition_update config now (decision, state)
active_step config prev_state now (some since) (decision, state) =
    if debounced config since now
    then finish_pending config prev_state now (decision, state)
    else (decision, state)

unfoldable pub range_step : Settings → State → State → ℕ → Draft → Draft
range_step config prev_state active_range now (decision, state) =
    let started = start_pending prev_state now state in
    active_step config prev_state now started.pending_since (decision, started)
range_step config prev_state _ now (decision, state) =
    (decision, record state { pending_since = none; pending_from = none })

unfoldable pub hourly_step : Settings → State → ℕ → Draft → Draft
hourly_step config new_state now (decision, state) =
    if is_active new_state
      && is_none state.pending_since
      && config.hourly_active_alerts
      && not decision.live_transition
    then if some_eq state.last_hourly_bucket (hourly_bucket now) then (decision, state) else (
      record decision { hourly_update = true },
      record state { last_hourly_bucket = some (hourly_bucket now) },
    )
    else (decision, state)

-- The rest of `evaluate`, once the new state is known.
unfoldable pub evaluate_as : Settings → State → ℕ → List String → ℕ → AlertState → Draft
evaluate_as config new_state n coins now state =
    let decision : AlertDecision = record {
      state = new_state;
      qualifying_count = n;
      fingerprint = coins;
      live_transition = false;
      composition_update = false;
      hourly_update = false;
      transition_reason = "";
    } in
    let (decided, written) =
      hourly_step config new_state now
        (range_step config state.state new_state now (decision, state)) in
    (decided, record written { state = new_state; fingerprint = coins; updated_at = now })

-- `evaluate` on the loaded state and the facts that it reads of the qualifying set.
unfoldable pub evaluate_state : Settings → ℕ → List String → ℕ → AlertState → Draft
evaluate_state config n coins now state =
    evaluate_as config (classify_state n config.min_qualifying_coins config.max_qualifying_coins) n
      coins now state

-- Nothing is persisted here.
unfoldable pub evaluate : Settings → QualifyingSet → ℕ → Db → Draft
evaluate config qualifying now db =
    evaluate_state config (count qualifying) (fingerprint qualifying) now (load db)

-- `update`: evaluate and persist in one step.
unfoldable pub update : Settings → QualifyingSet → ℕ → Db → AlertDecision × Db
update config qualifying now db =
    let (decision, state) = evaluate config qualifying now db in (decision, save_no_commit state db)

-- `reset`: force the EMPTY state.
unfoldable pub reset : ℕ → Db → Db
unfolding save_no_commit
reset now db = save_no_commit (record initial_state { updated_at = now }) db
