-- ===== src/Examples/Policy.antt =====
-- The theorems on the alert policy and on a cycle of the service, applied.
use bybit_crypto_monitor_tel.Base.{
  ℕ, ◌+◌, ◌≤◌, ◌≡◌, ◌⊎◌, inl, refl, true, false, none, some, [], ◌∷◌, arith,
}
use bybit_crypto_monitor_tel.Base.Result.{err, zero_division_error}
use bybit_crypto_monitor_tel.Base.Sort.{sorted}
use bybit_crypto_monitor_tel.Base.Text.{concat, join, padded, decimal}
use bybit_crypto_monitor_tel.Base.Calendar.{hour_text, date_of_days}
use bybit_crypto_monitor_tel.Market.Deduplication.{QualifyingSet, fingerprint}
use bybit_crypto_monitor_tel.Persistence.Tables.{active_range}
use bybit_crypto_monitor_tel.Alerts.StateMachine.{
  classify_state, hourly_bucket, maybe_composition_update, start_pending, finish_pending,
  active_step, range_step, hourly_step, evaluate_as, evaluate_state, evaluate, load, initial_state,
}
use bybit_crypto_monitor_tel.Alerts.StateMachine.Cycles.{Cycle, decide, next, run}
use bybit_crypto_monitor_tel.Alerts.StateMachine.Policy.{Sends-in_range, composition_spacing}
use bybit_crypto_monitor_tel.Alerts.StateMachine.Debounce.{
  fresh, after, HeldSince, live_after_debounce,
}
use bybit_crypto_monitor_tel.Alerts.StateMachine.Transitions.{transition_fires, lives, lives-le-one}
use bybit_crypto_monitor_tel.Alerts.StateMachine.Hourly.{
  hourlies, hourlies-le-one, transition_owns_hour,
}
use bybit_crypto_monitor_tel.Alerts.Service.{process, prepare}
use bybit_crypto_monitor_tel.Alerts.Service.Atomic.{Outcome, process-Outcome, process_zero_cooldown}
use bybit_crypto_monitor_tel.Examples.Data.{
  config, no_cooldown, entry, held, fired, entered, active, active_db, formats, value,
}

entered_fires : (decide config fired entered).live_transition ≡ true
unfolding classify_state start_pending finish_pending active_step range_step hourly_step evaluate_as
    evaluate_state maybe_composition_update
entered_fires = refl

Sends-in_range_example : (1 ≤ 2) × (2 ≤ 3)
Sends-in_range_example = Sends-in_range config fired entered (inl entered_fires)

changed : (decide config fired active).composition_update ≡ true
unfolding classify_state start_pending finish_pending active_step range_step hourly_step evaluate_as
    evaluate_state maybe_composition_update hourly_bucket hour_text
changed = refl

composition_spacing_example :
    (config.composition_change_alerts ≡ true)
    × ((active.last_composition_at ≡ none)
        ⊎ ((at : ℕ) × (active.last_composition_at ≡ some at) × (at + 600 ≤ 60)))
    × ((next config fired active).last_composition_at ≡ some 60)
composition_spacing_example = composition_spacing config fired active changed

replay_fires : (decide config fired (next config entry initial_state)).live_transition ≡ true
unfolding classify_state start_pending finish_pending active_step range_step hourly_step evaluate_as
    evaluate_state maybe_composition_update
replay_fires = refl

live_after_debounce_example : (t : ℕ) × (t + 60 ≤ 60) × HeldSince config t (fired ∷ entry ∷ [])
live_after_debounce_example = live_after_debounce config fired (after fresh entry) replay_fires

in_range : (c : Cycle) → c.coins ≡ 2 → classify_state c.coins 1 3 ≡ active_range
unfolding classify_state
in_range c h = rw h refl

transition_fires_example :
    (decide config fired (run config (entry ∷ held ∷ []) initial_state)).live_transition ≡ true
transition_fires_example =
    transition_fires config initial_state entry (held ∷ []) fired refl (λ e. cc) refl
      ((in_range entry refl, omega arith), ((in_range held refl, omega arith), tt))
      (in_range fired refl) (omega arith)

lives-le-one_example : lives config (entry ∷ held ∷ fired ∷ []) initial_state ≤ 1
lives-le-one_example =
    lives-le-one config (entry ∷ held ∷ fired ∷ []) initial_state
      (in_range entry refl, (in_range held refl, (in_range fired refl, tt)))

first_hour : (hourly_bucket 30 ≡ "1970-01-01-00") × (hourly_bucket 60 ≡ "1970-01-01-00")
unfolding hourly_bucket hour_text date_of_days padded decimal concat join
first_hour = (refl, refl)

hourlies-le-one_example : hourlies config (held ∷ fired ∷ []) active ≤ 1
hourlies-le-one_example =
    hourlies-le-one config "1970-01-01-00" (held ∷ fired ∷ []) active
      (first_hour.0, (first_hour.1, tt))

transition_owns_hour_example :
    ((decide config fired entered).composition_update ≡ false)
    × ((decide config fired entered).hourly_update ≡ false)
    × (hourlies config (fired ∷ []) (next config fired entered) ≡ 0)
transition_owns_hour_example =
    transition_owns_hour config fired (fired ∷ []) entered entered_fires (refl, tt)

abbrev two_coins : QualifyingSet
two_coins =
    record { base_coin = "BTC"; representative = value "BTC" "BTCUSDT" 9; others = [] }
    ∷ record { base_coin = "ETH"; representative = value "ETH" "ETHUSDT" 9; others = [] }
    ∷ []

process-Outcome_example :
    let (d, state) = evaluate config two_coins 60 active_db in
    let (written, r) = process formats config two_coins 60 61 active_db in
    Outcome d state 61 active_db (prepare formats config two_coins 60 d) written r
process-Outcome_example = process-Outcome formats config two_coins 60 61 active_db

update_due : (evaluate no_cooldown two_coins 60 active_db).0.composition_update ≡ true
unfolding classify_state start_pending finish_pending active_step range_step hourly_step evaluate_as
    evaluate_state maybe_composition_update hourly_bucket hour_text evaluate load fingerprint sorted
update_due = refl

process_zero_cooldown_example :
    process formats no_cooldown two_coins 60 61 active_db ≡ (active_db, err zero_division_error)
process_zero_cooldown_example =
    process_zero_cooldown formats no_cooldown two_coins 60 61 active_db refl update_due
