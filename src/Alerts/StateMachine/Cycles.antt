-- ===== src/Alerts/StateMachine/Cycles.antt =====
-- Market cycles, and the policy run over a sequence of them.
use bybit_crypto_monitor_tel.Base.{
  ℕ, ◌≡◌, ◌≢◌, ◌⊎◌, inl, inr, refl, sym, subst, String, List, [], ◌∷◌,
}
use bybit_crypto_monitor_tel.Config.{Settings}
use bybit_crypto_monitor_tel.Persistence.Tables.{State, empty, active_range, over_range, AlertState}
use bybit_crypto_monitor_tel.Alerts.StateMachine.{
  classify_state, AlertDecision, evaluate_as, evaluate_state,
}
use bybit_crypto_monitor_tel.Alerts.StateMachine.Steps.{Active, evaluate_as-Active}
use bybit_crypto_monitor_tel.Alerts.StateMachine.Marks.{
  Hourly, evaluate_as-Hourly, Silent, evaluate_as-Silent,
}

-- What one call of `evaluate` sees: the number of coins, the sorted coins, the time.
pub record Cycle : Type 0 where
  pub coins : ℕ
  pub fingerprint : List String
  pub now : ℕ

abbrev pub cycle_state : Settings → Cycle → State
cycle_state config c =
    classify_state c.coins config.min_qualifying_coins config.max_qualifying_coins

abbrev pub decide : Settings → Cycle → AlertState → AlertDecision
decide config c s = (evaluate_state config c.coins c.fingerprint c.now s).0

abbrev pub next : Settings → Cycle → AlertState → AlertState
next config c s = (evaluate_state config c.coins c.fingerprint c.now s).1

-- The cycles in the order in which they happen.
unfoldable pub run : Settings → List Cycle → AlertState → AlertState
run config [] s = s
run config (c ∷ cs) s = run config cs (next config c s)

abbrev pub InRange : Settings → Cycle → Type 0
InRange config c = cycle_state config c ≡ active_range

-- The state after a cycle is the one that the count gives.
pub next-state :
    (config : Settings) (c : Cycle) (s : AlertState)
    → (next config c s).state ≡ cycle_state config c
unfolding evaluate_state evaluate_as
next-state config c s = refl

pub InRange-Active :
    (config : Settings) (c : Cycle) (s : AlertState)
    → InRange config c
    → Active config c.now s (decide config c s) (next config c s)
unfolding evaluate_state
InRange-Active config c s h =
    subst
      (λ n.
        let w = evaluate_as config n c.coins c.fingerprint c.now s in Active config c.now s w.0 w.1)
      (sym h) (evaluate_as-Active config c.coins c.fingerprint c.now s)

pub InRange-Hourly :
    (config : Settings) (c : Cycle) (s : AlertState)
    → InRange config c
    → Hourly c.now s (decide config c s) (next config c s)
unfolding evaluate_state
InRange-Hourly config c s h =
    subst
      (λ n. let w = evaluate_as config n c.coins c.fingerprint c.now s in Hourly c.now s w.0 w.1)
      (sym h) (evaluate_as-Hourly config c.coins c.fingerprint c.now s)

pub out_of_range :
    (config : Settings) (c : Cycle) (s : AlertState)
    → cycle_state config c ≢ active_range
    → Silent s (decide config c s) (next config c s)
unfolding evaluate_state
out_of_range config c s h =
    evaluate_as-Silent config c.coins c.fingerprint c.now s (cycle_state config c) h

-- A cycle is in the range or not.
pub range_cases : (s : State) → (s ≡ active_range) ⊎ (s ≢ active_range)
range_cases empty = inr (λ e. cc)
range_cases over_range = inr (λ e. cc)
range_cases active_range = inl refl
