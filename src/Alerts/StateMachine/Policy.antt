-- ===== src/Alerts/StateMachine/Policy.antt =====
-- What one evaluation may send.
use bybit_crypto_monitor_tel.Base.{
  ℕ, ◌+◌, ◌≤◌, ◌≡◌, ◌⊎◌, inl, inr, refl, sym, subst, ◌∙◌, true, false, Option, none, some, String,
  List, arith,
}
use bybit_crypto_monitor_tel.Config.{Settings, whole_seconds}
use bybit_crypto_monitor_tel.Persistence.Tables.{State, active_range, AlertState}
use bybit_crypto_monitor_tel.Alerts.StateMachine.{
  classify_state, AlertDecision, maybe_composition_update, start_pending, finish_pending,
  active_step, range_step, evaluate_as, evaluate_state,
}
use bybit_crypto_monitor_tel.Alerts.StateMachine.Steps.{quiet_decision, hourly_step-keeps}
use bybit_crypto_monitor_tel.Alerts.StateMachine.Cycles.{
  Cycle, decide, next, out_of_range, range_cases, cycle_state,
}

-- The classification by the bounds.
pub classify_state-bounds :
    (n lo hi : ℕ) → classify_state n lo hi ≡ active_range → (lo ≤ n) × (n ≤ hi)
unfolding classify_state
classify_state-bounds n lo hi h = ground arith

-- Some message is to be sent.
abbrev pub Sends : AlertDecision → Type 0
Sends d = (d.live_transition ≡ true) ⊎ (d.composition_update ≡ true) ⊎ (d.hourly_update ≡ true)

module _ (config : Settings) (c : Cycle) (s : AlertState) where
  -- Whatever the stored state, a message is sent only when the number of coins lies between the
  -- configured bounds.
  pub Sends-in_range :
      Sends (decide config c s)
      → (config.min_qualifying_coins ≤ c.coins) × (c.coins ≤ config.max_qualifying_coins)
  Sends-in_range sends = elim (range_cases (cycle_state config c)) [
    | inl here ↦
        classify_state-bounds c.coins config.min_qualifying_coins config.max_qualifying_coins here
    | inr outside ↦
        let w = out_of_range config c s outside in
        elim sends [
          | inl e ↦ cc (e, w.quiet.0)
          | inr (inl e) ↦ cc (e, w.quiet.1)
          | inr (inr e) ↦ cc (e, w.quiet.2)
        ]
  ]

-- A composition update is wanted, has waited for the cooldown, and marks its time.
abbrev Cooled : Settings → ℕ → Option ℕ → AlertDecision → AlertState → Type 0
Cooled config now last d t =
    d.composition_update ≡ true
    → (config.composition_change_alerts ≡ true)
      × ((last ≡ none)
          ⊎ ((at : ℕ) × (last ≡ some at)
              × (at + whole_seconds config.composition_change_cooldown_seconds ≤ now)))
      × (t.last_composition_at ≡ some now)

active_step-Cooled :
    (config : Settings) (prev : State) (now : ℕ) (o : Option ℕ) (d : AlertDecision) (s : AlertState)
    → d.composition_update ≡ false
    → let (e, t) = active_step config prev now o (d, s) in
      Cooled config now s.last_composition_at e t
unfolding active_step maybe_composition_update finish_pending
active_step-Cooled config prev now none d s q up = ground arith
active_step-Cooled config prev now (some since) d s q up = ground arith

start_pending-composition :
    (prev : State) (now : ℕ) (s : AlertState)
    → (start_pending prev now s).last_composition_at ≡ s.last_composition_at
unfolding start_pending
start_pending-composition prev now s = ground arith

evaluate_as-Cooled :
    (config : Settings) (n : ℕ) (coins : List String) (now : ℕ) (s : AlertState)
    → let (d, t) = evaluate_as config active_range n coins now s in
      Cooled config now s.last_composition_at d t
unfolding evaluate_as range_step
evaluate_as-Cooled config n coins now s up =
    let started = start_pending s.state now s in
    let quiet = quiet_decision active_range n coins in
    let w = active_step config s.state now started.pending_since (quiet, started) in
    let k = hourly_step-keeps config active_range now w.0 w.1 in
    let f =
      active_step-Cooled config s.state now started.pending_since quiet started refl
        (sym k.1 ∙ up) in
    (f.0, subst Waited (start_pending-composition s.state now s) f.1, k.3 ∙ f.2)
  where
    Waited : Option ℕ → Type 0
    Waited last =
        (last ≡ none)
        ⊎ ((at : ℕ) × (last ≡ some at)
            × (at + whole_seconds config.composition_change_cooldown_seconds ≤ now))

-- A composition update is sent only if the settings want it and at least the cooldown after the
-- last one, and it becomes the last one.
pub composition_spacing :
    (config : Settings) (c : Cycle) (s : AlertState)
    → (decide config c s).composition_update ≡ true
    → (config.composition_change_alerts ≡ true)
      × ((s.last_composition_at ≡ none)
          ⊎ ((at : ℕ) × (s.last_composition_at ≡ some at)
              × (at + whole_seconds config.composition_change_cooldown_seconds ≤ c.now)))
      × ((next config c s).last_composition_at ≡ some c.now)
unfolding evaluate_state
composition_spacing config c s = elim (range_cases (cycle_state config c)) [
  | inl here ↦
      subst
        (λ n.
          let w = evaluate_as config n c.coins c.fingerprint c.now s in
          Cooled config c.now s.last_composition_at w.0 w.1)
        (sym here) (evaluate_as-Cooled config c.coins c.fingerprint c.now s)
  | inr outside ↦ λ up. cc (up, (out_of_range config c s outside).quiet.1)
]
