-- ===== src/Alerts/StateMachine/Debounce.antt =====
-- The debounce of live transitions, over sequences of cycles.
use bybit_crypto_monitor_tel.Base.{
  ℕ, ◌+◌, ◌≤◌, ◌≡◌, ◌⊎◌, inl, inr, sym, ◌∙◌, true, some, List, [], ◌∷◌, leb→le,
}
use bybit_crypto_monitor_tel.Config.{Settings, whole_seconds}
use bybit_crypto_monitor_tel.Persistence.Tables.{AlertState}
use bybit_crypto_monitor_tel.Alerts.StateMachine.{initial_state, start_pending}
use bybit_crypto_monitor_tel.Alerts.StateMachine.Steps.{stable, waiting, fires, start_pending-some}
use bybit_crypto_monitor_tel.Alerts.StateMachine.Cycles.{
  Cycle, InRange, decide, next, InRange-Active, out_of_range, range_cases, cycle_state,
}

-- The states that a fresh database goes through, with the cycles behind them, the newest first.
pub data Reached (config : Settings) : List Cycle → AlertState → Type 0 where
  fresh : Reached config [] initial_state
  after :
      {log : List Cycle} {s : AlertState}
      → Reached config log s
      → (c : Cycle) → Reached config (c ∷ log) (next config c s)

-- The newest cycles are in the range without a gap, back to one at time `t`.
abbrev pub HeldSince : Settings → ℕ → List Cycle → Type 0
HeldSince config t [] = ⊥
HeldSince config t (c ∷ cs) = InRange config c × ((c.now ≡ t) ⊎ HeldSince config t cs)

module _ (config : Settings) where
  -- A step extends the stretch that its debounce was started by.
  held_step :
      (c : Cycle) (s : AlertState) (log : List Cycle) (t : ℕ)
      → InRange config c
      → ((u : ℕ) → s.pending_since ≡ some u → HeldSince config u log)
      → (start_pending s.state c.now s).pending_since ≡ some t
      → HeldSince config t (c ∷ log)
  held_step c s log t here held e = elim (start_pending-some s.state c.now t s e) [
    | inl old ↦ (here, inr (held t old))
    | inr new ↦ (here, inl (sym new.1))
  ]

  pending-HeldSince :
      {log : List Cycle} {s : AlertState}
      → Reached config log s
      → (t : ℕ) → s.pending_since ≡ some t
      → HeldSince config t log
  pending-HeldSince fresh t e = cc
  pending-HeldSince (after {log} {s} r c) t e = elim (range_cases (cycle_state config c)) [
    | inl here ↦ elim (InRange-Active config c s here) [
      | stable _ _ gone ↦ cc
      | waiting u old _ _ kept ↦ held_step c s log t here (pending-HeldSince r) (old ∙ sym kept ∙ e)
      | fires _ _ _ _ _ gone _ ↦ cc
    ]
    | inr outside ↦ cc ((out_of_range config c s outside).cancelled)
  ]

  -- In a history that starts with a fresh database, a live transition goes out only when the
  -- coins have stayed in the range, cycle by cycle, since a cycle at least the debounce time ago.
  pub live_after_debounce :
      {log : List Cycle} {s : AlertState} (c : Cycle)
      → Reached config log s
      → (decide config c s).live_transition ≡ true
      → (t : ℕ) × (t + whole_seconds config.alert_debounce_seconds ≤ c.now)
        × HeldSince config t (c ∷ log)
  live_after_debounce {log} {s} c r live = elim (range_cases (cycle_state config c)) [
    | inl here ↦ elim (InRange-Active config c s here) [
      | stable _ silent _ ↦ cc
      | waiting _ _ _ quiet _ ↦ cc (quiet.0)
      | fires t since over _ _ _ _ ↦
          (t, leb→le _ _ over, held_step c s log t here (pending-HeldSince r) since)
    ]
    | inr outside ↦ cc ((out_of_range config c s outside).quiet.0)
  ]
