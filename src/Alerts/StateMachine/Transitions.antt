-- ===== src/Alerts/StateMachine/Transitions.antt =====
-- When live transitions go out, and how often.
use bybit_crypto_monitor_tel.Base.{
  ℕ, ◌+◌, ◌≤◌, ◌<◌, ◌≡◌, ◌≢◌, refl, sym, ◌∙◌, Bool, true, false, none, some, List, [], ◌∷◌, arith,
  All, leb→le,
}
use bybit_crypto_monitor_tel.Config.{Settings, whole_seconds}
use bybit_crypto_monitor_tel.Persistence.Tables.{active_range, AlertState}
use bybit_crypto_monitor_tel.Alerts.StateMachine.{start_pending}
use bybit_crypto_monitor_tel.Alerts.StateMachine.Steps.{
  stable, waiting, fires, start_pending-running, start_pending-entry, start_pending-none,
}
use bybit_crypto_monitor_tel.Alerts.StateMachine.Cycles.{
  Cycle, InRange, decide, next, run, next-state, InRange-Active,
}

abbrev pub deadline : Settings → ℕ → ℕ
deadline config t = t + whole_seconds config.alert_debounce_seconds

module _ (config : Settings) where
  -- Before its deadline a debounce goes on.
  pending_step :
      (c : Cycle) (s : AlertState) (t : ℕ)
      → InRange config c
      → c.now < deadline config t
      → (start_pending s.state c.now s).pending_since ≡ some t
      → (next config c s).pending_since ≡ some t
  pending_step c s t here early e = elim (InRange-Active config c s here) [
    | stable idle _ _ ↦ cc
    | waiting u since _ _ kept ↦ kept ∙ sym since ∙ e
    | fires u since over _ _ _ _ ↦ ground (arith, leb→le _ _ over)
  ]

  pending_run :
      (cs : List Cycle) (s : AlertState) (t : ℕ)
      → s.pending_since ≡ some t
      → All (λ c. InRange config c × (c.now < deadline config t)) cs
      → (run config cs s).pending_since ≡ some t
  unfolding run
  pending_run [] s t e h = e
  pending_run (c ∷ cs) s t e h =
      pending_run cs (next config c s) t
        (pending_step c s t h.0.0 h.0.1 (start_pending-running s.state c.now t s e)) h.1

  -- If transitions are on, the stored state is outside the range and no debounce is running, then
  -- entering the range and staying in it sends the transition at the first cycle that is at least
  -- the debounce time after the entry, however many cycles before that time lie between.
  pub transition_fires :
      (s : AlertState) (entry : Cycle) (between : List Cycle) (c : Cycle)
      → config.immediate_transition_alerts ≡ true
      → s.state ≢ active_range
      → s.pending_since ≡ none
      → All (λ x. InRange config x × (x.now < deadline config entry.now)) (entry ∷ between)
      → InRange config c
      → deadline config entry.now ≤ c.now
      → (decide config c (run config (entry ∷ between) s)).live_transition ≡ true
  unfolding run
  transition_fires s entry between c wanted outside idle early here late =
      let w = run config between (next config entry s) in
      let since : w.pending_since ≡ some entry.now =
        pending_run between (next config entry s) entry.now
          (pending_step entry s entry.now early.0.0 early.0.1
            (start_pending-entry s.state entry.now s outside idle))
          early.1 in
      let started = start_pending-running w.state c.now entry.now w since in
      elim (InRange-Active config c w here) [
        | stable none_now _ _ ↦ cc
        | waiting u since_u running _ _ ↦ ground (arith, started)
        | fires u _ _ live _ _ _ ↦ live ∙ wanted
      ]

  abbrev one_if : Bool → ℕ
  one_if true = 1
  one_if false = 0

  -- The number of live transitions that a sequence of cycles sends.
  pub lives : List Cycle → AlertState → ℕ
  lives [] s = 0
  lives (c ∷ cs) s = one_if (decide config c s).live_transition + lives cs (next config c s)

  lives_settled :
      (cs : List Cycle) (s : AlertState)
      → s.state ≡ active_range
      → s.pending_since ≡ none
      → All (InRange config) cs
      → lives cs s ≡ 0
  unfolding lives
  lives_settled [] s a e h = refl
  lives_settled (c ∷ cs) s a e h = elim (InRange-Active config c s h.0) [
    | stable _ silent gone ↦
        rw silent
          (omega (arith, lives_settled cs (next config c s) (next-state config c s ∙ h.0) gone h.1))
    | waiting u since _ _ _ ↦ cc (a, start_pending-none c.now s e)
    | fires u since _ _ _ _ _ ↦ cc (a, start_pending-none c.now s e)
  ]

  -- An unbroken stay in the range sends at most one live transition, from any state.
  pub lives-le-one : (cs : List Cycle) (s : AlertState) → All (InRange config) cs → lives cs s ≤ 1
  unfolding lives
  lives-le-one [] s h = omega arith
  lives-le-one (c ∷ cs) s h = elim (InRange-Active config c s h.0) [
    | stable _ silent _ ↦ rw silent (omega (arith, lives-le-one cs (next config c s) h.1))
    | waiting _ _ _ quiet _ ↦ rw (quiet.0) (omega (arith, lives-le-one cs (next config c s) h.1))
    | fires _ _ _ live _ gone _ ↦
        ground (arith, lives_settled cs (next config c s) (next-state config c s ∙ h.0) gone h.1)
  ]
