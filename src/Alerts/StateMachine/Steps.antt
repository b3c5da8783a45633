-- ===== src/Alerts/StateMachine/Steps.antt =====
-- The parts of one evaluation, each by its effect.
use bybit_crypto_monitor_tel.Base.{
  ℕ, ◌≡◌, ◌≢◌, refl, ◌∙◌, ◌⊎◌, inl, inr, Bool, true, false, Option, none, some, String, List, arith,
  String_eq, some_eq, if◌then◌else◌, Bool-cases,
}
use bybit_crypto_monitor_tel.Config.{Settings}
use bybit_crypto_monitor_tel.Persistence.Tables.{State, empty, active_range, over_range, AlertState}
use bybit_crypto_monitor_tel.Alerts.StateMachine.{
  AlertDecision, Draft, hourly_bucket, debounced, maybe_composition_update, start_pending,
  finish_pending, active_step, range_step, hourly_step, evaluate_as,
}

-- A decision that sends nothing yet.
abbrev pub IsQuiet : AlertDecision → Type 0
IsQuiet d = (d.live_transition ≡ false) × (d.composition_update ≡ false) × (d.hourly_update ≡ false)

-- No debounce runs: only a composition update may be added, and it leaves the rest alone.
pub active_step-stable :
    (config : Settings) (prev : State) (now : ℕ) (d : AlertDecision) (s : AlertState)
    → IsQuiet d
    → let (e, t) = active_step config prev now none (d, s) in
      (e.live_transition ≡ false)
      × (e.hourly_update ≡ false)
      × (t.pending_since ≡ s.pending_since)
      × (t.last_hourly_bucket ≡ s.last_hourly_bucket)
unfolding active_step maybe_composition_update
active_step-stable config prev now d s q = ground arith

-- A debounce runs and is not over: the draft stays as it is.
pub active_step-waiting :
    (config : Settings) (prev : State) (now since : ℕ) (w : Draft)
    → debounced config since now ≡ false
    → active_step config prev now (some since) w ≡ w
unfolding active_step
active_step-waiting config prev now since w h = rw h refl

-- A debounce is over: the transition is sent if the settings want it, and the debounce is cleared.
pub active_step-fires :
    (config : Settings) (prev : State) (now since : ℕ) (d : AlertDecision) (s : AlertState)
    → IsQuiet d
    → debounced config since now ≡ true
    → let (e, t) = active_step config prev now (some since) (d, s) in
      (e.live_transition ≡ config.immediate_transition_alerts)
      × (e.composition_update ≡ false)
      × (e.hourly_update ≡ false)
      × (t.pending_since ≡ none)
      × (t.last_hourly_bucket ≡ (
          if config.immediate_transition_alerts
          then some (hourly_bucket now)
          else s.last_hourly_bucket))
unfolding active_step finish_pending
active_step-fires config prev now since d s q h = rw h (ground arith)

-- The hourly step only adds the hourly update, and only in a stable range.
pub hourly_step-keeps :
    (config : Settings) (new : State) (now : ℕ) (d : AlertDecision) (s : AlertState)
    → let (e, t) = hourly_step config new now (d, s) in
      (e.live_transition ≡ d.live_transition)
      × (e.composition_update ≡ d.composition_update)
      × (t.pending_since ≡ s.pending_since)
      × (t.last_composition_at ≡ s.last_composition_at)
unfolding hourly_step
hourly_step-keeps config new now d s = ground arith

pub hourly_step-emits :
    (config : Settings) (new : State) (now : ℕ) (d : AlertDecision) (s : AlertState)
    → d.hourly_update ≡ false
    → let (e, t) = hourly_step config new now (d, s) in
      ((e.hourly_update ≡ false) × (t.last_hourly_bucket ≡ s.last_hourly_bucket))
      ⊎ ((e.hourly_update ≡ true)
          × (d.live_transition ≡ false)
          × (new ≡ active_range)
          × (s.pending_since ≡ none)
          × (some_eq s.last_hourly_bucket (hourly_bucket now) ≡ false)
          × (t.last_hourly_bucket ≡ some (hourly_bucket now)))
unfolding hourly_step
hourly_step-emits config empty now d s q = inl (q, refl)
hourly_step-emits config over_range now d s q = inl (q, refl)
hourly_step-emits config active_range now d s q = ground arith

hourly_step-live :
    (config : Settings) (new : State) (now : ℕ) (d : AlertDecision) (s : AlertState)
    → d.hourly_update ≡ false
    → let (e, t) = hourly_step config new now (d, s) in
      e.live_transition ≡ true
      → (e.hourly_update ≡ false) × (t.last_hourly_bucket ≡ s.last_hourly_bucket)
unfolding hourly_step
hourly_step-live config new now d s q live = ground arith

owned_bucket :
    (immediate live : Bool) (b old : Option String)
    → live ≡ immediate
    → live ≡ true
    → (if immediate then b else old) ≡ b
owned_bucket immediate live b old e h = ground arith

abbrev pub quiet_decision : State → ℕ → List String → AlertDecision
quiet_decision new_state n coins = record {
  state = new_state;
  qualifying_count = n;
  fingerprint = coins;
  live_transition = false;
  composition_update = false;
  hourly_update = false;
  transition_reason = "";
}

-- A transition goes out alone.
abbrev pub IsSingle : AlertDecision → Type 0
IsSingle d = d.live_transition ≡ true → (d.composition_update ≡ false) × (d.hourly_update ≡ false)

-- What an evaluation in the range does, by the debounce that runs in it.
pub data Active (config : Settings) (now : ℕ) (s : AlertState) (d : AlertDecision) (t : AlertState)
    : Type 0 where
  stable :
      (start_pending s.state now s).pending_since ≡ none
      → d.live_transition ≡ false
      → t.pending_since ≡ none
      → Active config now s d t
  waiting :
      (since : ℕ)
      → (start_pending s.state now s).pending_since ≡ some since
      → debounced config since now ≡ false
      → IsQuiet d
      → t.pending_since ≡ some since
      → Active config now s d t
  fires :
      (since : ℕ)
      → (start_pending s.state now s).pending_since ≡ some since
      → debounced config since now ≡ true
      → d.live_transition ≡ config.immediate_transition_alerts
      → IsSingle d
      → t.pending_since ≡ none
      → (d.live_transition ≡ true → t.last_hourly_bucket ≡ some (hourly_bucket now))
      → Active config now s d t

module _ (config : Settings) (n : ℕ) (coins : List String) (now : ℕ) (s : AlertState) where
  abbrev started : AlertState
  started = start_pending s.state now s

  abbrev quiet : AlertDecision
  quiet = quiet_decision active_range n coins

  Active-at :
      (o : Option ℕ)
      → started.pending_since ≡ o
      → let w = active_step config s.state now o (quiet, started) in
        let (d, t) = hourly_step config active_range now w in
        Active config now s d
          (record t { state = active_range; fingerprint = coins; updated_at = now })
  Active-at none e =
      let w = active_step config s.state now none (quiet, started) in
      let f = active_step-stable config s.state now quiet started (refl, refl, refl) in
      let k = hourly_step-keeps config active_range now w.0 w.1 in
      stable e (k.0 ∙ f.0) (k.2 ∙ f.2 ∙ e)
  Active-at (some since) e = elim (Bool-cases (debounced config since now)) [
    | inl over ↦
        let w = active_step config s.state now (some since) (quiet, started) in
        let f = active_step-fires config s.state now since quiet started (refl, refl, refl) over in
        let k = hourly_step-keeps config active_range now w.0 w.1 in
        let m = hourly_step-live config active_range now w.0 w.1 f.2 in
        fires since e over (k.0 ∙ f.0) (λ live. (k.1 ∙ f.1, (m live).0)) (k.2 ∙ f.3)
          (λ live.
            (m live).1
            ∙ f.4
            ∙ owned_bucket config.immediate_transition_alerts _ (some (hourly_bucket now))
                started.last_hourly_bucket (k.0 ∙ f.0) live)
    | inr running ↦ rw (active_step-waiting config s.state now since (quiet, started) running) (
        let k = hourly_step-keeps config active_range now quiet started in
        let m = hourly_step-emits config active_range now quiet started refl in
        waiting since e running (k.0, k.1, ground (arith, m, e)) (k.2 ∙ e))
  ]

  pub evaluate_as-Active :
      let (d, t) = evaluate_as config active_range n coins now s in Active config now s d t
  unfolding evaluate_as range_step
  evaluate_as-Active = Active-at started.pending_since refl

-- What the debounce of a step starts from.
pub start_pending-some :
    (prev : State) (now since : ℕ) (s : AlertState)
    → (start_pending prev now s).pending_since ≡ some since
    → (s.pending_since ≡ some since) ⊎ ((s.pending_since ≡ none) × (since ≡ now))
unfolding start_pending
start_pending-some prev now since s h = ground arith

pub start_pending-running :
    (prev : State) (now since : ℕ) (s : AlertState)
    → s.pending_since ≡ some since
    → (start_pending prev now s).pending_since ≡ some since
unfolding start_pending
start_pending-running prev now since s h = ground arith

pub start_pending-entry :
    (prev : State) (now : ℕ) (s : AlertState)
    → prev ≢ active_range
    → s.pending_since ≡ none
    → (start_pending prev now s).pending_since ≡ some now
unfolding start_pending
start_pending-entry prev now s h e = ground arith

pub start_pending-none :
    (now : ℕ) (s : AlertState)
    → s.pending_since ≡ none
    → (start_pending active_range now s).pending_since ≡ none
unfolding start_pending
start_pending-none now s e = ground arith
