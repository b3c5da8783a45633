-- ===== src/Alerts/StateMachine/Marks.antt =====
-- What one evaluation does outside the range, and to the mark of the last hourly message.
use bybit_crypto_monitor_tel.Base.{
  ℕ, ◌≡◌, ◌≢◌, refl, ◌∙◌, ap, ◌⊎◌, inl, inr, false, Option, none, some, String, List, arith,
  String_eq, some_eq,
}
use text.Mathlib.TextPositions.{eq_refl}
use bybit_crypto_monitor_tel.Config.{Settings}
use bybit_crypto_monitor_tel.Persistence.Tables.{State, empty, active_range, over_range, AlertState}
use bybit_crypto_monitor_tel.Alerts.StateMachine.{
  AlertDecision, hourly_bucket, maybe_composition_update, start_pending, finish_pending,
  active_step, range_step, hourly_step, evaluate_as,
}
use bybit_crypto_monitor_tel.Alerts.StateMachine.Steps.{IsQuiet, hourly_step-emits, quiet_decision}

-- Nothing is sent, a running debounce is cancelled, and the marks of earlier messages stay.
pub record Silent (s : AlertState) (d : AlertDecision) (t : AlertState) : Type 0 where
  pub quiet : IsQuiet d
  pub cancelled : t.pending_since ≡ none
  pub bucket : t.last_hourly_bucket ≡ s.last_hourly_bucket
  pub composition_at : t.last_composition_at ≡ s.last_composition_at

pub evaluate_as-Silent :
    (config : Settings) (n : ℕ) (coins : List String) (now : ℕ) (s : AlertState) (new_state : State)
    → new_state ≢ active_range
    → let (d, t) = evaluate_as config new_state n coins now s in Silent s d t
unfolding evaluate_as range_step hourly_step
evaluate_as-Silent config n coins now s active_range h = absurd (h refl)
evaluate_as-Silent config n coins now s empty h = record {
  quiet = (refl, refl, refl);
  cancelled = refl;
  bucket = refl;
  composition_at = refl;
}
evaluate_as-Silent config n coins now s over_range h = record {
  quiet = (refl, refl, refl);
  cancelled = refl;
  bucket = refl;
  composition_at = refl;
}

-- What the evaluation does to the mark of the last hourly message.
pub data Hourly (now : ℕ) (s : AlertState) (d : AlertDecision) (t : AlertState) : Type 0 where
  kept :
      d.hourly_update ≡ false
      → (t.last_hourly_bucket ≡ s.last_hourly_bucket)
        ⊎ (t.last_hourly_bucket ≡ some (hourly_bucket now))
      → Hourly now s d t
  emitted :
      some_eq s.last_hourly_bucket (hourly_bucket now) ≡ false
      → t.last_hourly_bucket ≡ some (hourly_bucket now)
      → Hourly now s d t

active_step-bucket :
    (config : Settings) (prev : State) (now : ℕ) (o : Option ℕ) (d : AlertDecision) (s : AlertState)
    → d.hourly_update ≡ false
    → let (e, t) = active_step config prev now o (d, s) in
      (e.hourly_update ≡ false)
      × ((t.last_hourly_bucket ≡ s.last_hourly_bucket)
          ⊎ (t.last_hourly_bucket ≡ some (hourly_bucket now)))
unfolding active_step maybe_composition_update finish_pending
active_step-bucket config prev now none d s q = ground arith
active_step-bucket config prev now (some since) d s q = ground arith

start_pending-bucket :
    (prev : State) (now : ℕ) (s : AlertState)
    → (start_pending prev now s).last_hourly_bucket ≡ s.last_hourly_bucket
unfolding start_pending
start_pending-bucket prev now s = ground arith

hourly_from :
    (now : ℕ) (old mid : Option String)
    → (mid ≡ old) ⊎ (mid ≡ some (hourly_bucket now))
    → some_eq mid (hourly_bucket now) ≡ false
    → some_eq old (hourly_bucket now) ≡ false
hourly_from now old mid (inl e) k = rw e at k
hourly_from now old mid (inr e) k =
    cc (ap (λ o. some_eq o (hourly_bucket now)) e, eq_refl (hourly_bucket now))

pub evaluate_as-Hourly :
    (config : Settings) (n : ℕ) (coins : List String) (now : ℕ) (s : AlertState)
    → let (d, t) = evaluate_as config active_range n coins now s in Hourly now s d t
unfolding evaluate_as range_step
evaluate_as-Hourly config n coins now s =
    let started = start_pending s.state now s in
    let w =
      active_step config s.state now started.pending_since
        (quiet_decision active_range n coins, started) in
    let b =
      active_step-bucket config s.state now started.pending_since
        (quiet_decision active_range n coins) started refl in
    let old = start_pending-bucket s.state now s in
    let mid : (w.1.last_hourly_bucket ≡ s.last_hourly_bucket)
        ⊎ (w.1.last_hourly_bucket ≡ some (hourly_bucket now)) =
      elim b.1 [ inl e ↦ inl (e ∙ old) | inr e ↦ inr e ] in
    elim (hourly_step-emits config active_range now w.0 w.1 b.0) [
      | inl (silent, same) ↦
          kept silent (elim mid [ inl e ↦ inl (same ∙ e) | inr e ↦ inr (same ∙ e) ])
      | inr (_, _, _, _, news, owned) ↦
          emitted (hourly_from now s.last_hourly_bucket w.1.last_hourly_bucket mid news) owned
    ]
