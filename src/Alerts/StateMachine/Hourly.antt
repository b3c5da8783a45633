-- ===== src/Alerts/StateMachine/Hourly.antt =====
-- The hourly messages, over sequences of cycles.
use text.Mathlib.TextPositions.{eq_refl}
use bybit_crypto_monitor_tel.Base.{
  ℕ, ◌+◌, ◌≤◌, ◌≡◌, inl, inr, refl, ◌∙◌, ap, Bool, true, false, some, String, List, [], ◌∷◌, arith,
  All, String_eq, some_eq,
}
use bybit_crypto_monitor_tel.Config.{Settings}
use bybit_crypto_monitor_tel.Persistence.Tables.{AlertState}
use bybit_crypto_monitor_tel.Alerts.StateMachine.{hourly_bucket}
use bybit_crypto_monitor_tel.Alerts.StateMachine.Steps.{stable, waiting, fires}
use bybit_crypto_monitor_tel.Alerts.StateMachine.Marks.{Hourly, kept, emitted}
use bybit_crypto_monitor_tel.Alerts.StateMachine.Cycles.{
  Cycle, decide, next, InRange-Active, InRange-Hourly, out_of_range, range_cases, cycle_state,
}

abbrev one_if : Bool → ℕ
one_if true = 1
one_if false = 0

-- The cycles lie in one UTC hour.
abbrev pub InHour : String → List Cycle → Type 0
InHour hour = All (λ c. hourly_bucket c.now ≡ hour)

module _ (config : Settings) where
  -- The number of hourly messages that a sequence of cycles sends.
  pub hourlies : List Cycle → AlertState → ℕ
  hourlies [] s = 0
  hourlies (c ∷ cs) s = one_if (decide config c s).hourly_update + hourlies cs (next config c s)

  -- A cycle either says nothing and keeps the mark or sets it, or sends and sets it.
  Hourly-cases : (c : Cycle) (s : AlertState) → Hourly c.now s (decide config c s) (next config c s)
  Hourly-cases c s = elim (range_cases (cycle_state config c)) [
    | inl here ↦ InRange-Hourly config c s here
    | inr outside ↦ let w = out_of_range config c s outside in kept w.quiet.2 (inl w.bucket)
  ]

  hourlies_owned :
      (hour : String) (cs : List Cycle) (s : AlertState)
      → s.last_hourly_bucket ≡ some hour
      → InHour hour cs
      → hourlies cs s ≡ 0
  unfolding hourlies
  hourlies_owned hour [] s e h = refl
  hourlies_owned hour (c ∷ cs) s e h = elim (Hourly-cases c s) [
    | kept silent (inl same) ↦
        rw silent (omega (arith, hourlies_owned hour cs (next config c s) (same ∙ e) h.1))
    | kept silent (inr owned) ↦
        rw silent
          (omega (arith, hourlies_owned hour cs (next config c s) (owned ∙ ap some h.0) h.1))
    | emitted news owned ↦ cc (
      ap (λ o. some_eq o (hourly_bucket c.now)) e,
      ap (λ b. some_eq (some hour) b) h.0,
      eq_refl hour,
    )
  ]

  -- In one UTC hour at most one hourly message goes out, from any state and in any sequence of
  -- market cycles.
  pub hourlies-le-one :
      (hour : String) (cs : List Cycle) (s : AlertState) → InHour hour cs → hourlies cs s ≤ 1
  unfolding hourlies
  hourlies-le-one hour [] s h = omega arith
  hourlies-le-one hour (c ∷ cs) s h = elim (Hourly-cases c s) [
    | kept silent _ ↦ rw silent (omega (arith, hourlies-le-one hour cs (next config c s) h.1))
    | emitted news owned ↦
        ground (arith, hourlies_owned hour cs (next config c s) (owned ∙ ap some h.0) h.1)
  ]

  -- A live transition goes out without a composition or an hourly message in its cycle, and no
  -- hourly message follows it in its UTC hour.
  pub transition_owns_hour :
      (c : Cycle) (cs : List Cycle) (s : AlertState)
      → (decide config c s).live_transition ≡ true
      → InHour (hourly_bucket c.now) cs
      → ((decide config c s).composition_update ≡ false)
        × ((decide config c s).hourly_update ≡ false)
        × (hourlies cs (next config c s) ≡ 0)
  transition_owns_hour c cs s live h = elim (range_cases (cycle_state config c)) [
    | inl here ↦ elim (InRange-Active config c s here) [
      | stable _ silent _ ↦ cc
      | waiting _ _ _ quiet _ ↦ cc (quiet.0)
      | fires _ _ _ _ alone _ owned ↦ (
        (alone live).0,
        (alone live).1,
        hourlies_owned (hourly_bucket c.now) cs (next config c s) (owned live) h,
      )
    ]
    | inr outside ↦ cc ((out_of_range config c s outside).quiet.0)
  ]
