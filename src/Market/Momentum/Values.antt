-- ===== src/Market/Momentum/Values.antt =====
-- What an evaluation gives for each market.
use bybit_crypto_monitor_tel.Base.{
  ℕ, ◌≡◌, ◌≢◌, ◌⊎◌, refl, sym, ◌∙◌, ap, Bool, true, false, Option, none, some, List, [], ◌∷◌, ◌==◌,
  String_eq, pair_eq, Bool-cases, Option-cases, inl, inr, keep, is_some, ◌&&◌, if◌then◌else◌,
}
use bybit_crypto_monitor_tel.Base.Float.{Float}
use bybit_crypto_monitor_tel.Base.Dict.{Dict, get}
use bybit_crypto_monitor_tel.Config.{Settings}
use bybit_crypto_monitor_tel.Bybit.Models.{Identity, Instrument, identity, Ticker}
use bybit_crypto_monitor_tel.Market.Value.{Status, MomentumValue}
use bybit_crypto_monitor_tel.Market.Discovery.{identities}
use bybit_crypto_monitor_tel.Market.Momentum.{
  SpotHistory, record_price, find_anchor, base_value, with_change, spot_value, has_price,
  is_positive, evaluate, evaluate_all, is_supported, ticker_for, cons_value,
}

-- The status says whether there is a change.
abbrev pub Agrees : MomentumValue → Type 0
Agrees v =
    ((v.status ≡ Status.ok) × ((change : Float) × (v.change_1h ≡ some change)))
    ⊎ ((v.status ≢ Status.ok) × (v.change_1h ≡ none))

module _ (raw_change : Float → Float → Float) where
  with_change-Agrees :
      (otherwise : Status) (change : Option Float) (v : MomentumValue)
      → otherwise ≢ Status.ok
      → v.change_1h ≡ none
      → Agrees (with_change raw_change otherwise change v)
  with_change-Agrees otherwise none v h k = inr (h, k)
  with_change-Agrees otherwise (some change) v h k = inl (refl, (change, refl))

  spot_value-Agrees :
      (last anchor : Option Float) (v : MomentumValue)
      → v.change_1h ≡ none
      → Agrees (spot_value raw_change last anchor v)
  spot_value-Agrees last none v k = inr (λ e. cc, k)
  spot_value-Agrees last (some anchor) v k = elim (Bool-cases (is_positive anchor)) [
    | inl good ↦ rw good (with_change-Agrees Status.warming_up _ v (λ e. cc) k)
    | inr bad ↦ rw bad (inr (λ e. cc, k))
  ]

  module _ (config : Settings) (i : Instrument) (t : Ticker) (now : ℕ) (h : SpotHistory) where
    value_if :
        (priced linear : Bool) (recorded : SpotHistory) (a b : MomentumValue)
        → Agrees a
        → Agrees b
        → let r : SpotHistory × MomentumValue =
            if priced
            then if linear then (h, a) else (recorded, b)
            else (h, base_value raw_change i t) in
          Agrees r.1
    value_if true true recorded a b p q = p
    value_if true false recorded a b p q = q
    value_if false linear recorded a b p q = inr (λ e. cc, refl)

    -- A market has the status OK exactly when it has a change.
    pub evaluate-Agrees : Agrees (evaluate raw_change config i t now h).1
    unfolding evaluate
    evaluate-Agrees =
        let base = base_value raw_change i t in
        let recorded = (record_price config i.category i.symbol now t.last_price h).0 in
        value_if (has_price raw_change t.last_price) (i.category == "linear") recorded _ _
          (with_change-Agrees Status.no_data _ base (λ e. cc) refl)
          (spot_value-Agrees t.last_price (find_anchor config i.category i.symbol now recorded) base
            refl)

abbrev pub value_identity : MomentumValue → Identity
value_identity v = (v.category, v.symbol)

abbrev pub value_identities : List MomentumValue → List Identity
value_identities [] = []
value_identities (v ∷ vs) = value_identity v ∷ value_identities vs

abbrev pub is_evaluated : Settings → Dict Identity Ticker → Instrument → Bool
is_evaluated config snapshot i = is_supported config i && is_some (get (identity i) snapshot)

module _ (raw_change : Float → Float → Float) where
  with_change-identity :
      (otherwise : Status) (change : Option Float) (v : MomentumValue)
      → value_identity (with_change raw_change otherwise change v) ≡ value_identity v
  with_change-identity otherwise none v = refl
  with_change-identity otherwise (some change) v = refl

  spot_value-identity :
      (last anchor : Option Float) (v : MomentumValue)
      → value_identity (spot_value raw_change last anchor v) ≡ value_identity v
  spot_value-identity last none v = refl
  spot_value-identity last (some anchor) v = elim (Bool-cases (is_positive anchor)) [
    | inl good ↦ rw good (with_change-identity Status.warming_up _ v)
    | inr bad ↦ rw bad refl
  ]

  identity_if :
      (i : Instrument) (priced linear : Bool) (h recorded : SpotHistory) (a b c : MomentumValue)
      → value_identity a ≡ identity i
      → value_identity b ≡ identity i
      → value_identity c ≡ identity i
      → let r : SpotHistory × MomentumValue =
          if priced then if linear then (h, a) else (recorded, b) else (h, c) in
        value_identity r.1 ≡ identity i
  identity_if i true true h recorded a b c p q r = p
  identity_if i true false h recorded a b c p q r = q
  identity_if i false linear h recorded a b c p q r = r

  evaluate-identity :
      (config : Settings) (i : Instrument) (t : Ticker) (now : ℕ) (h : SpotHistory)
      → value_identity (evaluate raw_change config i t now h).1 ≡ identity i
  unfolding evaluate
  evaluate-identity config i t now h =
      let base = base_value raw_change i t in
      let recorded = (record_price config i.category i.symbol now t.last_price h).0 in
      identity_if i (has_price raw_change t.last_price) (i.category == "linear") h recorded _ _ base
        (with_change-identity Status.no_data _ base)
        (spot_value-identity t.last_price (find_anchor config i.category i.symbol now recorded)
          base)
        refl

  is_some-ticker_for :
      (config : Settings) (snapshot : Dict Identity Ticker) (i : Instrument)
      → is_some (ticker_for config snapshot i) ≡ is_evaluated config snapshot i
  is_some-ticker_for config snapshot i = elim (Bool-cases (is_supported config i)) [
    | inl good ↦ rw good refl
    | inr bad ↦ rw bad refl
  ]

  abbrev then_evaluate :
      Settings
      → Dict Identity Ticker
      → Instrument
      → List Instrument
      → ℕ
      → SpotHistory
      → Option Ticker
      → SpotHistory × List MomentumValue
  then_evaluate config snapshot i is now h o = elim o [
    | none ↦ evaluate_all raw_change config snapshot is now h
    | some t ↦
        let one = evaluate raw_change config i t now h in
        cons_value raw_change one (evaluate_all raw_change config snapshot is now one.0)
  ]

  evaluate_all-step :
      (config : Settings) (snapshot : Dict Identity Ticker) (i : Instrument) (is : List Instrument)
      (now : ℕ) (h : SpotHistory) (o : Option Ticker)
      → ticker_for config snapshot i ≡ o
      → evaluate_all raw_change config snapshot (i ∷ is) now h
        ≡ then_evaluate config snapshot i is now h o
  unfolding evaluate_all
  evaluate_all-step config snapshot i is now h o e = ap (then_evaluate config snapshot i is now h) e

  -- The values of a round are those of the supported instruments that have a ticker, one for each
  -- and in their order, whatever the history.
  evaluate_all-identities :
      (config : Settings) (snapshot : Dict Identity Ticker) (instruments : List Instrument)
      (now : ℕ) (h : SpotHistory)
      → value_identities (evaluate_all raw_change config snapshot instruments now h).1
        ≡ identities (keep (is_evaluated config snapshot) instruments)
  unfolding evaluate_all
  evaluate_all-identities config snapshot [] now h = refl
  evaluate_all-identities config snapshot (i ∷ is) now h =
      elim (Option-cases (ticker_for config snapshot i)) [
        | inl absent ↦
            let out : is_evaluated config snapshot i ≡ false =
              sym (is_some-ticker_for config snapshot i) ∙ ap is_some absent in
            ap (λ r. value_identities r.1)
              (evaluate_all-step config snapshot i is now h none absent)
            ∙ rw out (evaluate_all-identities config snapshot is now h)
        | inr (t, there) ↦
            let inside : is_evaluated config snapshot i ≡ true =
              sym (is_some-ticker_for config snapshot i) ∙ ap is_some there in
            let next = (evaluate raw_change config i t now h).0 in
            ap (λ r. value_identities r.1)
              (evaluate_all-step config snapshot i is now h (some t) there)
            ∙ rw inside (
                ap
                  (λ k.
                    k ∷ value_identities (evaluate_all raw_change config snapshot is now next).1)
                  (evaluate-identity config i t now h)
                ∙ ap (◌∷◌ (identity i)) (evaluate_all-identities config snapshot is now next))
      ]
