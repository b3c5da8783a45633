-- ===== src/Config/Validation/Accepts.antt =====
-- What app/config.py: Settings._validate_ranges accepts.
use bybit_crypto_monitor_tel.Base.{
  ◌≡◌, ◌↔◌, refl, Bool, true, false, ◌||◌, not, String, List, [], ◌∷◌, All, All-map, arith,
}
use bybit_crypto_monitor_tel.Base.Int.{ℤ, pos, ltb_ℤ, leb_ℤ}
use bybit_crypto_monitor_tel.Base.Float.{Float, is_finite, float_lt, zero_float}
use bybit_crypto_monitor_tel.Base.Text.{concat}
use bybit_crypto_monitor_tel.Config.Validation.{
  numeric_non_negative, numeric_positive, Candidate, Verdict, accepted, raise_if,
  is_not_non_negative, is_not_positive, is_zero, check_all, validate_ranges,
}

-- A float that is finite and not below zero, or above zero.
abbrev pub IsNonNegative : Float → Type 0
IsNonNegative x = (is_finite x ≡ true) × (float_lt x zero_float ≡ false)

abbrev pub IsPositive : Float → Type 0
IsPositive x = (is_finite x ≡ true) × (float_lt zero_float x ≡ true)

-- What the program may rely on once the settings are loaded.
pub record IsValid (c : Candidate) : Type 0 where
  pub threshold : IsPositive c.alert_threshold_percent
  pub coins : leb_ℤ (pos 1) c.min_qualifying_coins ≡ true
  pub ordered : leb_ℤ c.min_qualifying_coins c.max_qualifying_coins ≡ true
  pub rest_retries : leb_ℤ (pos 0) c.rest_max_retries ≡ true
  pub telegram_retries : leb_ℤ (pos 0) c.telegram_max_retries ≡ true
  pub batch : leb_ℤ (pos 1) c.ws_subscribe_batch_size ≡ true
  pub non_negative : All (λ name. IsNonNegative (c.duration name)) numeric_non_negative
  pub positive : All (λ name. IsPositive (c.duration name)) numeric_positive
  pub universe : (c.enable_spot || (c.enable_linear_usdt || c.enable_linear_usdc)) ≡ true

raise_if-accepted :
    (wrong : Bool) (message : String) (next : Verdict)
    → (raise_if wrong message next ≡ accepted) ↔ ((wrong ≡ false) × (next ≡ accepted))
unfolding raise_if
raise_if-accepted true message next = (λ e. cc, λ e. cc)
raise_if-accepted false message next = (λ e. (refl, e), λ e. e.1)

check_all-accepted :
    (upper : String → String) (wrong : Float → Bool) (suffix : String) (duration : String → Float)
    (names : List String) (next : Verdict)
    → (check_all upper wrong suffix duration names next ≡ accepted)
      ↔ (All (λ name. wrong (duration name) ≡ false) names × (next ≡ accepted))
unfolding check_all
check_all-accepted upper wrong suffix duration [] next = (λ e. (tt, e), λ e. e.1)
check_all-accepted upper wrong suffix duration (name ∷ names) next =
    let (there, back) =
      raise_if-accepted (wrong (duration name)) (concat (upper name ∷ suffix ∷ []))
        (check_all upper wrong suffix duration names next) in
    let (inner, outer) = check_all-accepted upper wrong suffix duration names next in
    (
      λ e. let (fine, rest) = there e in let (all, last) = inner rest in ((fine, all), last),
      λ e. back (e.0.0, outer (e.0.1, e.1)),
    )

IsNonNegative-iff : (x : Float) → (is_not_non_negative x ≡ false) ↔ IsNonNegative x
IsNonNegative-iff x = (λ e. ground arith, λ e. ground arith)

IsPositive-iff : (x : Float) → (is_not_positive x ≡ false) ↔ IsPositive x
IsPositive-iff x = (λ e. ground arith, λ e. ground arith)

-- The qualifying counts: three of the tests together.
counts_iff :
    (low high : ℤ)
    → ((ltb_ℤ low (pos 0) ≡ false)
        × (ltb_ℤ high low ≡ false)
        × ((is_zero low || is_zero high) ≡ false))
      ↔ ((leb_ℤ (pos 1) low ≡ true) × (leb_ℤ low high ≡ true))
counts_iff low high = (λ e. ground arith, λ e. ground arith)

retries_iff :
    (a b : ℤ)
    → ((ltb_ℤ a (pos 0) || ltb_ℤ b (pos 0)) ≡ false)
      ↔ ((leb_ℤ (pos 0) a ≡ true) × (leb_ℤ (pos 0) b ≡ true))
retries_iff a b = (λ e. ground arith, λ e. ground arith)

batch_iff : (n : ℤ) → (ltb_ℤ n (pos 1) ≡ false) ↔ (leb_ℤ (pos 1) n ≡ true)
batch_iff n = (λ e. ground arith, λ e. ground arith)

not_iff : (b : Bool) → (not b ≡ false) ↔ (b ≡ true)
not_iff b = (λ e. ground arith, λ e. ground arith)

module _ (upper : String → String) (c : Candidate) where
  accepted-IsValid : validate_ranges upper c ≡ accepted → IsValid c
  unfolding validate_ranges
  accepted-IsValid e =
      let (threshold, e1) = (raise_if-accepted _ _ _).0 e in
      let (low, e2) = (raise_if-accepted _ _ _).0 e1 in
      let (high, e3) = (raise_if-accepted _ _ _).0 e2 in
      let (retries, e4) = (raise_if-accepted _ _ _).0 e3 in
      let (batch, e5) = (raise_if-accepted _ _ _).0 e4 in
      let (non_negative, e6) = (check_all-accepted upper _ _ _ _ _).0 e5 in
      let (positive, e7) = (check_all-accepted upper _ _ _ _ _).0 e6 in
      let (universe, e8) = (raise_if-accepted _ _ _).0 e7 in
      let (zero_counts, _) = (raise_if-accepted _ _ _).0 e8 in
      let counts =
        (counts_iff c.min_qualifying_coins c.max_qualifying_coins).0 (low, high, zero_counts) in
      let both = (retries_iff c.rest_max_retries c.telegram_max_retries).0 retries in
      record {
        threshold = (IsPositive-iff c.alert_threshold_percent).0 threshold;
        coins = counts.0;
        ordered = counts.1;
        rest_retries = both.0;
        telegram_retries = both.1;
        batch = (batch_iff c.ws_subscribe_batch_size).0 batch;
        non_negative =
            All-map numeric_non_negative (λ name p. (IsNonNegative-iff (c.duration name)).0 p)
              non_negative;
        positive =
            All-map numeric_positive (λ name p. (IsPositive-iff (c.duration name)).0 p) positive;
        universe =
            (not_iff (c.enable_spot || (c.enable_linear_usdt || c.enable_linear_usdc))).0 universe;
      }

  IsValid-accepted : IsValid c → validate_ranges upper c ≡ accepted
  unfolding validate_ranges
  IsValid-accepted v =
      let (low, high, zero_counts) =
        (counts_iff c.min_qualifying_coins c.max_qualifying_coins).1 (v.coins, v.ordered) in
      (raise_if-accepted _ _ _).1 (
        (IsPositive-iff c.alert_threshold_percent).1 v.threshold,
        (raise_if-accepted _ _ _).1 (
          low,
          (raise_if-accepted _ _ _).1 (
            high,
            (raise_if-accepted _ _ _).1 (
              (retries_iff c.rest_max_retries c.telegram_max_retries).1
                  (v.rest_retries, v.telegram_retries),
              (raise_if-accepted _ _ _).1 (
                (batch_iff c.ws_subscribe_batch_size).1 v.batch,
                (check_all-accepted upper _ _ _ _ _).1 (
                  All-map numeric_non_negative (λ name p. (IsNonNegative-iff (c.duration name)).1 p)
                      v.non_negative,
                  (check_all-accepted upper _ _ _ _ _).1 (
                    All-map numeric_positive (λ name p. (IsPositive-iff (c.duration name)).1 p)
                        v.positive,
                    (raise_if-accepted _ _ _).1 (
                      (not_iff (c.enable_spot || (c.enable_linear_usdt || c.enable_linear_usdc))).1
                          v.universe,
                      (raise_if-accepted _ _ _).1 (zero_counts, refl),
                    ),
                  ),
                ),
              ),
            ),
          ),
        ),
      )

-- The values are accepted exactly when they are valid: a positive threshold, counts from one up in
-- order, no negative number of retries, a batch of one at least, every duration finite and not
-- negative, those that must be positive so, and some universe of markets.
pub validate_ranges-IsValid :
    (upper : String → String) (c : Candidate) → (validate_ranges upper c ≡ accepted) ↔ IsValid c
validate_ranges-IsValid upper c = (accepted-IsValid upper c, IsValid-accepted upper c)
