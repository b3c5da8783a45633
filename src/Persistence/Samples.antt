-- ===== src/Persistence/Samples.antt =====
-- `PriceSampleRepository` of app/persistence/repository.py. The target of a reference is the time
-- `now` less an hour, and comparisons with it are made an hour later, at `now`.
use bybit_crypto_monitor_tel.Base.{
  ℕ, ◌+◌, ◌-◌, ◌/◌, Bool, ◌&&◌, ◌||◌, Option, none, some, String, List, [], ◌∷◌, ◌++◌, ◌==◌,
  String_eq, ℕ_eq, ltb, leb, nat_eq, any, keep, not, length, if◌then◌else◌,
}
use bybit_crypto_monitor_tel.Base.Float.{Float, is_nan}

pub record Sample : Type 0 where
  pub category : String
  pub symbol : String
  pub timestamp : ℕ
  pub price : Float

abbrev pub same_key : Sample → Sample → Bool
same_key a b = a.category == b.category && (a.symbol == b.symbol && a.timestamp == b.timestamp)

-- `INSERT OR IGNORE`: a second sample of one moment is ignored, and so is NaN, which SQLite stores
-- as NULL.
unfoldable pub insert_sample : Sample → List Sample → List Sample × Bool
insert_sample s samples =
    if is_nan s.price || any (same_key s) samples
    then (samples, Bool.false)
    else (samples ++ s ∷ [], Bool.true)

-- `BETWEEN int(target - tolerance) AND int(target + tolerance)`, with the tolerance in milliseconds.
abbrev pub in_window : ℕ → ℕ → ℕ → Bool
in_window tolerance now t =
    leb now (t + 3600 + (tolerance + 999) / 1000) && leb (t + 3600) (now + tolerance / 1000)

abbrev pub matches : String → String → ℕ → ℕ → Sample → Bool
matches category symbol tolerance now s =
    (s.category == category && s.symbol == symbol) && in_window tolerance now s.timestamp

-- `ABS(timestamp - target)`
abbrev pub distance : ℕ → Sample → ℕ
distance now s = (s.timestamp + 3600 - now) + (now - (s.timestamp + 3600))

-- `ORDER BY ABS(timestamp - target) ASC, timestamp DESC`
abbrev pub comes_first : ℕ → Sample → Sample → Bool
comes_first now a b =
    ltb (distance now a) (distance now b)
    || (nat_eq (distance now a) (distance now b) && ltb b.timestamp a.timestamp)

abbrev pub first_of : ℕ → Sample → Option Sample → Option Sample
first_of now s none = some s
first_of now s (some best) = if comes_first now best s then some best else some s

-- `LIMIT 1`
unfoldable pub closest : ℕ → List Sample → Option Sample
closest now [] = none
closest now (s ∷ ss) = first_of now s (closest now ss)

unfoldable pub find_reference : String → String → ℕ → ℕ → List Sample → Option Sample
find_reference category symbol tolerance now samples =
    closest now (keep (matches category symbol tolerance now) samples)

-- The samples older than `now - retention` are deleted; the second result counts them.
abbrev pub is_old : ℕ → ℕ → Sample → Bool
is_old now retention s = ltb (s.timestamp + retention) now

unfoldable pub cleanup_older_than : ℕ → ℕ → List Sample → List Sample × ℕ
cleanup_older_than now retention samples =
    (keep (λ s. not (is_old now retention s)) samples, length (keep (is_old now retention) samples))
