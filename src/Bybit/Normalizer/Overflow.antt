-- ===== src/Bybit/Normalizer/Overflow.antt =====
-- When app/bybit/normalizer.py raises.
use bybit_crypto_monitor_tel.Base.{
  ◌≡◌, refl, Bool, true, false, ◌||◌, Option, none, some, String, is_none, if◌then◌else◌,
}
use bybit_crypto_monitor_tel.Base.Int.{pos}
use bybit_crypto_monitor_tel.Base.Float.{Float, finite, infinity, minus_infinity, nan}
use bybit_crypto_monitor_tel.Base.Result.{Result, ok, err, overflow_error, ◌>>=◌}
use bybit_crypto_monitor_tel.Bybit.Json.{
  Json, null, boolean, integer, number, text, array, object, Fields, Python, get_json,
}
use bybit_crypto_monitor_tel.Bybit.Normalizer.{
  integer_float, float_of, whole_seconds, as_int_seconds, parse_instrument,
}

abbrev is_infinite : Option Float → Bool
is_infinite (some infinity) = true
is_infinite (some minus_infinity) = true
is_infinite _ = false

-- An integer that no float is near, or an infinity, as a number or as a text.
abbrev pub overflows : Python → Json → Bool
overflows python (integer n) =
    is_none (python.float_of_integer n) || is_infinite (python.float_of_integer n)
overflows python (boolean b) =
    let n = pos (if b then 1 else 0) in
    is_none (python.float_of_integer n) || is_infinite (python.float_of_integer n)
overflows python (number x) = is_infinite (some x)
overflows python (text s) = is_infinite (python.float_of_text s)
overflows python _ = false

abbrev pub Raises {ℓ} : {A : Type ℓ} → Bool → Result A → Type ℓ
Raises true r = r ≡ err overflow_error
Raises {A} false r = (a : A) × (r ≡ ok a)

seconds-Raises : (x : Option Float) → Raises (is_infinite x) (whole_seconds x)
unfolding whole_seconds
seconds-Raises none = (none, refl)
seconds-Raises (some (finite m)) = (_, refl)
seconds-Raises (some nan) = (none, refl)
seconds-Raises (some infinity) = refl
seconds-Raises (some minus_infinity) = refl

integer-Raises :
    (x : Option Float) → Raises (is_none x || is_infinite x) (integer_float x >>= whole_seconds)
unfolding whole_seconds
integer-Raises none = refl
integer-Raises (some x) = seconds-Raises (some x)

as_int_seconds-Raises :
    (python : Python) (j : Json) → Raises (overflows python j) (as_int_seconds python j)
unfolding as_int_seconds float_of whole_seconds
as_int_seconds-Raises python null = (none, refl)
as_int_seconds-Raises python (boolean b) =
    integer-Raises (python.float_of_integer (pos (if b then 1 else 0)))
as_int_seconds-Raises python (integer n) = integer-Raises (python.float_of_integer n)
as_int_seconds-Raises python (number x) = seconds-Raises (some x)
as_int_seconds-Raises python (text s) = seconds-Raises (python.float_of_text s)
as_int_seconds-Raises python (array _) = (none, refl)
as_int_seconds-Raises python (object _) = (none, refl)

Raises->>= {ℓ κ} :
    {A : Type ℓ} {B : Type κ} (a b : Bool) (m : Result A) (f : A → Result B)
    → Raises a m
    → ((x : A) → Raises b (f x))
    → Raises (a || b) (m >>= f)
Raises->>= true b m f h k = rw h refl
Raises->>= false b m f h k = rw h.1 (k h.0)

Raises-return {ℓ κ} :
    {A : Type ℓ} {B : Type κ} (b : Bool) (m : Result A) (f : A → B)
    → Raises b m
    → Raises b (m >>= λ x. ok (f x))
Raises-return true m f h = rw h refl
Raises-return false m f h = (f h.0, rw h.1 refl)

-- An instrument is parsed, or OverflowError is raised, and it is raised exactly when one of its
-- times is an infinity or an integer too large for a float; nothing else in the object matters.
pub parse_instrument-Raises :
    (python : Python) (category : String) (raw : Fields)
    → Raises
        (overflows python (get_json "launchTime" raw)
          || overflows python (get_json "deliveryTime" raw))
        (parse_instrument python category raw)
unfolding parse_instrument
parse_instrument-Raises python category raw =
    Raises->>= (overflows python (get_json "launchTime" raw))
      (overflows python (get_json "deliveryTime" raw))
      (as_int_seconds python (get_json "launchTime" raw)) _
      (as_int_seconds-Raises python (get_json "launchTime" raw))
      (λ launch_time.
        Raises-return (overflows python (get_json "deliveryTime" raw))
          (as_int_seconds python (get_json "deliveryTime" raw)) _
          (as_int_seconds-Raises python (get_json "deliveryTime" raw)))
