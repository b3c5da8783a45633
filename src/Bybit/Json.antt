-- ===== src/Bybit/Json.antt =====
-- JSON values as Python's `json` gives them, and what the language makes of one. A large number is
-- an infinite float, and so is the constant Infinity.
use bybit_crypto_monitor_tel.Base.{
  zero, Bool, true, false, Option, none, some, String, ◌==◌, String_eq, if◌then◌else◌, not,
}
use bybit_crypto_monitor_tel.Base.Int.{ℤ, pos}
use bybit_crypto_monitor_tel.Base.Float.{Float, finite}

mutual
  pub data Json : Type 0 where
    null : Json
    boolean : Bool → Json
    integer : ℤ → Json
    number : Float → Json
    text : String → Json
    array : Items → Json
    object : Fields → Json

  pub data Items : Type 0 where
    nil : Items
    item : Json → Items → Items

  pub data Fields : Type 0 where
    end : Fields
    field : String → Json → Fields → Fields

-- `d.get(key)`; json.loads keeps the last of two values of a key.
unfoldable pub get_field : String → Fields → Option Json
get_field key end = none
get_field key (field k value rest) = elim (get_field key rest) [
  | some later ↦ some later
  | none ↦ if k == key then some value else none
]

-- `d.get(key)` where a missing value is None.
abbrev pub get_json : String → Fields → Json
get_json key fields = elim (get_field key fields) [ none ↦ null | some value ↦ value ]

-- `bool(value)`
unfoldable pub is_true : Json → Bool
is_true null = false
is_true (boolean b) = b
is_true (integer (pos zero)) = false
is_true (integer n) = true
is_true (number (finite (pos zero))) = false
is_true (number x) = true
is_true (text s) = not (s == "")
is_true (array nil) = false
is_true (array (item _ _)) = true
is_true (object end) = false
is_true (object (field _ _ _)) = true

-- What Python does that depends on a text or on rounding: `float(text)`, none for a ValueError;
-- `float(n)`, none for an OverflowError; `int(text)`, none for a ValueError; `str(value)`; `strip`;
-- `strip().lower()`; and `round(x * 100.0, 6)`.
pub record Python : Type 0 where
  pub float_of_text : String → Option Float
  pub float_of_integer : ℤ → Option Float
  pub integer_of_text : String → Option ℤ
  pub print : Json → String
  pub strip : String → String
  pub strip_lower : String → String
  pub hundredfold : Float → Float

abbrev pub str : Python → Json → String
str python (text s) = s
str python j = python.print j

-- `str(value or default)`
abbrev pub str_or : Python → Json → String → String
str_or python j default = if is_true j then str python j else default
