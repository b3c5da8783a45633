-- ===== src/Telegram/Split.antt =====
-- app/telegram/client.py: split_message. White space is what str.isspace says of a character.
use bybit_crypto_monitor_tel.Base.{
  ℕ, zero, suc, Bool, ◌&&◌, ◌||◌, Option, none, some, String, ltb, leb, nat_eq, if◌then◌else◌,
}
use bybit_crypto_monitor_tel.Base.Text.{text_take}
use Prim.Native.Char.{Char, code}
use mathlib.Core.List.{List}
use Prim.Native.String.{[], ◌∷◌}

abbrev pub message_chunk_limit : ℕ
message_chunk_limit = 4096

abbrev between : ℕ → ℕ → ℕ → Bool
between low high n = leb low n && leb n high

-- `c.isspace()`
unfoldable pub is_space : Char → Bool
is_space c =
    let n = code c in
    between 9 13 n
    || between 28 32 n
    || nat_eq n 133
    || nat_eq n 160
    || nat_eq n 5760
    || between 8192 8202 n
    || between 8232 8233 n
    || nat_eq n 8239
    || nat_eq n 8287
    || nat_eq n 12288

-- `len(s)`
abbrev pub text_length : String → ℕ
text_length [] = 0
text_length (c ∷ s) = suc (text_length s)

-- `s[n:]`
unfoldable pub text_drop : ℕ → String → String
text_drop zero s = s
text_drop (suc n) [] = []
text_drop (suc n) (c ∷ s) = text_drop n s

unfoldable pub lstrip : String → String
lstrip [] = []
lstrip (c ∷ s) = let rest = lstrip s in if is_space c then rest else c ∷ s

-- White space before nothing but white space is dropped.
unfoldable pub before_stripped : Char → String → String
before_stripped c [] = if is_space c then [] else c ∷ []
before_stripped c (d ∷ s) = c ∷ d ∷ s

unfoldable pub rstrip : String → String
rstrip [] = []
rstrip (c ∷ s) = before_stripped c (rstrip s)

-- The newline is code point 10.
unfoldable pub found_from : Char → Option ℕ → Option ℕ
found_from c (some n) = some (suc n)
found_from c none = if nat_eq (code c) 10 then some 0 else none

-- `s.rfind("\n", 0, limit)`
unfoldable pub rfind_newline : ℕ → String → Option ℕ
rfind_newline zero s = none
rfind_newline (suc limit) [] = none
rfind_newline (suc limit) (c ∷ s) = found_from c (rfind_newline limit s)

unfoldable pub cut_at : ℕ → Option ℕ → ℕ
cut_at limit none = limit
cut_at limit (some zero) = limit
cut_at limit (some (suc n)) = suc n

abbrev pub last_chunk : String → List String
last_chunk [] = List.[]
last_chunk (c ∷ s) = List.◌∷◌ (c ∷ s) List.[]

-- The loop, on fuel.
unfoldable pub split_from : ℕ → ℕ → String → List String
split_from zero limit remaining = last_chunk remaining
split_from (suc fuel) limit remaining =
    let cut = cut_at limit (rfind_newline limit remaining) in
    let rest = split_from fuel limit (lstrip (text_drop cut remaining)) in
    if ltb limit (text_length remaining)
    then List.◌∷◌ (rstrip (text_take cut remaining)) rest
    else last_chunk remaining

-- No more turns than there are characters.
unfoldable pub split_message : String → ℕ → List String
split_message text limit =
    if leb (text_length text) limit
    then List.◌∷◌ text List.[]
    else split_from (text_length text) limit text
