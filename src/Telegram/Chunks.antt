-- ===== src/Telegram/Chunks.antt =====
-- What app/telegram/client.py: split_message keeps of a text.
use bybit_crypto_monitor_tel.Base.{
  ℕ, zero, suc, ◌-◌, ◌≤◌, ◌≡◌, refl, ◌∙◌, ap, Bool, true, false, Option, none, some, String, ltb,
  leb, nat_eq, arith, All, Bool-cases, inl, inr,
}
use bybit_crypto_monitor_tel.Base.Text.{text_take}
use bybit_crypto_monitor_tel.Telegram.Split.{
  is_space, text_length, text_drop, lstrip, before_stripped, rstrip, found_from, rfind_newline,
  cut_at, last_chunk, split_from, split_message,
}
use mathlib.Core.List.{List}
use Prim.Native.Char.{Char, code}
use Prim.Native.String.{[], ◌∷◌}

onto : Bool → Char → String → String
onto true c rest = rest
onto false c rest = c ∷ rest

-- A text without its white space, with another text after it.
unfoldable pub visible : String → String → String
unfolding onto
visible [] t = t
visible (c ∷ s) t = onto (is_space c) c (visible s t)

-- Several texts, one after the other, without their white space.
unfoldable pub visible_all : List String → String
visible_all List.[] = []
visible_all (List.◌∷◌ s ss) = visible s (visible_all ss)

visible-lstrip : (s t : String) → visible (lstrip s) t ≡ visible s t
unfolding visible lstrip onto
visible-lstrip [] t = refl
visible-lstrip (c ∷ s) t = elim (Bool-cases (is_space c)) [
  | inl space ↦ rw space (visible-lstrip s t)
  | inr other ↦ rw (other, other) refl
]

visible-before : (c : Char) (s t : String) → visible (before_stripped c s) t ≡ visible (c ∷ s) t
unfolding visible before_stripped onto
visible-before c [] t = elim (Bool-cases (is_space c)) [
  | inl space ↦ rw space refl
  | inr other ↦ rw (other, other) refl
]
visible-before c (d ∷ s) t = refl

visible-rstrip : (s t : String) → visible (rstrip s) t ≡ visible s t
unfolding visible rstrip
visible-rstrip [] t = refl
visible-rstrip (c ∷ s) t =
    visible-before c (rstrip s) t ∙ ap (onto (is_space c) c) (visible-rstrip s t)

visible-cut :
    (n : ℕ) (s t : String) → visible (text_take n s) (visible (text_drop n s) t) ≡ visible s t
unfolding visible text_take text_drop
visible-cut zero s t = refl
visible-cut (suc n) [] t = refl
visible-cut (suc n) (c ∷ s) t = ap (onto (is_space c) c) (visible-cut n s t)

length-lstrip : (s : String) → text_length (lstrip s) ≤ text_length s
unfolding lstrip
length-lstrip [] = omega arith
length-lstrip (c ∷ s) = ground (arith, length-lstrip s)

length-before : (c : Char) (s : String) → text_length (before_stripped c s) ≤ suc (text_length s)
unfolding before_stripped
length-before c [] = elim (Bool-cases (is_space c)) [
  | inl space ↦ rw space (omega arith)
  | inr other ↦ rw other (omega arith)
]
length-before c (d ∷ s) = omega arith

length-rstrip : (s : String) → text_length (rstrip s) ≤ text_length s
unfolding rstrip
length-rstrip [] = omega arith
length-rstrip (c ∷ s) = omega (arith, length-before c (rstrip s), length-rstrip s)

length-take : (n : ℕ) (s : String) → text_length (text_take n s) ≤ n
unfolding text_take
length-take zero s = omega arith
length-take (suc n) [] = omega arith
length-take (suc n) (c ∷ s) = omega (arith, length-take n s)

length-drop : (n : ℕ) (s : String) → text_length (text_drop n s) ≡ text_length s - n
unfolding text_drop
length-drop zero s = omega arith
length-drop (suc n) [] = omega arith
length-drop (suc n) (c ∷ s) = omega (arith, length-drop n s)

abbrev Below : ℕ → Option ℕ → Type 0
Below limit none = Unit
Below limit (some n) = suc n ≤ limit

found-Below :
    (limit : ℕ) (c : Char) (o : Option ℕ) → Below limit o → Below (suc limit) (found_from c o)
unfolding found_from
found-Below limit c (some n) h = omega (arith, h)
found-Below limit c none h = elim (Bool-cases (nat_eq (code c) 10)) [
  | inl newline ↦ rw newline (omega arith)
  | inr other ↦ rw other tt
]

rfind_newline-Below : (limit : ℕ) (s : String) → Below limit (rfind_newline limit s)
unfolding rfind_newline
rfind_newline-Below zero s = tt
rfind_newline-Below (suc limit) [] = tt
rfind_newline-Below (suc limit) (c ∷ s) =
    found-Below limit c (rfind_newline limit s) (rfind_newline-Below limit s)

cut_at-le : (limit : ℕ) (found : Option ℕ) → Below limit found → cut_at limit found ≤ limit
unfolding cut_at
cut_at-le limit none h = omega arith
cut_at-le limit (some zero) h = omega arith
cut_at-le limit (some (suc n)) h = omega (arith, h)

cut_at-pos : (limit : ℕ) (found : Option ℕ) → 1 ≤ limit → 1 ≤ cut_at limit found
unfolding cut_at
cut_at-pos limit none h = h
cut_at-pos limit (some zero) h = h
cut_at-pos limit (some (suc n)) h = omega arith

visible-last : (s : String) → visible_all (last_chunk s) ≡ visible s []
unfolding visible_all visible
visible-last [] = refl
visible-last (c ∷ s) = refl

visible-split : (fuel limit : ℕ) (s : String) → visible_all (split_from fuel limit s) ≡ visible s []
unfolding split_from visible_all
visible-split zero limit s = visible-last s
visible-split (suc fuel) limit s =
    let cut = cut_at limit (rfind_newline limit s) in
    let head = text_take cut s in
    let tail = text_drop cut s in
    elim (Bool-cases (ltb limit (text_length s))) [
      | inr short ↦ rw short (visible-last s)
      | inl long ↦ rw long (
          ap (visible (rstrip head)) (visible-split fuel limit (lstrip tail))
          ∙ visible-rstrip head (visible (lstrip tail) [])
          ∙ ap (visible head) (visible-lstrip tail [])
          ∙ visible-cut cut s [])
    ]

abbrev pub Fits : ℕ → String → Type 0
Fits limit s = text_length s ≤ limit

last-Fits : (limit : ℕ) (s : String) → Fits limit s → All (Fits limit) (last_chunk s)
last-Fits limit [] h = tt
last-Fits limit (c ∷ s) h = (h, tt)

-- As much fuel as characters is enough, since every turn takes one at least.
split_from-Fits :
    (fuel limit : ℕ) (s : String)
    → 1 ≤ limit
    → text_length s ≤ fuel
    → All (Fits limit) (split_from fuel limit s)
unfolding split_from
split_from-Fits zero limit s h k = last-Fits limit s (omega (arith, h, k))
split_from-Fits (suc fuel) limit s h k =
    let cut = cut_at limit (rfind_newline limit s) in
    elim (Bool-cases (ltb limit (text_length s))) [
      | inr short ↦ rw short (last-Fits limit s (ground (arith, short)))
      | inl long ↦ rw long (
        omega (
          arith,
          length-rstrip (text_take cut s),
          length-take cut s,
          cut_at-le limit (rfind_newline limit s) (rfind_newline-Below limit s),
        ),
        split_from-Fits fuel limit (lstrip (text_drop cut s)) h (
            omega (
              arith,
              k,
              length-lstrip (text_drop cut s),
              length-drop cut s,
              cut_at-pos limit (rfind_newline limit s) h,
            )),
      )
    ]

-- With a limit of at least one, no chunk of a message is longer than the limit, and the chunks in
-- order are the text, but for white space.
pub split_message-chunks :
    (text : String) (limit : ℕ)
    → 1 ≤ limit
    → All (Fits limit) (split_message text limit)
      × (visible_all (split_message text limit) ≡ visible text "")
unfolding split_message visible_all
split_message-chunks text limit h = elim (Bool-cases (leb (text_length text) limit)) [
  | inl short ↦ rw short ((ground (arith, short), tt), refl)
  | inr long ↦ rw long (
    split_from-Fits (text_length text) limit text h (omega arith),
    visible-split (text_length text) limit text,
  )
]
