-- ===== src/Bybit/WebSocket/Times.antt =====
-- How often a symbol stands in a list, in batches and in the pending requests.
use bybit_crypto_monitor_tel.Base.{
  ℕ, zero, suc, ◌+◌, ◌≤◌, ◌≡◌, refl, sym, ◌∙◌, ap, some, String, List, [], ◌∷◌, ◌++◌, ◌==◌,
  String_eq, ℕ_eq, elem, take, drop, if◌then◌else◌, arith, text_eq_iff, take-append-drop,
  Bool-cases, inl, inr, leb,
}
use bybit_crypto_monitor_tel.Base.Dict.{Dict, get, set, delete}
use bybit_crypto_monitor_tel.Base.Sort.{sorted, insert}
use bybit_crypto_monitor_tel.Base.TextOrder.{text_leb}
use bybit_crypto_monitor_tel.Bybit.WebSocket.{
  PendingSubscription, union, minus, symbols_of, batches,
}

-- How often a symbol stands in a list.
abbrev pub times : String → List String → ℕ
times s [] = 0
times s (x ∷ xs) = if x == s then suc (times s xs) else times s xs

pub times-append : (s : String) (xs ys : List String) → times s (xs ++ ys) ≡ times s xs + times s ys
times-append s [] ys = omega arith
times-append s (x ∷ xs) ys = ground (arith, times-append s xs ys)

times-insert : (s x : String) (xs : List String) → times s (insert text_leb x xs) ≡ times s (x ∷ xs)
unfolding insert
times-insert s x [] = refl
times-insert s x (y ∷ xs) = ground (arith, times-insert s x xs)

pub times-sorted : (s : String) (xs : List String) → times s (sorted text_leb xs) ≡ times s xs
unfolding sorted
times-sorted s [] = refl
times-sorted s (x ∷ xs) = times-insert s x (sorted text_leb xs) ∙ ground (arith, times-sorted s xs)

pub elem-times : (s : String) (xs : List String) → elem s xs ≡ leb 1 (times s xs)
elem-times s [] = refl
elem-times s (x ∷ xs) = ground (arith, text_eq_iff s x, text_eq_iff x s, elem-times s xs)

pub times-minus :
    (s : String) (xs ys : List String)
    → times s (minus xs ys) ≡ (if elem s ys then 0 else times s xs)
times-minus s [] ys = ground arith
times-minus s (x ∷ xs) ys = elim (Bool-cases (x == s)) [
  | inl same ↦
      let there : elem x ys ≡ elem s ys = ap (λ t. elem t ys) ((text_eq_iff x s).0 same) in
      ground (arith, same, there, times-minus s xs ys)
  | inr differs ↦ ground (arith, differs, times-minus s xs ys)
]

pub times-union :
    (s : String) (xs ys : List String) → times s (union xs ys) ≤ times s xs + times s ys
unfolding union
times-union s xs [] = omega arith
times-union s xs (y ∷ ys) =
    ground (arith, times-union s xs ys, times-union s (xs ++ y ∷ []) ys, times-append s xs (y ∷ []))

pub union-once : (s : String) (xs ys : List String) → times s xs ≤ 1 → times s (union xs ys) ≤ 1
unfolding union
union-once s xs [] h = h
union-once s xs (y ∷ ys) h = ground (
  arith,
  h,
  union-once s xs ys,
  union-once s (xs ++ y ∷ []) ys,
  times-append s xs (y ∷ []),
  elem-times y xs,
  text_eq_iff y s,
)

abbrev pub total : String → List (List String) → ℕ
total s [] = 0
total s (batch ∷ rest) = times s batch + total s rest

-- The batches hold no more than the list does.
pub total-batches :
    (s : String) (fuel size : ℕ) (xs : List String) → total s (batches fuel size xs) ≤ times s xs
unfolding batches
total-batches s zero size xs = omega arith
total-batches s (suc fuel) size [] = omega arith
total-batches s (suc fuel) size (x ∷ xs) =
    let whole = ap (times s) (take-append-drop size (x ∷ xs)) in
    omega (
      arith,
      sym (times-append s (take size (x ∷ xs)) (drop size (x ∷ xs))) ∙ whole,
      total-batches s fuel size (drop size (x ∷ xs)),
    )

pub times-set :
    (s : String) (id : ℕ) (p : PendingSubscription) (d : Dict ℕ PendingSubscription)
    → times s (symbols_of (set id p d)) ≤ times s (symbols_of d) + times s p.symbols
unfolding symbols_of set
times-set s id p [] = omega (arith, times-append s p.symbols [])
times-set s id p ((j, q) ∷ d) = elim (Bool-cases (j == id)) [
  | inl same ↦ rw same (
      omega
        (arith, times-append s p.symbols (symbols_of d), times-append s q.symbols (symbols_of d)))
  | inr differs ↦ rw differs (
      omega (
        arith,
        times-append s q.symbols (symbols_of (set id p d)),
        times-append s q.symbols (symbols_of d),
        times-set s id p d,
      ))
]

pub times-delete :
    (s : String) (id : ℕ) (d : Dict ℕ PendingSubscription)
    → times s (symbols_of (delete id d)) ≤ times s (symbols_of d)
unfolding symbols_of delete
times-delete s id [] = omega arith
times-delete s id ((j, q) ∷ d) = elim (Bool-cases (j == id)) [
  | inl same ↦ rw same (omega (arith, times-append s q.symbols (symbols_of d), times-delete s id d))
  | inr differs ↦ rw differs (
      omega (
        arith,
        times-append s q.symbols (symbols_of (delete id d)),
        times-append s q.symbols (symbols_of d),
        times-delete s id d,
      ))
]

pub times-get :
    (s : String) (id : ℕ) (p : PendingSubscription) (d : Dict ℕ PendingSubscription)
    → get id d ≡ some p
    → times s p.symbols + times s (symbols_of (delete id d)) ≤ times s (symbols_of d)
unfolding symbols_of delete get
times-get s id p [] h = cc
times-get s id p ((j, q) ∷ d) h = elim (Bool-cases (j == id)) [
  | inl same ↦
      let first : some q ≡ some p = sym (ap (λ b. if b then some q else get id d) same) ∙ h in
      let mine : times s q.symbols ≡ times s p.symbols = cc in
      rw same (omega (arith, mine, times-append s q.symbols (symbols_of d), times-delete s id d))
  | inr differs ↦
      let later : get id d ≡ some p = sym (ap (λ b. if b then some q else get id d) differs) ∙ h in
      rw differs (
        omega (
          arith,
          times-append s q.symbols (symbols_of (delete id d)),
          times-append s q.symbols (symbols_of d),
          times-get s id p d later,
        ))
]
