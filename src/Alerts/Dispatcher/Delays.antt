-- ===== src/Alerts/Dispatcher/Delays.antt =====
-- The delays between the attempts of app/alerts/dispatcher.py.
use bybit_crypto_monitor_tel.Base.{
  ℕ, zero, suc, ◌≤◌, ◌<◌, leb, ◌≡◌, get_or, arith, List, [], ◌∷◌, length, All, Bool-cases, inl, inr,
}
use bybit_crypto_monitor_tel.Alerts.Dispatcher.{
  retry_delays, get_elem?, retry_delay_for, delay_index,
}

abbrev pub Within : ℕ → Type 0
Within d = (10 ≤ d) × (d ≤ 3600)

get_elem?-Within :
    (xs : List ℕ) (n d : ℕ) → All Within xs → n < length xs → Within (get_or (get_elem? xs n) d)
get_elem?-Within [] n d h k = omega (arith, k)
get_elem?-Within (x ∷ xs) zero d h k = h.0
get_elem?-Within (x ∷ xs) (suc n) d h k = get_elem?-Within xs n d h.1 (omega (arith, k))

abbrev IsAscending : List ℕ → Type 0
IsAscending [] = Unit
IsAscending (x ∷ []) = Unit
IsAscending (x ∷ y ∷ xs) = (x ≤ y) × IsAscending (y ∷ xs)

get_elem?-ascending :
    (xs : List ℕ) (n d : ℕ)
    → IsAscending xs
    → suc n < length xs
    → get_or (get_elem? xs n) d ≤ get_or (get_elem? xs (suc n)) d
get_elem?-ascending [] n d h k = omega (arith, k)
get_elem?-ascending (x ∷ []) n d h k = omega (arith, k)
get_elem?-ascending (x ∷ y ∷ xs) zero d h k = h.0
get_elem?-ascending (x ∷ y ∷ xs) (suc n) d h k =
    get_elem?-ascending (y ∷ xs) n d h.1 (omega (arith, k))

index_in_range : (n : ℕ) → delay_index n < length retry_delays
index_in_range n = ground arith

retry_delays-Within : All Within retry_delays
retry_delays-Within = ground arith

retry_delays-IsAscending : IsAscending retry_delays
retry_delays-IsAscending = ground arith

retry_delay_for-suc : (n : ℕ) → retry_delay_for (suc n) ≤ retry_delay_for (suc (suc n))
unfolding retry_delay_for
retry_delay_for-suc n = elim (Bool-cases (leb n 6)) [
  | inl early ↦
      let first : delay_index (suc n) ≡ n = ground arith in
      let next : delay_index (suc (suc n)) ≡ suc n = ground arith in
      rw (first, next)
        (get_elem?-ascending retry_delays n 0 retry_delays-IsAscending (ground arith))
  | inr late ↦
      let same : delay_index (suc (suc n)) ≡ delay_index (suc n) = ground arith in
      rw same (omega arith)
]

-- The delay after a failed attempt is between ten seconds and an hour, and after the first failure
-- it never gets shorter with another one.
pub retry_delay_for-bounds :
    (n : ℕ) → Within (retry_delay_for n) × (retry_delay_for (suc n) ≤ retry_delay_for (suc (suc n)))
unfolding retry_delay_for
retry_delay_for-bounds n = (
  get_elem?-Within retry_delays (delay_index n) 0 retry_delays-Within (index_in_range n),
  retry_delay_for-suc n,
)
