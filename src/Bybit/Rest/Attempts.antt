-- ===== src/Bybit/Rest/Attempts.antt =====
-- Which attempt decides a request of app/bybit/rest.py.
use bybit_crypto_monitor_tel.Base.{
  ℕ, zero, suc, ◌+◌, ◌≤◌, ◌<◌, ◌≡◌, ◌⊎◌, refl, true, ltb, nat_eq, arith, Bool-cases, inl, inr,
  subst,
}
use bybit_crypto_monitor_tel.Bybit.Json.{Fields, Python}
use bybit_crypto_monitor_tel.Bybit.Rest.Request.{
  Get, Fetched, raised, returned, is_retryable, try_request, after_try, request_from, request,
}

-- An attempt after which the loop may go on.
abbrev pub IsRetried : Fetched Fields → Type 0
IsRetried (raised e) = is_retryable e ≡ true
IsRetried (returned payload) = ⊥

-- From an attempt on, the one that decides: all before it are retried, and it is not, or it is the
-- last that is allowed.
pub record Decides (python : Python) (max_retries from : ℕ) (gets : ℕ → Get) (r : Fetched Fields)
    : Type 0 where
  pub last : ℕ
  pub after : from ≤ last
  pub allowed : last ≤ max_retries
  pub before : (i : ℕ) → from ≤ i → i < last → IsRetried (try_request python (gets i))
  pub ends : (IsRetried (try_request python (gets last)) → ⊥) ⊎ (last ≡ max_retries)
  pub result : r ≡ try_request python (gets last)

module _ (python : Python) (max_retries i : ℕ) (gets : ℕ → Get) (bound : i ≤ max_retries) where
  stops :
      (v : Fetched Fields)
      → v ≡ try_request python (gets i)
      → (IsRetried v → ⊥) ⊎ (i ≡ max_retries)
      → Decides python max_retries i gets v
  stops v same e = record {
    last = i;
    after = omega arith;
    allowed = bound;
    before = λ j low high. let never : ⊥ = omega (arith, low, high) in absurd never;
    ends = subst (λ r. (IsRetried r → ⊥) ⊎ (i ≡ max_retries)) same e;
    result = same;
  }

  goes_on :
      (v r : Fetched Fields)
      → v ≡ try_request python (gets i)
      → IsRetried v
      → Decides python max_retries (i + 1) gets r
      → Decides python max_retries i gets r
  goes_on v r same again d = record {
    last = d.last;
    after = omega (arith, d.after);
    allowed = d.allowed;
    before = λ j low high. elim (Bool-cases (nat_eq i j)) [
      | inl here ↦ let p : i ≡ j = ground arith in rw (← p) (subst IsRetried same again)
      | inr later ↦ d.before j (ground arith) high
    ];
    ends = d.ends;
    result = d.result;
  }

  after_try-Decides :
      (v : Fetched Fields) (again : Unit {0} → Fetched Fields)
      → v ≡ try_request python (gets i)
      → (i + 1 ≤ max_retries → Decides python max_retries (i + 1) gets (again tt))
      → Decides python max_retries i gets (after_try max_retries (i + 1) again v)
  unfolding after_try
  after_try-Decides (returned payload) again same rest =
      stops (returned payload) same (inl (λ no. no))
  after_try-Decides (raised e) again same rest = elim (Bool-cases (is_retryable e)) [
    | inl yes_again ↦ elim (Bool-cases (ltb max_retries (i + 1))) [
      | inl over ↦ rw (yes_again, over) (stops (raised e) same (inr (ground arith)))
      | inr more ↦
          rw (yes_again, more) (goes_on (raised e) (again tt) same yes_again (rest (ground arith)))
    ]
    | inr final ↦ rw final (stops (raised e) same (inl (λ h. cc)))
  ]

request_from-Decides :
    (python : Python) (max_retries fuel i : ℕ) (gets : ℕ → Get)
    → fuel + i ≡ suc max_retries
    → i ≤ max_retries
    → Decides python max_retries i gets (request_from python max_retries fuel gets i)
unfolding request_from
request_from-Decides python m zero i gets h k = let never : ⊥ = omega (arith, h, k) in absurd never
request_from-Decides python m (suc fuel) i gets h k =
    after_try-Decides python m i gets k (try_request python (gets i))
      (λ _. request_from python m fuel gets (i + 1)) refl
      (λ more. request_from-Decides python m fuel (i + 1) gets (omega (arith, h)) more)

-- A request ends as one of the first attempt and the retries that are allowed does: all before it
-- end with an error that is retried, and it does not, or it is the last that is allowed.
pub request-Decides :
    (python : Python) (max_retries : ℕ) (gets : ℕ → Get)
    → Decides python max_retries 0 gets (request python max_retries gets)
unfolding request
request-Decides python m gets =
    request_from-Decides python m (suc m) 0 gets (omega arith) (omega arith)
