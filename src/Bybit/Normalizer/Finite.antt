-- ===== src/Bybit/Normalizer/Finite.antt =====
-- What app/bybit/normalizer.py lets through as a number.
use bybit_crypto_monitor_tel.Base.{
  ◌≡◌, subst, true, Option, none, some, String, Bool-cases, inl, inr,
}
use bybit_crypto_monitor_tel.Base.Float.{Float, is_finite}
use bybit_crypto_monitor_tel.Base.Result.{Result, ok, ◌>>=◌, Ensures, Ensures->>=}
use bybit_crypto_monitor_tel.Bybit.Models.{Ticker}
use bybit_crypto_monitor_tel.Bybit.Json.{Json, Fields, Python, get_json}
use bybit_crypto_monitor_tel.Bybit.Normalizer.{
  float_of, if_finite, as_float, as_int_seconds, percent_from_fraction, parse_ticker, time_value,
}

-- Absent, or a finite number.
abbrev pub IsFinite : Option Float → Type 0
IsFinite none = Unit
IsFinite (some x) = is_finite x ≡ true

if_finite-IsFinite : (x : Option Float) → IsFinite (if_finite x)
if_finite-IsFinite none = tt
if_finite-IsFinite (some x) = elim (Bool-cases (is_finite x)) [
  | inl fine ↦ rw fine fine
  | inr bad ↦ rw bad tt
]

as_float-IsFinite : (python : Python) (j : Json) → Ensures IsFinite (as_float python j)
unfolding as_float
as_float-IsFinite python j =
    Ensures->>= IsFinite (float_of python j) (λ x. ok (if_finite x)) (λ x _. if_finite-IsFinite x)

-- The prices and amounts of a ticker.
abbrev pub FiniteTicker : Ticker → Type 0
FiniteTicker t =
    IsFinite t.last_price
    × IsFinite t.mark_price
    × IsFinite t.index_price
    × IsFinite t.prev_price_1h
    × IsFinite t.turnover_24h
    × IsFinite t.volume_24h
    × IsFinite t.open_interest
    × IsFinite t.funding_rate

module _ (python : Python) (P : Ticker → Type 0) where
  -- One more number of a ticker, which is known to be finite where the rest is built.
  next_number :
      (j : Json) (rest : Option Float → Result Ticker)
      → ((x : Option Float) → IsFinite x → Ensures P (rest x))
      → Ensures P (as_float python j >>= rest)
  next_number j rest h =
      Ensures->>= P (as_float python j) rest
        (λ x e. h x (subst (Ensures IsFinite) e (as_float-IsFinite python j)))

-- Every number of a parsed ticker, but the change over a day, is absent or finite.
pub parse_ticker-finite :
    (python : Python) (category : String) (raw : Fields) (ts_ms : Json)
    → Ensures FiniteTicker (parse_ticker python category raw ts_ms)
unfolding parse_ticker
parse_ticker-finite python category raw ts_ms =
    Ensures->>= FiniteTicker (as_int_seconds python (time_value ts_ms raw)) _ λ timestamp _.
      next_number python FiniteTicker _ _ λ last_price a.
        next_number python FiniteTicker _ _ λ mark_price b.
          next_number python FiniteTicker _ _ λ index_price c.
            next_number python FiniteTicker _ _ λ prev_price_1h d.
              Ensures->>= FiniteTicker (percent_from_fraction python (get_json "price24hPcnt" raw))
                _
                λ change _. next_number python FiniteTicker _ _ λ turnover_24h e.
                  next_number python FiniteTicker _ _ λ volume_24h f.
                    next_number python FiniteTicker _ _ λ open_interest g.
                      next_number python FiniteTicker _ _ λ funding_rate h. (a, b, c, d, e, f, g, h)
