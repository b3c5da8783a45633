-- ===== src/Market/Momentum/Anchors.antt =====
-- Which sample anchors a spot market, and that pruning keeps it.
use bybit_crypto_monitor_tel.Base.{
  ℕ, ◌+◌, ◌/◌, ◌≤◌, ◌≡◌, refl, ap, false, not, Option, none, some, String, List, [], ◌∷◌, ◌++◌,
  keep, All, Bool-cases, inl, inr, arith,
}
use bybit_crypto_monitor_tel.Config.{Settings, whole_seconds}
use bybit_crypto_monitor_tel.Persistence.Samples.{
  Sample, matches, distance, closest, find_reference, is_old, cleanup_older_than,
}
use bybit_crypto_monitor_tel.Market.Momentum.{SpotHistory, find_anchor, prune, price_of}

-- A sample comes no later than another: it is closer, or as close and no older.
abbrev pub ComesFirst : ℕ → Sample → Sample → Type 0
ComesFirst now best s =
    (distance now best ≤ distance now s)
    × (distance now best ≡ distance now s → s.timestamp ≤ best.timestamp)

abbrev IsFirst : ℕ → Sample → List Sample → Type 0
IsFirst now best = All (ComesFirst now best)

-- How the choice from a list can end.
data Chosen (now : ℕ) (ss : List Sample) : Option Sample → Type 0 where
  nothing : ss ≡ [] → Chosen now ss none
  chosen :
      (before after : List Sample) (best : Sample)
      → ss ≡ before ++ best ∷ after
      → IsFirst now best ss
      → Chosen now ss (some best)

keep_after_cleanup :
    (category symbol : String) (tolerance retention now later : ℕ) (ss : List Sample)
    → 3600 + (tolerance + 999) / 1000 ≤ retention
    → now ≤ later
    → keep (matches category symbol tolerance later) (keep (λ s. not (is_old now retention s)) ss)
      ≡ keep (matches category symbol tolerance later) ss
keep_after_cleanup category symbol tolerance retention now later [] h k = refl
keep_after_cleanup category symbol tolerance retention now later (s ∷ ss) h k =
    let rest = keep_after_cleanup category symbol tolerance retention now later ss h k in
    elim (Bool-cases (is_old now retention s)) [
      | inl old ↦
          let gone : matches category symbol tolerance later s ≡ false =
            ground (arith, old, h, k) in
          rw (old, gone) rest
      | inr young ↦ elim (Bool-cases (matches category symbol tolerance later s)) [
        | inl match ↦ rw young (rw match (ap (◌∷◌ s) rest))
        | inr differs ↦ rw young (rw differs rest)
      ]
    ]

-- The sample is one of the list.
abbrev pub IsOneOf : Sample → List Sample → Type 0
IsOneOf s ss = (before : List Sample) × (after : List Sample) × (ss ≡ before ++ s ∷ after)

-- A sample of the market, about an hour before the time; the tolerance is in milliseconds, and the
-- ends of the window are whole seconds.
abbrev pub IsCandidate : String → String → ℕ → ℕ → Sample → Type 0
IsCandidate category symbol tolerance now s =
    (s.category ≡ category)
    × (s.symbol ≡ symbol)
    × (now ≤ s.timestamp + 3600 + (tolerance + 999) / 1000)
    × (s.timestamp + 3600 ≤ now + tolerance / 1000)

abbrev first_or : Sample → List Sample → Sample
first_or s [] = s
first_or s (x ∷ xs) = x

abbrev rest : List Sample → List Sample
rest [] = []
rest (x ∷ xs) = xs

module _ (config : Settings) (category symbol : String) (now later : ℕ) (h : SpotHistory) where
  -- If the retention covers an hour and the tolerance, pruning at one time changes no anchor at that
  -- time or later.
  pub find_anchor-prune :
      3600 + (config.spot_anchor_tolerance_seconds + 999) / 1000
        ≤ whole_seconds config.spot_history_retention_seconds
      → now ≤ later
      → find_anchor config category symbol later
          (prune now config.spot_history_retention_seconds h).0
        ≡ find_anchor config category symbol later h
  unfolding find_anchor prune cleanup_older_than find_reference
  find_anchor-prune enough k =
      ap (λ ss. price_of (closest later ss))
        (keep_after_cleanup category symbol config.spot_anchor_tolerance_seconds
          (whole_seconds config.spot_history_retention_seconds) now later h.samples enough k)
