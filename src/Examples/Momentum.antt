-- ===== src/Examples/Momentum.antt =====
-- The theorems on the hourly change, applied.
use bybit_crypto_monitor_tel.Base.{◌≡◌, String_eq, List, [], ◌∷◌, arith}
use bybit_crypto_monitor_tel.Base.Int.{pos}
use bybit_crypto_monitor_tel.Base.Float.{finite}
use bybit_crypto_monitor_tel.Persistence.Samples.{Sample}
use bybit_crypto_monitor_tel.Market.Momentum.{SpotHistory, find_anchor, prune, evaluate}
use bybit_crypto_monitor_tel.Market.Momentum.Anchors.{find_anchor-prune}
use bybit_crypto_monitor_tel.Market.Momentum.Values.{Agrees, evaluate-Agrees}
use bybit_crypto_monitor_tel.Examples.Data.{config, instrument, ticker}

abbrev samples : List Sample
samples =
    record { category = "spot"; symbol = "A"; timestamp = 6410; price = finite (pos 1) }
    ∷ record { category = "spot"; symbol = "A"; timestamp = 6350; price = finite (pos 2) }
    ∷ []

abbrev history : SpotHistory
history = record { samples = samples; last_sample_at = (("spot", "A"), 6410) ∷ [] }

find_anchor-prune_example :
    find_anchor config "spot" "A" 10000 (prune 9990 7200000 history).0
    ≡ find_anchor config "spot" "A" 10000 history
find_anchor-prune_example =
    find_anchor-prune config "spot" "A" 9990 10000 history (omega arith) (omega arith)

evaluate-Agrees_example :
    Agrees
      (evaluate
        (λ last reference. last)
        config
        (instrument "A" "Trading")
        (ticker "A")
        10000
        history).1
evaluate-Agrees_example =
    evaluate-Agrees (λ last reference. last) config (instrument "A" "Trading") (ticker "A") 10000
      history
