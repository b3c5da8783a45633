-- ===== src/Market/PriceEngine/Latest.antt =====
-- Each entry of the latest state is a ticker of its own market.
use bybit_crypto_monitor_tel.Base.{
  ◌≡◌, refl, ◌∙◌, ap, ◌&&◌, not, Option, none, some, String, List, [], ◌∷◌, ◌==◌, String_eq,
  pair_eq, Bool-cases, inl, inr, All,
}
use bybit_crypto_monitor_tel.Base.Result.{Error, Result, ok, err, ◌>>=◌}
use bybit_crypto_monitor_tel.Base.Float.{Float}
use bybit_crypto_monitor_tel.Base.Dict.{Dict, get, set, All-set, get-All}
use bybit_crypto_monitor_tel.Bybit.Models.{Identity, Ticker, ticker_identity}
use bybit_crypto_monitor_tel.Market.PriceEngine.{
  PriceEngine, new_engine, accept, update_tickers, store, refuse, apply_snapshot, is_negative,
  Delta, Conversions, merge_ticker, merged, merge_existing, keep_merged, update_from_delta,
}

abbrev pub Own : Identity × Ticker → Type 0
Own (k, t) = ticker_identity t ≡ k

abbrev pub IsKeyed : PriceEngine → Type 0
IsKeyed e = All Own e.latest

pub update_tickers-IsKeyed :
    (ts : List Ticker) (e : PriceEngine) (updated : Dict Identity Ticker)
    → IsKeyed e
    → IsKeyed (update_tickers ts e updated).0
unfolding update_tickers
update_tickers-IsKeyed [] e updated h = h
update_tickers-IsKeyed (t ∷ ts) e updated h = elim (Bool-cases (accept t)) [
  | inl good ↦ rw good (
      update_tickers-IsKeyed ts (store t e) (set (ticker_identity t) t updated)
        (All-set Own (ticker_identity t) t e.latest refl h))
  | inr bad ↦ rw bad (update_tickers-IsKeyed ts (refuse e) updated h)
]

pub apply_snapshot-IsKeyed :
    (t : Ticker) (e : PriceEngine) → IsKeyed e → IsKeyed (apply_snapshot t e)
unfolding apply_snapshot
apply_snapshot-IsKeyed t e h =
    elim (Bool-cases (not (t.symbol == "") && is_negative t.last_price)) [
      | inl refused ↦ rw refused h
      | inr stored ↦ rw stored (All-set Own (ticker_identity t) t e.latest refl h)
    ]

module _ {Wire : Type 0} (convert : Conversions Wire) where
  data SameMarket (old : Ticker) : Result Ticker → Type 0 where
    same : (t : Ticker) → ticker_identity t ≡ ticker_identity old → SameMarket old (ok t)
    raised : (x : Error) → SameMarket old (err x)

  after_bind :
      (old : Ticker) (r : Result (Option Float)) (f : Option Float → Result Ticker)
      → ((x : Option Float) → SameMarket old (f x))
      → SameMarket old (r >>= f)
  after_bind old (ok x) f h = h x
  after_bind old (err e) f h = raised e

  -- A merge keeps the market of the ticker, whichever of the fields are there.
  merge_ticker-SameMarket :
      (old : Ticker) (delta : Delta Wire) (ts : Option Wire)
      → SameMarket old (merge_ticker convert old delta ts)
  unfolding merge_ticker
  merge_ticker-SameMarket old delta ts =
      after_bind old (merged convert delta.last_price old.last_price) _ (λ _.
        after_bind old (merged convert delta.mark_price old.mark_price) _ (λ _.
          after_bind old (merged convert delta.index_price old.index_price) _ (λ _.
            after_bind old (merged convert delta.prev_price_1h old.prev_price_1h) _ (λ _.
              after_bind old (merged convert delta.turnover_24h old.turnover_24h) _ (λ _.
                after_bind old (merged convert delta.volume_24h old.volume_24h) _ (λ _.
                  after_bind old (merged convert delta.open_interest old.open_interest) _ (λ _.
                    after_bind old (merged convert delta.funding_rate old.funding_rate) _
                      (λ _. same _ refl))))))))

  keep_merged-IsKeyed :
      (key : Identity) (e : PriceEngine) (old : Ticker) (r : Result Ticker)
      → ticker_identity old ≡ key
      → SameMarket old r
      → IsKeyed e
      → IsKeyed (keep_merged convert key e r).0
  keep_merged-IsKeyed key e old (ok t) k (same _ m) h = All-set Own key t e.latest (m ∙ k) h
  keep_merged-IsKeyed key e old (err x) k (raised _) h = h

  merge_existing-IsKeyed :
      (key : Identity) (delta : Delta Wire) (ts : Option Wire) (e : PriceEngine) (o : Option Ticker)
      → get key e.latest ≡ o
      → IsKeyed e
      → IsKeyed (merge_existing convert key delta ts e o).0
  merge_existing-IsKeyed key delta ts e none g h = h
  merge_existing-IsKeyed key delta ts e (some old) g h =
      keep_merged-IsKeyed key e old (merge_ticker convert old delta ts)
        (get-All Own key e.latest g h) (merge_ticker-SameMarket old delta ts) h

  pub update_from_delta-IsKeyed :
      (category symbol : String) (delta : Delta Wire) (ts : Option Wire) (e : PriceEngine)
      → IsKeyed e
      → IsKeyed (update_from_delta convert category symbol delta ts e).0
  unfolding update_from_delta
  update_from_delta-IsKeyed category symbol delta ts e h =
      merge_existing-IsKeyed (category, symbol) delta ts e (get (category, symbol) e.latest) refl h

  -- Everything that can feed the engine.
  pub data Feed : Type 0 where
    polled : (ts : List Ticker) → Feed
    snapshot : (t : Ticker) → Feed
    changed : (category symbol : String) (delta : Delta Wire) (ts : Option Wire) → Feed

  unfoldable pub feed : Feed → PriceEngine → PriceEngine
  feed (polled ts) e = (update_tickers ts e []).0
  feed (snapshot t) e = apply_snapshot t e
  feed (changed category symbol delta ts) e =
      (update_from_delta convert category symbol delta ts e).0

  unfoldable pub feed_all : List Feed → PriceEngine
  feed_all [] = new_engine
  feed_all (f ∷ earlier) = feed f (feed_all earlier)

  keyed : (feeds : List Feed) → IsKeyed (feed_all feeds)
  unfolding feed_all feed
  keyed [] = tt
  keyed (polled ts ∷ earlier) = update_tickers-IsKeyed ts (feed_all earlier) [] (keyed earlier)
  keyed (snapshot t ∷ earlier) = apply_snapshot-IsKeyed t (feed_all earlier) (keyed earlier)
  keyed (changed category symbol delta ts ∷ earlier) =
      update_from_delta-IsKeyed category symbol delta ts (feed_all earlier) (keyed earlier)

  -- Whatever the poll and the stream bring, in any order, each entry of the latest state is a ticker
  -- of the market under which it is found.
  feed_all-own :
      (feeds : List Feed) (category symbol : String) (t : Ticker)
      → get (category, symbol) (feed_all feeds).latest ≡ some t
      → (t.category ≡ category) × (t.symbol ≡ symbol)
  feed_all-own feeds category symbol t g =
      let market = get-All Own (category, symbol) (feed_all feeds).latest g (keyed feeds) in
      (ap (λ i. i.0) market, ap (λ i. i.1) market)
