-- ===== src/Market/PriceEngine/Counts.antt =====
-- What a batch of tickers does to the latest prices.
use bybit_crypto_monitor_tel.Base.{
  ◌≡◌, refl, ◌∙◌, ap, Bool, true, false, ◌&&◌, Option, none, some, List, [], ◌∷◌, ◌==◌, String_eq,
  pair_eq, if◌then◌else◌, Bool-cases, inl, inr,
}
use bybit_crypto_monitor_tel.Base.Dict.{Dict, get, set, get-set}
use bybit_crypto_monitor_tel.Bybit.Models.{Identity, Ticker, ticker_identity}
use bybit_crypto_monitor_tel.Market.PriceEngine.{PriceEngine, accept, update_tickers, store, refuse}

abbrev pub later : Option Ticker → Option Ticker → Option Ticker
later (some t) earlier = some t
later none earlier = earlier

-- The last accepted ticker of a market.
unfoldable pub last_accepted : Identity → List Ticker → Option Ticker
last_accepted k [] = none
last_accepted k (t ∷ ts) =
    later (last_accepted k ts) (if accept t && ticker_identity t == k then some t else none)

later-later : (a b c : Option Ticker) → later a (later b c) ≡ later (later a b) c
later-later none b c = refl
later-later (some t) b c = refl

later-if :
    (b : Bool) (t : Ticker) (old : Option Ticker)
    → (if b then some t else old) ≡ later (if b then some t else none) old
later-if true t old = refl
later-if false t old = refl

-- After a batch, each market has its last accepted ticker, or else the one it had before; and the
-- dictionary of the accepted tickers has grown by the same.
pub get-update_tickers :
    (ts : List Ticker) (e : PriceEngine) (updated : Dict Identity Ticker) (k : Identity)
    → let (after, accepted) = update_tickers ts e updated in
      (get k after.latest ≡ later (last_accepted k ts) (get k e.latest))
      × (get k accepted ≡ later (last_accepted k ts) (get k updated))
unfolding update_tickers last_accepted
get-update_tickers [] e updated k = (refl, refl)
get-update_tickers (t ∷ ts) e updated k = elim (Bool-cases (accept t)) [
  | inl good ↦
      let i = ticker_identity t in
      let (left, right) = get-update_tickers ts (store t e) (set i t updated) k in
      rw good (
        left
            ∙ ap (later (last_accepted k ts))
                (get-set i k t e.latest ∙ later-if (i == k) t (get k e.latest))
            ∙ later-later (last_accepted k ts) (if i == k then some t else none) (get k e.latest),
        right
            ∙ ap (later (last_accepted k ts))
                (get-set i k t updated ∙ later-if (i == k) t (get k updated))
            ∙ later-later (last_accepted k ts) (if i == k then some t else none) (get k updated),
      )
  | inr bad ↦
      let (left, right) = get-update_tickers ts (refuse e) updated k in
      rw bad (
        left ∙ later-later (last_accepted k ts) none (get k e.latest),
        right ∙ later-later (last_accepted k ts) none (get k updated),
      )
]
