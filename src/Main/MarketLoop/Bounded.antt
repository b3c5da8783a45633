-- ===== src/Main/MarketLoop/Bounded.antt =====
-- What a turn of the market loop of app/main.py may send, from the prices to the outbox.
use bybit_crypto_monitor_tel.Base.{
  ℕ, suc, String_eq, ◌≤◌, ◌≡◌, ◌⊎◌, inl, inr, refl, ap, Bool, true, some, String, List, [], ◌∷◌,
  ◌++◌, elem, distinct, any, length, arith,
}
use bybit_crypto_monitor_tel.Base.Float.{Float}
use bybit_crypto_monitor_tel.Base.Result.{Result, ok, err}
use bybit_crypto_monitor_tel.Config.{Settings}
use bybit_crypto_monitor_tel.Persistence.Tables.{AlertState, Db, Notification}
use bybit_crypto_monitor_tel.Persistence.Instruments.{Table}
use bybit_crypto_monitor_tel.Market.Deduplication.{
  QualifyingSet, count, base_coins, fingerprint, aggregate_qualifying,
}
use bybit_crypto_monitor_tel.Market.Deduplication.Coins.{
  qualifies_as, elem-aggregate_qualifying, aggregate_qualifying-distinct,
}
use bybit_crypto_monitor_tel.Market.PriceEngine.{PriceEngine}
use bybit_crypto_monitor_tel.Alerts.StateMachine.{AlertDecision, evaluate, load}
use bybit_crypto_monitor_tel.Alerts.StateMachine.Cycles.{Cycle}
use bybit_crypto_monitor_tel.Alerts.StateMachine.Policy.{Sends, Sends-in_range}
use bybit_crypto_monitor_tel.Alerts.Formatter.{Formats}
use bybit_crypto_monitor_tel.Alerts.Service.{kind_of, Outgoing, prepare, process}
use bybit_crypto_monitor_tel.Alerts.Service.Atomic.{
  Outcome, refused, silent, duplicate, sent, process-Outcome,
}
use bybit_crypto_monitor_tel.Main.MarketLoop.{Clocks, Shared, after_process, evaluated, market_turn}

length-base_coins : (q : QualifyingSet) → length (base_coins q) ≡ count q
length-base_coins [] = refl
length-base_coins (r ∷ rs) = ap suc (length-base_coins rs)

prepare-Sends :
    (text : Formats) (config : Settings) (q : QualifyingSet) (now : ℕ) (d : AlertDecision)
    (o : Outgoing)
    → prepare text config q now d ≡ ok (some o)
    → Sends d
unfolding prepare kind_of
prepare-Sends text config q now d o e = ground arith

after_process-db :
    (config : Settings) (pruned_at : ℕ) (w : Shared) (r : Result (AlertDecision × Bool))
    → (after_process config pruned_at w r).0.db ≡ w.db
unfolding after_process
after_process-db config pruned_at w (err e) = refl
after_process-db config pruned_at w (ok (d, woken)) = refl

-- The outbox is as it was, or has one more row, and then the number of coins is in the bounds.
abbrev pub Bounded : Settings → ℕ → Db → Db → Type 0
Bounded config coins before after =
    (after.outgoing ≡ before.outgoing)
    ⊎ ((row : Notification) × (after.outgoing ≡ before.outgoing ++ row ∷ [])
        × (config.min_qualifying_coins ≤ coins)
        × (coins ≤ config.max_qualifying_coins))

module _ (text : Formats) (config : Settings) (q : QualifyingSet) (now clock : ℕ) (db : Db) where
  cycle : Cycle
  cycle = record { coins = count q; fingerprint = fingerprint q; now = now }

  decided : AlertDecision
  decided = (evaluate config q now db).0

  in_bounds :
      Sends decided
      → (config.min_qualifying_coins ≤ count q) × (count q ≤ config.max_qualifying_coins)
  unfolding evaluate cycle decided
  in_bounds sends = Sends-in_range config cycle (load db) sends

  Outcome-Bounded :
      (state : AlertState) (after : Db) (r : Result (AlertDecision × Bool))
      → Outcome decided state clock db (prepare text config q now decided) after r
      → Bounded config (count q) db after
  Outcome-Bounded state after r (refused e p same _) = inl (ap (λ (d : Db). d.outgoing) same)
  Outcome-Bounded state after r (silent p same _) = inl (ap (λ (d : Db). d.outgoing) same)
  Outcome-Bounded state after r (duplicate o p _ same _) = inl (ap (λ (d : Db). d.outgoing) same)
  Outcome-Bounded state after r (sent o p _ same _) =
      let (low, high) = in_bounds (prepare-Sends text config q now decided o p) in
      inr (_, ap (λ (d : Db). d.outgoing) same, low, high)

  process-Bounded : Bounded config (count q) db (process text config q now clock db).0
  unfolding decided
  process-Bounded =
      Outcome-Bounded (evaluate config q now db).1 (process text config q now clock db).0
        (process text config q now clock db).1 (process-Outcome text config q now clock db)

-- A turn of the market loop writes nothing to the outbox or appends one row, and a row only if the
-- number of distinct base coins, of which some evaluated market rose by more than the threshold,
-- lies between the configured bounds.
pub market_turn-Bounded :
    (raw_change : Float → Float → Float) (upper : String → String) (text : Formats)
    (config : Settings) (engine : PriceEngine) (table : Table) (clocks : Clocks) (w : Shared)
    → let found = (evaluated raw_change config engine table clocks.evaluated_at w.history).1 in
      (coins : List String) × (distinct coins ≡ true)
      × ((c : String) → elem c coins ≡ any (qualifies_as config.alert_threshold_percent c) found)
      × Bounded config
          (length coins)
          w.db
          (market_turn raw_change upper text config engine table clocks w).0.db
unfolding market_turn
market_turn-Bounded raw_change upper text config engine table clocks w =
    let (history, found) = evaluated raw_change config engine table clocks.evaluated_at w.history in
    let q = aggregate_qualifying upper found config.alert_threshold_percent in
    let (db, result) = process text config q clocks.decided_at clocks.inserted_at w.db in
    (
      base_coins q,
      aggregate_qualifying-distinct upper found config.alert_threshold_percent,
      elem-aggregate_qualifying upper found config.alert_threshold_percent,
      rw
          (
            length-base_coins q,
            after_process-db config clocks.pruned_at
                (record { history = history; db = db; monitor = w.monitor }) result,
          )
          (process-Bounded text config q clocks.decided_at clocks.inserted_at w.db),
    )
