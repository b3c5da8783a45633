-- ===== src/Alerts/Service/Atomic.antt =====
-- The state and the message of a cycle are recorded together or not at all.
use bybit_crypto_monitor_tel.Base.{
  ℕ, suc, ◌≤◌, ◌≡◌, ◌≢◌, inl, inr, refl, ◌∙◌, ap, Bool, true, false, Option, none, some, [], ◌∷◌,
  ◌++◌, arith, Bool-cases,
}
use bybit_crypto_monitor_tel.Base.Result.{
  Error, Result, ok, err, zero_division_error, integrity_error, value_error,
}
use bybit_crypto_monitor_tel.Config.{Settings, whole_seconds}
use bybit_crypto_monitor_tel.Market.Deduplication.{QualifyingSet, count, fingerprint}
use bybit_crypto_monitor_tel.Persistence.Tables.{
  AlertState, Db, transaction, transaction-err, transaction-ok,
}
use bybit_crypto_monitor_tel.Persistence.Outbox.{
  insert-duplicate, insert-new, is_duplicate, new_notification,
}
use bybit_crypto_monitor_tel.Alerts.StateMachine.{AlertDecision, evaluate, load, save_no_commit}
use bybit_crypto_monitor_tel.Alerts.StateMachine.Cycles.{Cycle}
use bybit_crypto_monitor_tel.Alerts.StateMachine.Policy.{Sends, Sends-in_range}
use bybit_crypto_monitor_tel.Alerts.StateMachine.Hourly.{transition_owns_hour}
use bybit_crypto_monitor_tel.Alerts.Formatter.{
  Formats, transition, composition, hourly, format_alert-ok,
}
use bybit_crypto_monitor_tel.Alerts.Service.{
  kind_of, kind_tag, dedupe_key, Outgoing, prepare, record_cycle, after_transaction, commit_cycle,
  process,
}

-- The database after a message was recorded with the state.
abbrev pub recorded : AlertState → Outgoing → ℕ → Db → Db
recorded state o clock db = record db {
  alert_state = some state;
  outgoing =
      db.outgoing
      ++ new_notification (suc db.last_id) (kind_tag o.kind) o.message clock (some o.key) none none
        ∷ [];
  last_id = suc db.last_id;
}

-- The ways in which a cycle with this decision and this new state can end.
pub data Outcome (d : AlertDecision) (state : AlertState) (clock : ℕ) (db : Db)
    (prepared : Result (Option Outgoing)) (after : Db) (r : Result (AlertDecision × Bool))
    : Type 0 where
  refused :
      (e : Error)
      → prepared ≡ err e
      → after ≡ db
      → r ≡ err e
      → Outcome d state clock db prepared after r
  silent :
      prepared ≡ ok none
      → after ≡ record db { alert_state = some state }
      → r ≡ ok (d, false)
      → Outcome d state clock db prepared after r
  duplicate :
      (o : Outgoing)
      → prepared ≡ ok (some o)
      → is_duplicate (some o.key) db.outgoing ≡ true
      → after ≡ db
      → r ≡ ok (d, false)
      → Outcome d state clock db prepared after r
  sent :
      (o : Outgoing)
      → prepared ≡ ok (some o)
      → is_duplicate (some o.key) db.outgoing ≡ false
      → after ≡ recorded state o clock db
      → r ≡ ok (d, true)
      → Outcome d state clock db prepared after r

module _ (d : AlertDecision) (state : AlertState) (o : Outgoing) (clock : ℕ) (db : Db) where
  commit_cycle-duplicate :
      is_duplicate (some o.key) db.outgoing ≡ true
      → commit_cycle d state clock db (ok (some o)) ≡ (db, ok (d, false))
  unfolding commit_cycle record_cycle after_transaction save_no_commit
  commit_cycle-duplicate h =
      rw
        (transaction-err (record_cycle state (some o) clock) db integrity_error (
          rw
            (insert-duplicate (kind_tag o.kind) o.message clock (some o.key) none none
              (save_no_commit state db) h)
            refl))
        refl

  commit_cycle-new :
      is_duplicate (some o.key) db.outgoing ≡ false
      → commit_cycle d state clock db (ok (some o)) ≡ (recorded state o clock db, ok (d, true))
  unfolding commit_cycle record_cycle after_transaction save_no_commit
  commit_cycle-new h =
      rw
        (transaction-ok (record_cycle state (some o) clock) db (recorded state o clock db)
          (some (suc db.last_id))
          (rw
            (insert-new (kind_tag o.kind) o.message clock (some o.key) none none
              (save_no_commit state db) h)
            refl))
        refl

commit_cycle-Outcome :
    (d : AlertDecision) (state : AlertState) (clock : ℕ) (db : Db) (p : Result (Option Outgoing))
    → let (after, r) = commit_cycle d state clock db p in Outcome d state clock db p after r
unfolding commit_cycle transaction record_cycle save_no_commit after_transaction
commit_cycle-Outcome d state clock db (err e) = refused e refl refl refl
commit_cycle-Outcome d state clock db (ok none) = silent refl refl refl
commit_cycle-Outcome d state clock db (ok (some o)) =
    elim (Bool-cases (is_duplicate (some o.key) db.outgoing)) [
      | inl dup ↦
          let e = commit_cycle-duplicate d state o clock db dup in
          duplicate o refl dup (ap (λ w. w.0) e) (ap (λ w. w.1) e)
      | inr new ↦
          let e = commit_cycle-new d state o clock db new in
          sent o refl new (ap (λ w. w.0) e) (ap (λ w. w.1) e)
    ]

module _ (text : Formats) (config : Settings) (q : QualifyingSet) (now clock : ℕ) (db : Db) where
  -- One cycle, on every branch. Either an exception leaves the database as it was; or there is
  -- nothing to send and the state is saved; or the key of the message is taken, and neither the
  -- state nor the message is written; or both are, and only then is the dispatcher woken.
  pub process-Outcome :
      let (d, state) = evaluate config q now db in
      let (after, r) = process text config q now clock db in
      Outcome d state clock db (prepare text config q now d) after r
  unfolding process
  process-Outcome =
      let (d, state) = evaluate config q now db in
      commit_cycle-Outcome d state clock db (prepare text config q now d)

  abbrev decision : AlertDecision
  decision = (evaluate config q now db).0

  cycle : Cycle
  cycle = record { coins = count q; fingerprint = fingerprint q; now = now }

  few_coins : Sends decision → count q ≤ config.max_qualifying_coins
  unfolding evaluate cycle
  few_coins sends = (Sends-in_range config cycle (load db) sends).1

  prepare-value_error :
      (d : AlertDecision)
      → (Sends d → count q ≤ config.max_qualifying_coins)
      → prepare text config q now d ≢ err value_error
  unfolding prepare kind_of dedupe_key
  prepare-value_error d few e = ground (
    arith,
    format_alert-ok text q config now transition,
    format_alert-ok text q config now composition,
    format_alert-ok text q config now hourly,
  )

  after_transaction-value_error :
      (d : AlertDecision) (p : Result (Option Outgoing)) (w : Db × Result (AlertDecision × Bool))
      → Outcome d (evaluate config q now db).1 clock db p w.0 w.1
      → p ≢ err value_error
      → w.1 ≢ err value_error
  after_transaction-value_error d p w (refused e pe _ re) h k =
      let same : e ≡ value_error = cc (re, k) in h (pe ∙ ap err same)
  after_transaction-value_error d p w (silent _ _ re) h k = cc
  after_transaction-value_error d p w (duplicate _ _ _ _ re) h k = cc
  after_transaction-value_error d p w (sent _ _ _ _ re) h k = cc

  -- The formatter's refusal of too many coins is never met: no cycle raises ValueError.
  process-ne-value_error : (process text config q now clock db).1 ≢ err value_error
  process-ne-value_error =
      after_transaction-value_error decision (prepare text config q now decision)
        (process text config q now clock db) process-Outcome
        (prepare-value_error decision few_coins)

  update_alone : decision.composition_update ≡ true → decision.live_transition ≡ false
  unfolding evaluate cycle
  update_alone up = elim (Bool-cases decision.live_transition) [
    | inl live ↦ cc (up, (transition_owns_hour config cycle [] (load db) live tt).0)
    | inr not_live ↦ not_live
  ]

  prepare_zero_cooldown :
      (d : AlertDecision)
      → whole_seconds config.composition_change_cooldown_seconds ≡ 0
      → d.live_transition ≡ false
      → d.composition_update ≡ true
      → count q ≤ config.max_qualifying_coins
      → prepare text config q now d ≡ err zero_division_error
  unfolding prepare kind_of dedupe_key
  prepare_zero_cooldown d none_whole not_live up few =
      let (m, formatted) = format_alert-ok text q config now composition few in
      ground (arith, formatted)

  -- With a cooldown of less than a second, a cycle that decides on a composition update raises
  -- ZeroDivisionError, and neither the state nor a message is written.
  pub process_zero_cooldown :
      whole_seconds config.composition_change_cooldown_seconds ≡ 0
      → decision.composition_update ≡ true
      → process text config q now clock db ≡ (db, err zero_division_error)
  unfolding process commit_cycle
  process_zero_cooldown none_whole up =
      rw (prepare_zero_cooldown decision none_whole (update_alone up) up (few_coins (inr (inl up))))
        refl
