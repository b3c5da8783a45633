-- ===== src/Alerts/Service.antt =====
-- app/alerts/service.py: one decision cycle, with its state and its message recorded in one
-- transaction.
pub mod Atomic
use bybit_crypto_monitor_tel.Base.{
  ℕ, ◌/◌, Bool, true, false, Option, none, some, String, List, [], ◌∷◌, nat_eq, if◌then◌else◌,
}
use bybit_crypto_monitor_tel.Base.Text.{concat, join, decimal}
use bybit_crypto_monitor_tel.Base.Result.{
  Error, Result, ok, err, zero_division_error, integrity_error, value_error, ◌>>=◌,
}
use bybit_crypto_monitor_tel.Config.{Settings, whole_seconds}
use bybit_crypto_monitor_tel.Market.Deduplication.{QualifyingSet}
use bybit_crypto_monitor_tel.Persistence.Tables.{AlertState, Db, transaction}
use bybit_crypto_monitor_tel.Persistence.Outbox.{insert_outgoing_notification}
use bybit_crypto_monitor_tel.Alerts.StateMachine.{
  AlertDecision, hourly_bucket, evaluate, save_no_commit,
}
use bybit_crypto_monitor_tel.Alerts.Formatter.{
  Formats, Kind, transition, composition, hourly, format_alert,
}

unfoldable pub kind_of : AlertDecision → Option Kind
kind_of d =
    if d.live_transition
    then some transition
    else if d.composition_update
    then some composition
    else if d.hourly_update
    then some hourly
    else none

abbrev pub kind_tag : Kind → String
kind_tag transition = "transition"
kind_tag composition = "composition"
kind_tag hourly = "hourly"

-- `int(now) // cooldown` divides by zero when the cooldown is less than a second.
unfoldable pub dedupe_key : Settings → Kind → List String → ℕ → Result String
dedupe_key config transition coins now =
    ok (concat ("transition:" ∷ decimal now ∷ ":" ∷ join ":" coins ∷ []))
dedupe_key config hourly coins now =
    ok (concat ("hourly:" ∷ hourly_bucket now ∷ ":" ∷ join ":" coins ∷ []))
dedupe_key config composition coins now =
    let cooldown = whole_seconds config.composition_change_cooldown_seconds in
    if nat_eq cooldown 0
    then err zero_division_error
    else ok (concat ("composition:" ∷ join ":" coins ∷ ":" ∷ decimal (now / cooldown) ∷ []))

-- The message and its key, if the decision asks for one.
pub record Outgoing : Type 0 where
  pub kind : Kind
  pub message : String
  pub key : String

unfoldable pub prepare :
    Formats → Settings → QualifyingSet → ℕ → AlertDecision → Result (Option Outgoing)
prepare text config qualifying now d = elim (kind_of d) [
  | none ↦ ok none
  | some kind ↦ do
    message ← format_alert text qualifying config now kind
    key ← dedupe_key config kind d.fingerprint now
    ok (some (record { kind = kind; message = message; key = key }))
]

-- The body of the transaction: the state, then the row.
unfoldable pub record_cycle : AlertState → Option Outgoing → ℕ → Db → Result (Db × Option ℕ)
record_cycle state none clock db = ok (save_no_commit state db, none)
record_cycle state (some o) clock db = do
  (written, id) ←
      insert_outgoing_notification (kind_tag o.kind) o.message clock (some o.key) none none
        (save_no_commit state db)
  ok (written, some id)

-- `except sqlite3.IntegrityError` with its `else`: whether the dispatcher is woken.
unfoldable pub after_transaction : AlertDecision → Result (Option ℕ) → Result (AlertDecision × Bool)
after_transaction d (ok none) = ok (d, false)
after_transaction d (ok (some id)) = ok (d, true)
after_transaction d (err integrity_error) = ok (d, false)
after_transaction d (err e) = err e

unfoldable pub commit_cycle :
    AlertDecision
    → AlertState
    → ℕ
    → Db
    → Result (Option Outgoing)
    → Db × Result (AlertDecision × Bool)
commit_cycle d state clock db (err e) = (db, err e)
commit_cycle d state clock db (ok o) =
    let (after, r) = transaction (record_cycle state o clock) db in (after, after_transaction d r)

-- `clock` is the time that the insertion reads.
unfoldable pub process :
    Formats → Settings → QualifyingSet → (now clock : ℕ) → Db → Db × Result (AlertDecision × Bool)
process text config qualifying now clock db =
    let (d, state) = evaluate config qualifying now db in
    commit_cycle d state clock db (prepare text config qualifying now d)
