-- ===== src/Persistence/Lock/Serial.antt =====
-- Transactions of app/persistence/database.py are not interleaved with other statements.
use bybit_crypto_monitor_tel.Base.{
  ℕ, ◌≡◌, refl, subst, ◌∙◌, Bool, true, false, Option, none, some, List, [], ◌∷◌, ◌⊎◌, inl, inr,
  ℕ_eq, some_eq, if◌then◌else◌, arith,
}
use bybit_crypto_monitor_tel.Persistence.Lock.{
  in_transaction, guarded, Op, begin, statement, finish, Connection, Entry, entered, reentrant,
  nested, begun, begin_free, taken, guard_free, begin_transaction, end_transaction, enter_guard,
  leave_guard, execute, Step, begins, nests, ends, executes_inside, takes, executes, leaves, Reach,
  start, later,
}

-- The task whose transaction is open after some operations.
abbrev pub open_in : List Op → Option ℕ
open_in [] = none
open_in (begin t ∷ earlier) = some t
open_in (finish t ∷ earlier) = none
open_in (statement t ∷ earlier) = open_in earlier

-- An operation that fits the open transaction: none begins inside another, none ends but its own,
-- and a statement inside one is its owner's.
abbrev pub Fits : Op → Option ℕ → Type 0
Fits (begin t) o = o ≡ none
Fits (finish t) o = o ≡ some t
Fits (statement t) o = (o ≡ none) ⊎ (o ≡ some t)

abbrev pub Serial : List Op → Type 0
Serial [] = Unit
Serial (op ∷ earlier) = Fits op (open_in earlier) × Serial earlier

-- Who is in a transaction owns it and holds the lock, and who is guarded holds the lock and no
-- transaction is open.
record Inv (c : Connection) : Type 0 where
  owns : (t : ℕ) → c.place t ≡ in_transaction → (c.lock ≡ some t) × (c.tx_owner ≡ some t)
  holds : (t : ℕ) → c.place t ≡ guarded → (c.lock ≡ some t) × (c.tx_owner ≡ none)
  free : c.lock ≡ none → c.tx_owner ≡ none
  logged : open_in c.log ≡ c.tx_owner
  serial : Serial c.log

-- A call that got in did not end before.
not_early :
    (b : Bool) (early rest : Entry) (d : Connection)
    → (early ≡ entered d → ⊥)
    → (if b then early else rest) ≡ entered d
    → rest ≡ entered d
not_early true early rest d differs e = absurd (differs e)
not_early false early rest d differs e = e

-- A task that gets in found the lock free.
begin_free-entered :
    (t : ℕ) (c d : Connection) (o : Option ℕ)
    → begin_free t c o ≡ entered d
    → (o ≡ none) × (begun t c ≡ d)
begin_free-entered t c d none e = (refl, cc)
begin_free-entered t c d (some u) e = cc

begin-entered :
    (t : ℕ) (c d : Connection)
    → begin_transaction t c ≡ entered d
    → (c.lock ≡ none) × (begun t c ≡ d)
unfolding begin_transaction
begin-entered t c d e =
    begin_free-entered t c d c.lock (not_early (some_eq c.tx_owner t) nested _ d (λ h. cc) e)

guard_free-entered :
    (t : ℕ) (c d : Connection) (o : Option ℕ)
    → guard_free t c o ≡ entered d
    → (o ≡ none) × (taken t c ≡ d)
guard_free-entered t c d none e = (refl, cc)
guard_free-entered t c d (some u) e = cc

guard-entered :
    (t : ℕ) (c d : Connection) → enter_guard t c ≡ entered d → (c.lock ≡ none) × (taken t c ≡ d)
unfolding enter_guard
guard-entered t c d e =
    guard_free-entered t c d c.lock (not_early (some_eq c.tx_owner t) reentrant _ d (λ h. cc) e)

module _ (t : ℕ) (c : Connection) (inv : Inv c) where
  begun-Inv : c.lock ≡ none → Inv (begun t c)
  begun-Inv free = record {
    owns = λ j at. ground (arith, inv.owns j, inv.holds j, inv.free free);
    holds = λ j at. ground (arith, inv.owns j, inv.holds j, inv.free free);
    free = λ e. cc;
    logged = refl;
    serial = (inv.logged ∙ inv.free free, inv.serial);
  }

  taken-Inv : c.lock ≡ none → Inv (taken t c)
  taken-Inv free = record {
    owns = λ j at. ground (arith, inv.owns j, inv.holds j, inv.free free);
    holds = λ j at. ground (arith, inv.owns j, inv.holds j, inv.free free);
    free = λ e. cc;
    logged = inv.logged;
    serial = inv.serial;
  }

  ended-Inv : c.place t ≡ in_transaction → Inv (end_transaction t c)
  unfolding end_transaction
  ended-Inv at = record {
    owns = λ j there. ground (arith, inv.owns j, inv.holds j, inv.owns t at);
    holds = λ j there. ground (arith, inv.owns j, inv.holds j, inv.owns t at);
    free = λ _. refl;
    logged = refl;
    serial = (inv.logged ∙ (inv.owns t at).1, inv.serial);
  }

  left-Inv : c.place t ≡ guarded → Inv (leave_guard t c)
  unfolding leave_guard
  left-Inv at = record {
    owns = λ j there. ground (arith, inv.owns j, inv.holds j, inv.holds t at);
    holds = λ j there. ground (arith, inv.owns j, inv.holds j, inv.holds t at);
    free = λ _. (inv.holds t at).1;
    logged = inv.logged;
    serial = inv.serial;
  }

  executed-Inv : (c.tx_owner ≡ none) ⊎ (c.tx_owner ≡ some t) → Inv (execute t c)
  executed-Inv own = record {
    owns = inv.owns;
    holds = inv.holds;
    free = inv.free;
    logged = inv.logged;
    serial = (rw inv.logged own, inv.serial);
  }

Step-Inv : {c d : Connection} → Step c d → Inv c → Inv d
Step-Inv {c} (begins t d at e) inv =
    let (free, same) = begin-entered t c d e in subst Inv same (begun-Inv t c inv free)
Step-Inv (nests t e) inv = inv
Step-Inv {c} (ends t at) inv = ended-Inv t c inv at
Step-Inv {c} (executes_inside t at e) inv = executed-Inv t c inv (inr (inv.owns t at).1)
Step-Inv {c} (takes t d at e) inv =
    let (free, same) = guard-entered t c d e in subst Inv same (taken-Inv t c inv free)
Step-Inv {c} (executes t at) inv = executed-Inv t c inv (inl (inv.holds t at).1)
Step-Inv {c} (leaves t at) inv = left-Inv t c inv at

Reach-Inv : {c : Connection} → Reach c → Inv c
Reach-Inv start = record {
  owns = λ t at. cc;
  holds = λ t at. cc;
  free = λ _. refl;
  logged = refl;
  serial = tt;
}
Reach-Inv (later r s) = Step-Inv s (Reach-Inv r)

-- Whatever the tasks do, the operations of the connection are serial: no statement of another task
-- and no other BEGIN stands between the BEGIN and the end of a transaction.
pub Reach-Serial : {c : Connection} → Reach c → Serial c.log
Reach-Serial r = (Reach-Inv r).serial
