-- ===== src/Persistence/Lock.antt =====
-- app/persistence/database.py: the lock of the one connection, under tasks that take turns at each
-- await. A task is a number; what a statement does is not looked at, only when it is executed.
pub mod Serial
use bybit_crypto_monitor_tel.Base.{
  ℕ, ◌≡◌, Option, none, some, List, [], ◌∷◌, ℕ_eq, some_eq, nat_eq, if◌then◌else◌,
}

-- Where a task is: outside, in a transaction, or in `_guarded` outside any.
pub data Place : Type 0 where
  idle in_transaction guarded : Place

-- What the connection executes, with the task that asked for it; `finish` is a commit or a rollback.
pub data Op : Type 0 where
  begin statement finish : ℕ → Op

-- `log` stands for the connection: the latest operation first.
pub record Connection : Type 0 where
  pub lock : Option ℕ
  pub tx_owner : Option ℕ
  pub place : ℕ → Place
  pub log : List Op

abbrev pub connected : Connection
connected = record { lock = none; tx_owner = none; place = λ t. idle; log = [] }

abbrev pub move : ℕ → Place → (ℕ → Place) → ℕ → Place
move t p places j = if nat_eq t j then p else places j

-- How an entry ends: it succeeds, waits for the lock, goes on as the owner, or raises RuntimeError.
pub data Entry : Type 0 where
  entered : Connection → Entry
  blocked reentrant nested : Entry

abbrev pub begun : ℕ → Connection → Connection
begun t c = record c {
  lock = some t;
  tx_owner = some t;
  place = move t in_transaction c.place;
  log = begin t ∷ c.log;
}

abbrev pub begin_free : ℕ → Connection → Option ℕ → Entry
begin_free t c none = entered (begun t c)
begin_free t c (some _) = blocked

-- `transaction`, up to the `yield`.
unfoldable pub begin_transaction : ℕ → Connection → Entry
begin_transaction t c = if some_eq c.tx_owner t then nested else begin_free t c c.lock

-- `transaction`, from the end of the block on.
unfoldable pub end_transaction : ℕ → Connection → Connection
end_transaction t c = record c {
  lock = none;
  tx_owner = none;
  place = move t idle c.place;
  log = finish t ∷ c.log;
}

abbrev pub taken : ℕ → Connection → Connection
taken t c = record c { lock = some t; place = move t guarded c.place }

abbrev pub guard_free : ℕ → Connection → Option ℕ → Entry
guard_free t c none = entered (taken t c)
guard_free t c (some _) = blocked

-- `_guarded`, up to the `yield`.
unfoldable pub enter_guard : ℕ → Connection → Entry
enter_guard t c = if some_eq c.tx_owner t then reentrant else guard_free t c c.lock

unfoldable pub leave_guard : ℕ → Connection → Connection
leave_guard t c = record c { lock = none; place = move t idle c.place }

abbrev pub execute : ℕ → Connection → Connection
execute t c = record c { log = statement t ∷ c.log }

-- What one task does at a time; taking the free lock and the BEGIN under it are one step, as no other
-- task can use the connection in between. A BEGIN that fails is left out.
pub data Step (c : Connection) : Connection → Type 0 where
  begins :
      (t : ℕ) (d : Connection) → c.place t ≡ idle → begin_transaction t c ≡ entered d → Step c d
  nests : (t : ℕ) → begin_transaction t c ≡ nested → Step c c
  ends : (t : ℕ) → c.place t ≡ in_transaction → Step c (end_transaction t c)
  executes_inside :
      (t : ℕ) → c.place t ≡ in_transaction → enter_guard t c ≡ reentrant → Step c (execute t c)
  takes : (t : ℕ) (d : Connection) → c.place t ≡ idle → enter_guard t c ≡ entered d → Step c d
  executes : (t : ℕ) → c.place t ≡ guarded → Step c (execute t c)
  leaves : (t : ℕ) → c.place t ≡ guarded → Step c (leave_guard t c)

pub data Reach : Connection → Type 0 where
  start : Reach connected
  later : {c d : Connection} → Reach c → Step c d → Reach d
