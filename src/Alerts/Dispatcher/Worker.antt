-- ===== src/Alerts/Dispatcher/Worker.antt =====
-- The worker's supervision: `_run`, `start`, `stop` and `worker_healthy`.
use bybit_crypto_monitor_tel.Base.{
  ℕ, suc, ◌+◌, ◌≡◌, refl, Bool, true, false, Option, none, some, List, [], ◌∷◌, leb, arith,
}

pub data Task : Type 0 where
  absent running done : Task

pub record Worker : Type 0 where
  pub task : Task
  pub started_at : Option ℕ
  pub last_iteration_at : Option ℕ
  pub last_error_at : Option ℕ
  pub error_count : ℕ
  pub consecutive_failures : ℕ

abbrev pub max_consecutive_worker_failures : ℕ
max_consecutive_worker_failures = 5

abbrev pub new_worker : Worker
new_worker = record {
  task = absent;
  started_at = none;
  last_iteration_at = none;
  last_error_at = none;
  error_count = 0;
  consecutive_failures = 0;
}

abbrev pub start : ℕ → Worker → Worker
start now w = record w { started_at = some now; task = running }

-- How one `_iteration` ends, with the clock that is read after it.
pub data Turn : Type 0 where
  returned raised : ℕ → Turn

unfoldable pub after_turn : Turn → Worker → Worker
after_turn (returned now) w = record w { consecutive_failures = 0; last_iteration_at = some now }
after_turn (raised now) w = record w {
  consecutive_failures = w.consecutive_failures + 1;
  error_count = w.error_count + 1;
  last_error_at = some now;
}

unfoldable pub worker_healthy : Worker → Bool
worker_healthy w = elim w.task [
  | absent ↦ true
  | done ↦ false
  | running ↦ leb w.consecutive_failures max_consecutive_worker_failures
]

-- The turns of a run, the latest first.
unfoldable pub after_turns : List Turn → Worker → Worker
after_turns [] w = w
after_turns (t ∷ earlier) w = after_turn t (after_turns earlier w)

-- The failures since the last turn that returned.
abbrev pub recent_failures : List Turn → ℕ
recent_failures [] = 0
recent_failures (returned _ ∷ earlier) = 0
recent_failures (raised _ ∷ earlier) = suc (recent_failures earlier)

consecutive_failures_lem :
    (turns : List Turn) (now : ℕ)
    → let w = after_turns turns (start now new_worker) in
      (w.consecutive_failures ≡ recent_failures turns) × (w.task ≡ running)
unfolding after_turns after_turn
consecutive_failures_lem [] now = (refl, refl)
consecutive_failures_lem (returned _ ∷ earlier) now =
    (refl, (consecutive_failures_lem earlier now).1)
consecutive_failures_lem (raised _ ∷ earlier) now =
    let (same, alive) = consecutive_failures_lem earlier now in (omega (arith, same), alive)

-- A started worker reports itself healthy exactly while at most five turns have failed since the
-- last turn that returned, whatever came before.
pub worker_healthy-recent :
    (turns : List Turn) (now : ℕ)
    → worker_healthy (after_turns turns (start now new_worker)) ≡ leb (recent_failures turns) 5
unfolding worker_healthy
worker_healthy-recent turns now =
    let (same, alive) = consecutive_failures_lem turns now in rw (alive, same) refl
