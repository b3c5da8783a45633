-- ===== src/Persistence/Migrations/Prefix.antt =====
-- What a run of app/persistence/migrations.py leaves of the database.
use bybit_crypto_monitor_tel.Base.{
  ℕ, max, ◌≤◌, ◌≡◌, inl, inr, refl, ap, Bool, true, Bool-cases, Option, none, some, String, List,
  [], ◌∷◌, ◌++◌, leb, keep, All, All-map, arith, any, not,
}
use bybit_crypto_monitor_tel.Base.Result.{Error, Result, ok, err, ◌>>=◌}
use bybit_crypto_monitor_tel.Persistence.Migrations.{
  Version, Migration, max_version, Migrated, create_versions, has_version, execute_all,
  insert_version, migrate, then_apply, apply_from, apply_migrations,
}

abbrev pub is_pending : ℕ → Migration → Bool
is_pending current m = not (leb m.version current)

module _ {ℓ} {S : Type ℓ} (execute : String → S → Result S) (clock : ℕ → ℕ) where
  -- These migrations are committed one after the other, each as a whole.
  pub data Commits : List Migration → Migrated S → Migrated S → Type ℓ where
    done : (db : Migrated S) → Commits [] db db
    commit :
        (m : Migration) (ms : List Migration) (db middle after : Migrated S)
        → migrate execute (clock m.version) m db ≡ ok middle
        → Commits ms middle after
        → Commits (m ∷ ms) db after

  -- What is left of the list when the run ends: nothing, or a migration that raises on the database
  -- as it is.
  pub data Stops : List Migration → Migrated S → Option Error → Type ℓ where
    complete : (after : Migrated S) → Stops [] after none
    raising :
        (m : Migration) (ms : List Migration) (after : Migrated S) (e : Error)
        → migrate execute (clock m.version) m after ≡ err e
        → Stops (m ∷ ms) after (some e)

  -- A run over a list of migrations that are all to be applied.
  abbrev pub Runs : List Migration → Migrated S → Migrated S → Option Error → Type ℓ
  Runs pending db after e =
      (applied : List Migration) × (rest : List Migration) × (pending ≡ applied ++ rest)
      × Commits applied db after
      × Stops rest after e

  then_apply-Runs :
      (m : Migration) (pending : List Migration) (db : Migrated S)
      (next : Migrated S → Migrated S × Option Error) (v : Result (Migrated S))
      → migrate execute (clock m.version) m db ≡ v
      → ((middle : Migrated S) → Runs pending middle (next middle).0 (next middle).1)
      → let (after, e) = then_apply execute db next v in Runs (m ∷ pending) db after e
  then_apply-Runs m pending db next (err e) p h =
      ([], m ∷ pending, refl, done db, raising m pending db e p)
  then_apply-Runs m pending db next (ok middle) p h =
      let (applied, rest, same, commits, stop) = h middle in
      (m ∷ applied, rest, ap (◌∷◌ m) same, commit m applied db middle _ p commits, stop)

  apply_from-Runs :
      (current : ℕ) (ms : List Migration) (db : Migrated S)
      → let (after, e) = apply_from execute clock current ms db in
        Runs (keep (is_pending current) ms) db after e
  unfolding apply_from
  apply_from-Runs current [] db = ([], [], refl, done db, complete db)
  apply_from-Runs current (m ∷ ms) db = elim (Bool-cases (leb m.version current)) [
    | inl old ↦ rw old (apply_from-Runs current ms db)
    | inr new ↦ rw new (
        then_apply-Runs m (keep (is_pending current) ms) db (apply_from execute clock current ms)
          (migrate execute (clock m.version) m db) refl (apply_from-Runs current ms))
  ]

-- The highest version does not sink, and is above what was recorded.
max_version-append :
    (vs : List Version) (v : Version) → max_version (vs ++ v ∷ []) ≡ max (max_version vs) v.version
unfolding max_version
max_version-append [] v = omega arith
max_version-append (w ∷ vs) v = rw (max_version-append vs v) (omega arith)

module _ {ℓ} {S : Type ℓ} (execute : String → S → Result S) (clock : ℕ → ℕ) where
  -- Every migration is at most the highest version that is recorded, or that was current.
  abbrev Covered : ℕ → List Migration → Migrated S → Type 0
  Covered current ms after = All (λ m. m.version ≤ max current (max_version after.versions)) ms

  insert_version-max :
      (now n : ℕ) (db : Migrated S) (schema : S) (after : Migrated S)
      → insert_version execute now n db schema ≡ ok after
      → max_version after.versions ≡ max (max_version db.versions) n
  unfolding insert_version
  insert_version-max now n db schema after e = elim (Bool-cases (any (has_version n) db.versions)) [
    | inl taken ↦ ground arith
    | inr free ↦
        let same : after.versions ≡ db.versions ++ record { version = n; applied_at = now } ∷ [] =
          ground arith in
        rw same (max_version-append db.versions (record { version = n; applied_at = now }))
  ]

  executed-max :
      (now n : ℕ) (db : Migrated S) (r : Result S) (after : Migrated S)
      → (r >>= insert_version execute now n db) ≡ ok after
      → max_version after.versions ≡ max (max_version db.versions) n
  executed-max now n db (err e) after h = cc
  executed-max now n db (ok schema) after h = insert_version-max now n db schema after h

  migrate-max :
      (now : ℕ) (m : Migration) (db after : Migrated S)
      → migrate execute now m db ≡ ok after
      → max_version after.versions ≡ max (max_version db.versions) m.version
  unfolding migrate
  migrate-max now m db after e =
      executed-max now m.version db (execute_all execute m.statements db.schema) after e

  -- Where the run raises nothing, no recorded version is lost and all the migrations are covered.
  abbrev Grown : ℕ → List Migration → Migrated S → Migrated S → Type 0
  Grown current ms db after =
      (max_version db.versions ≤ max_version after.versions) × Covered current ms after

  then_apply-Grown :
      (current : ℕ) (m : Migration) (ms : List Migration) (db after : Migrated S)
      (next : Migrated S → Migrated S × Option Error) (v : Result (Migrated S))
      → migrate execute (clock m.version) m db ≡ v
      → ((middle : Migrated S) → next middle ≡ (after, none) → Grown current ms middle after)
      → then_apply execute db next v ≡ (after, none)
      → Grown current (m ∷ ms) db after
  then_apply-Grown current m ms db after next (err e) p h k = cc
  then_apply-Grown current m ms db after next (ok middle) p h k =
      let (low, rest) = h middle k in
      let here = migrate-max (clock m.version) m db middle p in
      (omega (arith, low, here), (omega (arith, low, here), rest))

  apply_from-Grown :
      (current : ℕ) (ms : List Migration) (db after : Migrated S)
      → apply_from execute clock current ms db ≡ (after, none)
      → Grown current ms db after
  unfolding apply_from
  apply_from-Grown current [] db after e = (ground arith, tt)
  apply_from-Grown current (m ∷ ms) db after e = elim (Bool-cases (leb m.version current)) [
    | inl old ↦
        let (low, rest) = apply_from-Grown current ms db after (ground arith) in
        (low, (ground arith, rest))
    | inr new ↦
        then_apply-Grown current m ms db after (apply_from execute clock current ms)
          (migrate execute (clock m.version) m db) refl
          (λ middle. apply_from-Grown current ms middle after) (ground arith)
  ]

  apply_from-skips :
      (current : ℕ) (ms : List Migration) (db : Migrated S)
      → All (λ m. m.version ≤ current) ms
      → apply_from execute clock current ms db ≡ (db, none)
  unfolding apply_from
  apply_from-skips current [] db h = refl
  apply_from-skips current (m ∷ ms) db h =
      let old : leb m.version current ≡ true = ground (arith, h.0) in
      rw old (apply_from-skips current ms db h.1)

-- A run commits the migrations above the version at its start, in order and each as a whole, up to
-- one that raises, which leaves nothing, or to the end; and if it raises nothing, another run, at
-- any time, changes nothing and raises nothing.
pub apply_migrations-Runs {ℓ} :
    {S : Type ℓ} (execute : String → S → Result S) (clock later : ℕ → ℕ) (ms : List Migration)
    (schema : S) (table : Option (List Version))
    → let versions = create_versions table in
      let (after, e) = apply_migrations execute clock ms schema table in
      Runs execute clock
        (keep (is_pending (max_version versions)) ms)
        (record { schema = schema; versions = versions })
        after
        e
      × (e ≡ none
          → apply_migrations execute later ms after.schema (some after.versions) ≡ (after, none))
unfolding apply_migrations
apply_migrations-Runs {S} execute clock later ms schema table =
    let versions = create_versions table in
    let current = max_version versions in
    let start : Migrated S = record { schema = schema; versions = versions } in
    let (after, e) = apply_from execute clock current ms start in
    (
      apply_from-Runs execute clock current ms start,
      λ fine.
          let (low, covered) =
            apply_from-Grown execute clock current ms start after (ap (λ o. (after, o)) fine) in
          apply_from-skips execute later (max_version after.versions) ms after
            (All-map ms (λ m h. omega (arith, low, h)) covered),
    )
