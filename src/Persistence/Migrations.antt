-- ===== src/Persistence/Migrations.antt =====
-- app/persistence/migrations.py: apply_migrations. The database is the schema that the statements
-- change and the table `schema_migrations`; what a statement does to the schema is an argument, and
-- so is the clock.
pub mod Prefix
use bybit_crypto_monitor_tel.Base.{
  ℕ, max, ◌≤◌, Bool, true, false, Option, none, some, String, List, [], ◌∷◌, ◌++◌, leb, any, nat_eq,
  if◌then◌else◌, get_or,
}
use bybit_crypto_monitor_tel.Base.Result.{Error, Result, ok, err, integrity_error, ◌>>=◌}

-- A row of `schema_migrations`.
pub record Version : Type 0 where
  pub version : ℕ
  pub applied_at : ℕ

pub record Migration : Type 0 where
  pub version : ℕ
  pub statements : List String

-- `COALESCE(MAX(version), 0)`
unfoldable pub max_version : List Version → ℕ
max_version [] = 0
max_version (v ∷ vs) = max v.version (max_version vs)

pub record Migrated {ℓ} (S : Type ℓ) : Type ℓ where
  pub schema : S
  pub versions : List Version

-- `CREATE TABLE IF NOT EXISTS schema_migrations`
abbrev pub create_versions : Option (List Version) → List Version
create_versions table = get_or table []

abbrev pub has_version : ℕ → Version → Bool
has_version n v = nat_eq v.version n

module _ {ℓ} {S : Type ℓ} (execute : String → S → Result S) where
  unfoldable pub execute_all : List String → S → Result S
  execute_all [] s = ok s
  execute_all (statement ∷ rest) s = execute statement s >>= execute_all rest

  -- The version is a primary key.
  unfoldable pub insert_version : ℕ → ℕ → Migrated S → S → Result (Migrated S)
  insert_version now version db schema =
      if any (has_version version) db.versions
      then err integrity_error
      else ok (record {
        schema = schema;
        versions = db.versions ++ record { version = version; applied_at = now } ∷ [];
      })

  -- The body of the transaction.
  unfoldable pub migrate : ℕ → Migration → Migrated S → Result (Migrated S)
  migrate now m db = execute_all m.statements db.schema >>= insert_version now m.version db

  -- The loop goes on after the commit; a rolled back transaction ends it.
  abbrev pub then_apply :
      Migrated S
      → (Migrated S → Migrated S × Option Error)
      → Result (Migrated S)
      → Migrated S × Option Error
  then_apply db next (err e) = (db, some e)
  then_apply db next (ok after) = next after

  -- The migrations above the version that was current at the start. The exception is returned, if
  -- one is raised.
  unfoldable pub apply_from : (ℕ → ℕ) → ℕ → List Migration → Migrated S → Migrated S × Option Error
  apply_from clock current [] db = (db, none)
  apply_from clock current (m ∷ ms) db =
      let skipped = apply_from clock current ms db in
      let applied = then_apply db (apply_from clock current ms) (migrate (clock m.version) m db) in
      if leb m.version current then skipped else applied

  unfoldable pub apply_migrations :
      (ℕ → ℕ) → List Migration → S → Option (List Version) → Migrated S × Option Error
  apply_migrations clock migrations schema table =
      let versions = create_versions table in
      apply_from clock (max_version versions) migrations
        (record { schema = schema; versions = versions })
