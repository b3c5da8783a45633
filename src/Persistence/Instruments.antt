-- ===== src/Persistence/Instruments.antt =====
-- `InstrumentRepository` of app/persistence/repository.py: the table `instruments`, by its primary
-- key.
use bybit_crypto_monitor_tel.Base.{
  ℕ, ◌≡◌, refl, ◌∙◌, ap, true, not, Option, none, some, List, [], ◌∷◌, ◌==◌, String_eq, pair_eq,
  distinct, length, keep, if◌then◌else◌, Bool-cases, Option-cases, inl, inr, sym, eq_path,
  option_map,
}
use bybit_crypto_monitor_tel.Base.Dict.{Dict, keys, get, set, get-set, distinct-keys-set}
use bybit_crypto_monitor_tel.Bybit.Models.{Identity, Instrument, identity}

pub record Row : Type 0 where
  pub instrument : Instrument
  pub first_seen_at : ℕ
  pub last_seen_at : ℕ

abbrev pub Table : Type 0
Table = Dict Identity Row

unfoldable pub load_all : Table → Dict Identity Instrument
load_all [] = []
load_all ((k, row) ∷ table) = (k, row.instrument) ∷ load_all table

-- `first_seen_at` is written on insert only.
abbrev pub first_seen : ℕ → Option Row → ℕ
first_seen now none = now
first_seen now (some row) = row.first_seen_at

abbrev pub upserted : ℕ → Instrument → Option Row → Row
upserted now inst old = record {
  instrument = inst;
  first_seen_at = first_seen now old;
  last_seen_at = now;
}

unfoldable pub upsert : ℕ → Instrument → Table → Table
upsert now inst table = set (identity inst) (upserted now inst (get (identity inst) table)) table

unfoldable pub upsert_many : ℕ → List Instrument → Table → Table
upsert_many now [] table = table
upsert_many now (inst ∷ insts) table = upsert_many now insts (upsert now inst table)

abbrev pub removed : ℕ → Row → Row
removed now row = record row {
  instrument = record row.instrument { status = "Removed" };
  last_seen_at = now;
}

abbrev mark_found : ℕ → Identity → Option Row → Table → Table
mark_found now k none table = table
mark_found now k (some row) table = set k (removed now row) table

-- `UPDATE instruments SET status = 'Removed' … WHERE category = ? AND symbol = ?`
unfoldable pub mark_row : ℕ → Identity → Table → Table
mark_row now k table = mark_found now k (get k table) table

unfoldable pub mark_removed : ℕ → List Identity → Table → Table
mark_removed now [] table = table
mark_removed now (k ∷ ks) table = mark_removed now ks (mark_row now k table)

unfoldable pub count_active : Table → ℕ
count_active table = length (keep (λ e. not (e.1.instrument.status == "Removed")) table)

pub get-upsert :
    (k : Identity) (now : ℕ) (inst : Instrument) (table : Table)
    → get k (upsert now inst table)
      ≡ (if identity inst == k then some (upserted now inst (get k table)) else get k table)
unfolding upsert
get-upsert k now inst table =
    get-set (identity inst) k (upserted now inst (get (identity inst) table)) table
    ∙ elim (Bool-cases (identity inst == k)) [
      | inl same ↦
          let path : identity inst ≡ k = eq_path (identity inst) k same in
          ap
            (λ i.
              if identity inst == k then some (upserted now inst (get i table)) else get k table)
            path
      | inr other ↦ rw other refl
    ]

get-mark_found :
    (k j : Identity) (now : ℕ) (table : Table) (o : Option Row)
    → get k table ≡ o
    → get j (mark_found now k o table)
      ≡ (if k == j then option_map (removed now) (get j table) else get j table)
get-mark_found k j now table none h = elim (Bool-cases (k == j)) [
  | inl same ↦
      let there : get j table ≡ none = ap (λ i. get i table) (sym (eq_path k j same)) ∙ h in
      rw (same, there) refl
  | inr other ↦ rw other refl
]
get-mark_found k j now table (some row) h =
    get-set k j (removed now row) table ∙ elim (Bool-cases (k == j)) [
      | inl same ↦
          let there : get j table ≡ some row = ap (λ i. get i table) (sym (eq_path k j same)) ∙ h in
          rw (same, there) refl
      | inr other ↦ rw other refl
    ]

pub get-mark_row :
    (k j : Identity) (now : ℕ) (table : Table)
    → get j (mark_row now k table)
      ≡ (if k == j then option_map (removed now) (get j table) else get j table)
unfolding mark_row
get-mark_row k j now table = get-mark_found k j now table (get k table) refl

pub distinct-keys-upsert :
    (now : ℕ) (inst : Instrument) (table : Table)
    → distinct (keys table) ≡ true
    → distinct (keys (upsert now inst table)) ≡ true
unfolding upsert
distinct-keys-upsert now inst table h =
    distinct-keys-set (identity inst) (upserted now inst (get (identity inst) table)) table h

pub distinct-keys-mark_row :
    (now : ℕ) (k : Identity) (table : Table)
    → distinct (keys table) ≡ true
    → distinct (keys (mark_row now k table)) ≡ true
unfolding mark_row
distinct-keys-mark_row now k table h = elim (Option-cases (get k table)) [
  | inl gone ↦ rw gone h
  | inr (row, there) ↦ rw there (distinct-keys-set k (removed now row) table h)
]
