-- ===== src/Market/Discovery/Registry.antt =====
-- What a reconciliation leaves in the registry, for each identity.
use bybit_crypto_monitor_tel.Base.{
  ℕ, ◌≡◌, refl, ◌∙◌, ap, Bool, true, false, ◌&&◌, ◌||◌, not, Option, none, some, List, [], ◌∷◌,
  ◌==◌, String_eq, pair_eq, elem, distinct, if◌then◌else◌, arith, Bool-cases, Option-cases, inl,
  inr, eq_sym, eq_path, option_map, is_some, subst,
}
use bybit_crypto_monitor_tel.Base.Dict.{Dict, get, keys, is_some-get}
use bybit_crypto_monitor_tel.Bybit.Models.{Identity, Instrument, identity}
use bybit_crypto_monitor_tel.Persistence.Instruments.{
  Table, Row, upserted, removed, load_all, upsert, upsert_many, mark_row, mark_removed, get-upsert,
  get-mark_row, distinct-keys-upsert, distinct-keys-mark_row,
}
use bybit_crypto_monitor_tel.Market.Discovery.{reconcile, identities, missing, removed_keys}

abbrev pub later : Option Instrument → Option Instrument → Option Instrument
later (some i) earlier = some i
later none earlier = earlier

-- The last fetched instrument with an identity.
unfoldable pub last_of : Identity → List Instrument → Option Instrument
last_of k [] = none
last_of k (inst ∷ insts) = later (last_of k insts) (if identity inst == k then some inst else none)

-- A row after its instrument was fetched.
abbrev stored : ℕ → Option Instrument → Option Row → Option Row
stored now none old = old
stored now (some inst) old = some (upserted now inst old)

stored-step :
    (now : ℕ) (found : Option Instrument) (b : Bool) (inst : Instrument) (old : Option Row)
    → stored now found (if b then some (upserted now inst old) else old)
      ≡ stored now (later found (if b then some inst else none)) old
stored-step now none true inst old = refl
stored-step now none false inst old = refl
stored-step now (some i) true inst none = refl
stored-step now (some i) true inst (some row) = refl
stored-step now (some i) false inst old = refl

get-upsert_many :
    (k : Identity) (now : ℕ) (fetched : List Instrument) (table : Table)
    → get k (upsert_many now fetched table) ≡ stored now (last_of k fetched) (get k table)
unfolding upsert_many last_of
get-upsert_many k now [] table = refl
get-upsert_many k now (inst ∷ insts) table =
    get-upsert_many k now insts (upsert now inst table)
    ∙ ap (stored now (last_of k insts)) (get-upsert k now inst table)
    ∙ stored-step now (last_of k insts) (identity inst == k) inst (get k table)

removed_twice :
    (now : ℕ) (o : Option Row)
    → option_map (removed now) (option_map (removed now) o) ≡ option_map (removed now) o
removed_twice now none = refl
removed_twice now (some row) = refl

removed_merge :
    (now : ℕ) (b c : Bool) (o : Option Row)
    → option_map (removed now) (option_map (removed now) o) ≡ option_map (removed now) o
    → (if c
        then option_map (removed now) (if b then option_map (removed now) o else o)
        else (if b then option_map (removed now) o else o))
      ≡ (if b || c then option_map (removed now) o else o)
removed_merge now true true o h = h
removed_merge now true false o h = refl
removed_merge now false true o h = refl
removed_merge now false false o h = refl

get-mark_removed :
    (k : Identity) (now : ℕ) (ks : List Identity) (table : Table)
    → get k (mark_removed now ks table)
      ≡ (if elem k ks then option_map (removed now) (get k table) else get k table)
unfolding mark_removed
get-mark_removed k now [] table = refl
get-mark_removed k now (j ∷ ks) table =
    get-mark_removed k now ks (mark_row now j table)
    ∙ rw (get-mark_row j k now table, eq_sym j k)
        (removed_merge now (k == j) (elem k ks) (get k table) (removed_twice now (get k table)))

is_some-later :
    (b : Bool) (inst : Instrument) (o : Option Instrument)
    → (b || is_some o) ≡ is_some (later o (if b then some inst else none))
is_some-later true inst none = refl
is_some-later true inst (some i) = refl
is_some-later false inst none = refl
is_some-later false inst (some i) = refl

pub elem-identities :
    (k : Identity) (fetched : List Instrument)
    → elem k (identities fetched) ≡ is_some (last_of k fetched)
unfolding last_of
elem-identities k [] = refl
elem-identities k (inst ∷ insts) =
    rw (elem-identities k insts, eq_sym k (identity inst))
      (is_some-later (identity inst == k) inst (last_of k insts))

abbrev pub live : Option Row → Bool
live none = false
live (some row) = not (row.instrument.status == "Removed")

elem-removed_keys-if :
    (k j : Identity) (inst : Instrument) (c : Bool) (rest : Dict Identity Instrument)
    → elem k (removed_keys (if c then (j, inst) ∷ rest else rest))
      ≡ ((c && k == j) || elem k (removed_keys rest))
elem-removed_keys-if k j inst true rest = refl
elem-removed_keys-if k j inst false rest = refl

first_missing :
    (r e d same l : Bool)
    → same ≡ true
    → l ≡ false
    → e ≡ d
    → (((not r && not e) && same) || (l && not d)) ≡ (not r && not d)
first_missing r e d same l p q s = ground (arith, p, q, s)

live-absent :
    (k : Identity) (table : Table) → elem k (keys table) ≡ false → live (get k table) ≡ false
live-absent k table h = elim (Option-cases (get k table)) [
  | inl gone ↦ rw gone refl
  | inr (row, there) ↦ cc (is_some-get k table, ap is_some there, h)
]

pub elem-missing :
    (k : Identity) (seen : List Identity) (table : Table)
    → distinct (keys table) ≡ true
    → elem k (removed_keys (missing seen (load_all table)))
      ≡ (live (get k table) && not (elem k seen))
unfolding missing load_all get
elem-missing k seen [] h = refl
elem-missing k seen ((j, row) ∷ table) h =
    let c = not (row.instrument.status == "Removed") && not (elem j seen) in
    elem-removed_keys-if k j row.instrument c (missing seen (load_all table))
    ∙ ap (λ b. (c && k == j) || b) (elem-missing k seen table (ground (arith, h)))
    ∙ elim (Bool-cases (j == k)) [
      | inl same ↦
          let path = eq_path j k same in
          let absent : elem k (keys table) ≡ false =
            subst (λ i. elem i (keys table) ≡ false) path (ground (arith, h)) in
          rw same (
            first_missing (row.instrument.status == "Removed") (elem j seen) (elem k seen) (k == j)
              (live (get k table)) (eq_sym k j ∙ same) (live-absent k table absent)
              (ap (λ i. elem i seen) path))
      | inr other ↦ rw (other, (eq_sym k j ∙ other)) (ground arith)
    ]

-- The row that an identity should have, from the last fetched instrument and the row before.
abbrev pub reconciled : ℕ → Option Instrument → Option Row → Option Row
reconciled now none none = none
reconciled now (some inst) none =
    some (record { instrument = inst; first_seen_at = now; last_seen_at = now })
reconciled now (some inst) (some row) =
    some (record { instrument = inst; first_seen_at = row.first_seen_at; last_seen_at = now })
reconciled now none (some row) = some (
    if row.instrument.status == "Removed" then row else record {
      instrument = record row.instrument { status = "Removed" };
      first_seen_at = row.first_seen_at;
      last_seen_at = now;
    })

reconciled_lem :
    (now : ℕ) (found : Option Instrument) (old : Option Row)
    → (if live old && not (is_some found)
        then option_map (removed now) (stored now found old)
        else stored now found old)
      ≡ reconciled now found old
reconciled_lem now (some inst) none = refl
reconciled_lem now (some inst) (some row) = elim (Bool-cases (row.instrument.status == "Removed")) [
  | inl gone ↦ rw gone refl
  | inr kept ↦ rw kept refl
]
reconciled_lem now none none = refl
reconciled_lem now none (some row) = elim (Bool-cases (row.instrument.status == "Removed")) [
  | inl gone ↦ rw gone refl
  | inr kept ↦ rw kept refl
]

distinct-keys-upsert_many :
    (now : ℕ) (insts : List Instrument) (table : Table)
    → distinct (keys table) ≡ true
    → distinct (keys (upsert_many now insts table)) ≡ true
unfolding upsert_many
distinct-keys-upsert_many now [] table h = h
distinct-keys-upsert_many now (inst ∷ insts) table h =
    distinct-keys-upsert_many now insts (upsert now inst table)
      (distinct-keys-upsert now inst table h)

distinct-keys-mark_removed :
    (now : ℕ) (ks : List Identity) (table : Table)
    → distinct (keys table) ≡ true
    → distinct (keys (mark_removed now ks table)) ≡ true
unfolding mark_removed
distinct-keys-mark_removed now [] table h = h
distinct-keys-mark_removed now (k ∷ ks) table h =
    distinct-keys-mark_removed now ks (mark_row now k table) (distinct-keys-mark_row now k table h)

module _ (fetched : List Instrument) (now : ℕ) (table : Table)
    (one_row_each : distinct (keys table) ≡ true) where
  -- In a registry with one row for each identity, a reconciliation stores the last fetched
  -- instrument of each identity, seen now, and first seen now or when its earlier row says; it
  -- marks a row that was not fetched as removed now, unless it is already; and no identity gets a
  -- row in another way.
  pub get-reconcile :
      (k : Identity)
      → get k (reconcile fetched now table).0 ≡ reconciled now (last_of k fetched) (get k table)
  unfolding reconcile
  get-reconcile k =
      let seen = identities fetched in
      let lost = removed_keys (missing seen (load_all table)) in
      get-mark_removed k now lost (upsert_many now fetched table)
      ∙ rw
          (
            elem-missing k seen table one_row_each,
            elem-identities k fetched,
            get-upsert_many k now fetched table,
          )
          (reconciled_lem now (last_of k fetched) (get k table))

  -- A registry with one row for each identity still has that after a reconciliation.
  pub reconcile-distinct : distinct (keys (reconcile fetched now table).0) ≡ true
  unfolding reconcile
  reconcile-distinct =
      distinct-keys-mark_removed now (removed_keys (missing (identities fetched) (load_all table)))
        (upsert_many now fetched table) (distinct-keys-upsert_many now fetched table one_row_each)
