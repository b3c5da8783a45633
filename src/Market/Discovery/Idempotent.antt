-- ===== src/Market/Discovery/Idempotent.antt =====
-- Which events a reconciliation reports.
use bybit_crypto_monitor_tel.Base.{
  ℕ, ◌≡◌, refl, ◌∙◌, ap, Bool, true, false, ◌&&◌, ◌||◌, not, Option, none, some, List, [], ◌∷◌,
  ◌==◌, String_eq, pair_eq, elem, distinct, arith, Bool-cases, Option-cases, inl, inr, same_iff,
  option_map, is_some, All, All-map, text_eq_iff,
}
use bybit_crypto_monitor_tel.Base.Dict.{Dict, get, keys}
use bybit_crypto_monitor_tel.Bybit.Models.{Identity, Instrument, identity}
use bybit_crypto_monitor_tel.Persistence.Instruments.{Table, Row, load_all}
use bybit_crypto_monitor_tel.Market.Discovery.{
  reconcile, identities, is_empty, missing, removed_keys, fetched_events,
}
use bybit_crypto_monitor_tel.Market.Discovery.Registry.{
  last_of, live, elem-missing, elem-identities, reconciled, get-reconcile, reconcile-distinct,
}

get-load_all :
    (k : Identity) (table : Table)
    → get k (load_all table) ≡ option_map (λ r. r.instrument) (get k table)
unfolding get load_all
get-load_all k [] = refl
get-load_all k ((j, row) ∷ table) = elim (Bool-cases (j == k)) [
  | inl same ↦ rw same refl
  | inr other ↦ rw other (get-load_all k table)
]

last_of-absent :
    (k : Identity) (fetched : List Instrument)
    → elem k (identities fetched) ≡ false
    → last_of k fetched ≡ none
last_of-absent k fetched h = elim (Option-cases (last_of k fetched)) [
  | inl nothing ↦ nothing
  | inr (i, there) ↦ cc (elem-identities k fetched, ap is_some there, h)
]

-- With distinct identities, each instrument is the last one with its identity.
last_of-each :
    (fetched : List Instrument)
    → distinct (identities fetched) ≡ true
    → All (λ inst. last_of (identity inst) fetched ≡ some inst) fetched
unfolding last_of
last_of-each [] h = tt
last_of-each (inst ∷ insts) h = (
  rw
      (
        last_of-absent (identity inst) insts (ground (arith, h)),
        (same_iff (identity inst) (identity inst)).1 refl,
      )
      refl,
  All-map insts (λ i e. rw e refl) (last_of-each insts (ground (arith, h))),
)

no_key :
    (d : Dict Identity Instrument) → ((k : Identity) → elem k (removed_keys d) ≡ false) → d ≡ []
no_key [] h = refl
no_key ((k, i) ∷ d) h =
    let found : elem k (removed_keys ((k, i) ∷ d)) ≡ true =
      ap (λ b. b || elem k (removed_keys d)) ((same_iff k k).1 refl) in
    cc (h k, found)

dead_or_seen :
    (now : ℕ) (found : Option Instrument) (old : Option Row)
    → (live (reconciled now found old) && not (is_some found)) ≡ false
dead_or_seen now (some inst) none = ground arith
dead_or_seen now (some inst) (some row) = ground arith
dead_or_seen now none none = refl
dead_or_seen now none (some row) = elim (Bool-cases (row.instrument.status == "Removed")) [
  | inl gone ↦ rw gone (rw gone refl)
  | inr kept ↦ rw kept refl
]

reconciled-instrument :
    (now : ℕ) (inst : Instrument) (old : Option Row)
    → option_map (λ r. r.instrument) (reconciled now (some inst) old) ≡ some inst
reconciled-instrument now inst none = refl
reconciled-instrument now inst (some row) = refl

unchanged_silent :
    (first : Bool) (current : Dict Identity Instrument) (insts : List Instrument)
    → All (λ inst. get (identity inst) current ≡ some inst) insts
    → fetched_events first current insts ≡ []
unfolding fetched_events
unchanged_silent first current [] h = refl
unchanged_silent first current (inst ∷ insts) h =
    rw (h.0, (text_eq_iff inst.status inst.status).1 refl)
      (unchanged_silent first current insts h.1)

no_events :
    (fetched : List Instrument) (now : ℕ) (table : Table)
    → ((first : Bool) → fetched_events first (load_all table) fetched ≡ [])
    → missing (identities fetched) (load_all table) ≡ []
    → (reconcile fetched now table).1.events ≡ []
unfolding reconcile
no_events fetched now table h k = rw (h (is_empty (load_all table)), k) refl

module _ (fetched : List Instrument) (now later_now : ℕ) (table : Table)
    (one_row_each : distinct (keys table) ≡ true)
    (one_each : distinct (identities fetched) ≡ true) where
  abbrev after : Table
  after = (reconcile fetched now table).0

  registered :
      (inst : Instrument)
      → last_of (identity inst) fetched ≡ some inst
      → get (identity inst) (load_all after) ≡ some inst
  registered inst last =
      get-load_all (identity inst) after
      ∙ ap (option_map (λ r. r.instrument))
          (get-reconcile fetched now table one_row_each (identity inst))
      ∙ rw last (reconciled-instrument now inst (get (identity inst) table))

  none_missing : missing (identities fetched) (load_all after) ≡ []
  none_missing = no_key (missing (identities fetched) (load_all after)) (λ k.
      elem-missing k (identities fetched) after (reconcile-distinct fetched now table one_row_each)
      ∙ rw (get-reconcile fetched now table one_row_each k, elem-identities k fetched)
          (dead_or_seen now (last_of k fetched) (get k table)))

  -- With one row and one fetched instrument for each identity, a second reconciliation with the
  -- same instruments reports nothing.
  pub reconcile-idempotent :
      (reconcile fetched later_now (reconcile fetched now table).0).1.events ≡ []
  reconcile-idempotent =
      no_events fetched later_now after
        (λ first.
          unchanged_silent first (load_all after) fetched
            (All-map fetched registered (last_of-each fetched one_each)))
        none_missing

first_silent : (fetched : List Instrument) → fetched_events true [] fetched ≡ []
unfolding fetched_events get
first_silent [] = refl
first_silent (inst ∷ insts) = first_silent insts

-- The first reconciliation, of an empty registry, reports nothing, and says that it is the first.
reconcile-silent :
    (fetched : List Instrument) (now : ℕ)
    → let result = (reconcile fetched now []).1 in (result.events ≡ []) × (result.first_run ≡ true)
unfolding reconcile load_all missing
reconcile-silent fetched now = (rw (first_silent fetched) refl, refl)
