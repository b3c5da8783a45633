-- ===== src/Persistence/KeyValue.antt =====
-- app/persistence/repository.py: the table `kv` and Repository.kv_get to kv_delete. The text of a
-- JSON value, and the value of a text, are arguments.
use bybit_crypto_monitor_tel.Base.{
  ℕ, ◌≡◌, refl, Option, none, some, String, ◌==◌, String_eq, option_map, if◌then◌else◌, Bool-cases,
  inl, inr,
}
use bybit_crypto_monitor_tel.Base.Dict.{Dict, get, set, delete, get-set}

pub record Entry : Type 0 where
  pub value : String
  pub updated_at : ℕ

abbrev pub KvTable : Type 0
KvTable = Dict String Entry

unfoldable pub kv_get : String → KvTable → Option String
kv_get key kv = option_map (λ (e : Entry). e.value) (get key kv)

unfoldable pub kv_set : ℕ → String → String → KvTable → KvTable
kv_set now key value kv = set key (record { value = value; updated_at = now }) kv

unfoldable pub kv_delete : String → KvTable → KvTable
kv_delete key kv = delete key kv

module _ {ℓ} {J : Type ℓ} (dumps : J → String) (loads : String → Option J) where
  -- A text that is no JSON counts as a missing one.
  abbrev pub loads_or : J → Option String → J
  loads_or default none = default
  loads_or default (some raw) = elim (loads raw) [ none ↦ default | some value ↦ value ]

  unfoldable pub kv_get_json : String → J → KvTable → J
  kv_get_json key default kv = loads_or default (kv_get key kv)

  unfoldable pub kv_set_json : ℕ → String → J → KvTable → KvTable
  kv_set_json now key value kv = kv_set now key (dumps value) kv

  -- What was written under a key is read back, whatever was there, and the other keys keep theirs,
  -- as long as the JSON library reads what it writes.
  kv_get_json-set :
      ((value : J) → loads (dumps value) ≡ some value)
      → (now : ℕ) (key other : String) (value default : J) (kv : KvTable)
      → kv_get_json other default (kv_set_json now key value kv)
        ≡ (if key == other then value else kv_get_json other default kv)
  unfolding kv_get_json kv_set_json kv_get kv_set
  kv_get_json-set reads now key other value default kv =
      let written : Entry = record { value = dumps value; updated_at = now } in
      rw (get-set key other written kv) (elim (Bool-cases (key == other)) [
        | inl same ↦ rw same (rw (reads value) refl)
        | inr different ↦ rw different refl
      ])
