-- ===== src/Market/Discovery.antt =====
-- app/market/discovery.py: the registry of instruments and its reconciliation with the exchange.
pub mod Registry
pub mod Idempotent
use bybit_crypto_monitor_tel.Base.{
  ℕ, Bool, true, false, ◌&&◌, ◌||◌, not, Option, none, some, String, List, [], ◌∷◌, ◌++◌, ◌==◌,
  String_eq, pair_eq, elem, length, if◌then◌else◌,
}
use bybit_crypto_monitor_tel.Base.Result.{Result, ok, err, ◌>>=◌}
use bybit_crypto_monitor_tel.Base.Dict.{Dict, get}
use bybit_crypto_monitor_tel.Config.{Settings}
use bybit_crypto_monitor_tel.Bybit.Models.{Identity, Instrument, identity}
use bybit_crypto_monitor_tel.Persistence.Instruments.{Table, load_all, upsert_many, mark_removed}

pub data Discovered : Type 0 where
  new status_transition gone : Discovered

pub record RegistryEvent : Type 0 where
  pub category : String
  pub symbol : String
  pub base_coin : String
  pub event : Discovered
  pub old_status : Option String
  pub new_status : Option String
  pub is_pre_listing : Bool

pub record DiscoveryResult : Type 0 where
  pub events : List RegistryEvent
  pub instrument_count : ℕ
  pub first_run : Bool

abbrev pub is_empty : Dict Identity Instrument → Bool
is_empty [] = true
is_empty (e ∷ d) = false

abbrev pub new_event : Instrument → RegistryEvent
new_event inst = record {
  category = inst.category;
  symbol = inst.symbol;
  base_coin = inst.base_coin;
  event = new;
  old_status = none;
  new_status = some inst.status;
  is_pre_listing = inst.is_pre_listing;
}

abbrev pub transition_event : Instrument → Instrument → RegistryEvent
transition_event prev inst = record {
  category = inst.category;
  symbol = inst.symbol;
  base_coin = inst.base_coin;
  event = status_transition;
  old_status = some prev.status;
  new_status = some inst.status;
  is_pre_listing = inst.is_pre_listing;
}

abbrev pub removed_event : Instrument → RegistryEvent
removed_event existing = record {
  category = existing.category;
  symbol = existing.symbol;
  base_coin = existing.base_coin;
  event = gone;
  old_status = some existing.status;
  new_status = none;
  is_pre_listing = existing.is_pre_listing;
}

-- The events of one fetched instrument, whose registered state is the second argument.
abbrev pub instrument_events : Bool → Option Instrument → Instrument → List RegistryEvent
instrument_events first_run none inst = if first_run then [] else new_event inst ∷ []
instrument_events first_run (some prev) inst =
    if prev.status == inst.status then [] else transition_event prev inst ∷ []

unfoldable pub fetched_events :
    Bool → Dict Identity Instrument → List Instrument → List RegistryEvent
fetched_events first_run current [] = []
fetched_events first_run current (inst ∷ insts) =
    instrument_events first_run (get (identity inst) current) inst
    ++ fetched_events first_run current insts

abbrev pub identities : List Instrument → List Identity
identities [] = []
identities (inst ∷ insts) = identity inst ∷ identities insts

-- How many values the set of a list has.
abbrev pub set_size : List Identity → ℕ
set_size [] = 0
set_size (k ∷ ks) = if elem k ks then set_size ks else ℕ.suc (set_size ks)

-- The registered instruments that are not removed and were not fetched.
unfoldable pub missing : List Identity → Dict Identity Instrument → Dict Identity Instrument
missing seen [] = []
missing seen ((k, existing) ∷ current) =
    if not (existing.status == "Removed") && not (elem k seen)
    then (k, existing) ∷ missing seen current
    else missing seen current

abbrev pub removed_keys : Dict Identity Instrument → List Identity
removed_keys [] = []
removed_keys ((k, existing) ∷ rest) = k ∷ removed_keys rest

abbrev pub removed_events : Dict Identity Instrument → List RegistryEvent
removed_events [] = []
removed_events ((k, existing) ∷ rest) = removed_event existing ∷ removed_events rest

unfoldable pub reconcile : List Instrument → ℕ → Table → Table × DiscoveryResult
reconcile fetched now table =
    let current = load_all table in
    let first_run = is_empty current in
    let seen = identities fetched in
    let lost = missing seen current in
    (
      mark_removed now (removed_keys lost) (upsert_many now fetched table),
      record {
        events = fetched_events first_run current fetched ++ removed_events lost;
        instrument_count = set_size seen;
        first_run = first_run;
      },
    )

-- What the REST client gives for each call of a round.
pub record Fetches : Type 0 where
  pub spot : Result (List Instrument)
  pub linear_trading : Result (List Instrument)
  pub linear_prelaunch : Result (List Instrument)

pub record Discovery : Type 0 where
  pub table : Table
  pub last_result : Option DiscoveryResult
  pub last_success_at : Option ℕ

-- The calls that the settings ask for, in order; the first that raises ends the round.
abbrev pub fetch : Settings → Fetches → Result (List Instrument)
fetch config api = do
  spot ← if config.enable_spot then api.spot else ok []
  linear ←
      if config.enable_linear_usdt || config.enable_linear_usdc
      then (do
        trading ← api.linear_trading
        prelaunch ← api.linear_prelaunch
        ok (trading ++ prelaunch))
      else ok []
  ok (spot ++ linear)

-- `discover_once`, up to the call of `on_events`; an exception leaves the state as it was.
unfoldable pub discover_once :
    Settings → Fetches → ℕ → Discovery → Discovery × Result DiscoveryResult
discover_once config api now d = elim (fetch config api) [
  | err e ↦ (d, err e)
  | ok fetched ↦
      let (table, result) = reconcile fetched now d.table in
      (record { table = table; last_result = some result; last_success_at = some now }, ok result)
]
