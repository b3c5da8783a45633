-- ===== src/Examples/Stream.antt =====
-- The theorems on the stream's subscriptions, applied.
use bybit_crypto_monitor_tel.Base.{
  ◌≤◌, ◌≡◌, refl, true, none, some, String, String_eq, List, [], ◌∷◌, arith, elem,
}
use bybit_crypto_monitor_tel.Base.Dict.{get, set}
use bybit_crypto_monitor_tel.Base.Sort.{sorted}
use bybit_crypto_monitor_tel.Bybit.WebSocket.{
  Client, new_client, batches, union, resubscribe, set_symbols, symbols_of, on_open, send_subscribe,
  Event, opened, wanted, synced, received, ack, run, step, handle_raw, handle_subscribe_ack,
}
use bybit_crypto_monitor_tel.Bybit.WebSocket.Exclusive.{uses, run-exclusive}
use bybit_crypto_monitor_tel.Bybit.WebSocket.Confirmed.{Confirmed, step-Confirmed}
use bybit_crypto_monitor_tel.Bybit.Manager.{Wire}
use bybit_crypto_monitor_tel.Base.Result.{ok}
use bybit_crypto_monitor_tel.Bybit.Manager.{Clients}
use bybit_crypto_monitor_tel.Persistence.Instruments.{load_all}
use bybit_crypto_monitor_tel.Market.Discovery.{Discovery, reconcile}
use bybit_crypto_monitor_tel.Market.Listing.{handle_registry}
use bybit_crypto_monitor_tel.Main.{notifier}
use bybit_crypto_monitor_tel.Main.Rounds.{Outside, finished, discovery_round}
use bybit_crypto_monitor_tel.Main.Rounds.Synced.{wanted_count, BothSynced, discovery_round-synced}
use bybit_crypto_monitor_tel.Examples.Data.{config, instrument, formats, empty_db}

abbrev three : List String
three = "A" ∷ "B" ∷ "C" ∷ []

abbrev session : List Event
session =
    received 3 (ack (some 1) true) ∷ synced (λ n. true) (λ n. 2) ∷ wanted three ∷ opened 1 ∷ []

run-exclusive_example : uses "A" (run config session) ≤ 1
run-exclusive_example = run-exclusive config session "A"

abbrev ready : Client
ready = record new_client { desired_symbols = three; has_socket = true }

abbrev asked : Client
asked = record ready {
  sequence = 1;
  pending_subscriptions = (1, record { symbols = "A" ∷ "B" ∷ []; sent_at = 2 }) ∷ [];
}

confirmed_now : elem "A" (step config (received 3 (ack (some 1) true)) asked).subscribed ≡ true
unfolding step handle_raw handle_subscribe_ack get union
confirmed_now = refl

step-Confirmed_example : Confirmed "A" asked (received 3 (ack (some 1) true))
step-Confirmed_example =
    step-Confirmed "A" config (received 3 (ack (some 1) true)) asked confirmed_now

abbrev wire : Wire
wire = record { sends = λ n. true; clock = λ n. 4; drops = λ n. true }

has_socket : (run config session).has_socket ≡ true
unfolding run step handle_raw handle_subscribe_ack get resubscribe set_symbols on_open union
    send_subscribe batches sorted set symbols_of
has_socket = refl

linear_socket : (run config (opened 1 ∷ [])).has_socket ≡ true
unfolding run step on_open
linear_socket = refl

abbrev outside : Outside
outside = record {
  fetches = record {
    spot = ok (instrument "A" "Trading" ∷ []);
    linear_trading = ok [];
    linear_prelaunch = ok [];
  };
  spot_wire = wire;
  linear_wire = wire;
  now = 100;
  recorded_at = 101;
}

abbrev nothing_found : Discovery
nothing_found = record { table = []; last_result = none; last_success_at = none }

-- The first round of an empty registry, which announces nothing.
recorded :
    handle_registry config
      (notifier formats)
      101
      (reconcile (instrument "A" "Trading" ∷ []) 100 []).1
      empty_db
    ≡ (empty_db, ok [])
unfolding handle_registry reconcile load_all
recorded = refl

discovery_round-synced_example :
    let table = (reconcile (instrument "A" "Trading" ∷ []) 100 []).0 in
    let clients : Clients = record {
      spot = run config session;
      linear = run config (opened 1 ∷ []);
    } in
    let (after, end) =
      discovery_round config
        (notifier formats)
        outside
        (record { discovery = nothing_found; db = empty_db; clients = clients }) in
    (end ≡ finished (wanted_count config table))
    × (after.discovery.table ≡ table)
    × (after.db ≡ empty_db)
    × BothSynced config table clients after.clients
discovery_round-synced_example =
    discovery_round-synced config session (opened 1 ∷ []) (notifier formats) outside nothing_found
      empty_db empty_db (instrument "A" "Trading" ∷ []) [] (omega arith)
      (record { socket = has_socket; sends = λ n. refl; drops = λ n. refl })
      (record { socket = linear_socket; sends = λ n. refl; drops = λ n. refl }) refl recorded
