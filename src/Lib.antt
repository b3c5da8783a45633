-- ===== src/Lib.antt =====
-- A monitor of Bybit markets that sends Telegram messages, modelled as functions on explicit state.
--
-- The program fetches instruments and prices (app/bybit), keeps a registry of instruments and the
-- latest prices (app/market), counts the base coins whose price rose by more than a threshold in an
-- hour, and lets a debounced policy decide on messages (app/alerts). A message is a row of an outbox
-- in SQLite (app/persistence), which a dispatcher delivers. A monitor (app/health) classifies the
-- state of the parts and persists it for the health check of the container. app/main.py connects
-- the parts.
--
-- Files:
--   Base                   numbers, texts, lists, dictionaries, sorting, floats, results of calls
--   Config                 app/config.py: Settings; Validation is _validate_ranges and validate_runtime
--   Bybit/Models           app/bybit/models.py: Instrument, Ticker, Announcement
--   Bybit/WebSocket        app/bybit/websocket.py: BybitWebSocketClient, one function for each method
--                          (resubscribe, unsubscribe, _send_topic_ops as send_subscribe and
--                          send_unsubscribe, _handle_subscribe_ack, _handle_raw, the two watchdogs);
--                          Event and step are what can happen to a client
--   Bybit/Manager          the same file: WebSocketManager.sync_subscriptions
--   Bybit/Json             the values of Python's json, and the built-in functions applied to them
--   Bybit/Normalizer       app/bybit/normalizer.py: parse_instrument, parse_ticker, parse_announcement
--   Bybit/Rest             app/bybit/rest.py: BybitRestClient: the endpoints, with _fetch_instruments over
--                          the pages; Request is _request with its attempts
--   Market/Value, Market/Momentum
--                          app/market/momentum.py: MomentumValue, qualifies, SpotHistory, evaluate,
--                          evaluate_all
--   Market/Deduplication   app/market/deduplication.py: aggregate_qualifying
--   Market/Discovery       app/market/discovery.py: InstrumentRegistry.reconcile, discover_once
--   Market/Listing         app/market/listing.py: ListingTracker; what it is given as notify is the
--                          interface Notifier, which Main fills
--   Market/PriceEngine     app/market/price_engine.py: PriceEngine
--   Market/TickerPoll      the same file: TickerPollService.poll_once
--   Persistence/Tables     app/persistence/migrations.py and database.py: the tables as records in one
--                          value Db, and transaction
--   Persistence/Outbox     app/persistence/repository.py: Repository
--   Persistence/Instruments, Persistence/Listings, Persistence/Samples
--                          the same file: InstrumentRepository, ListingEventRepository,
--                          PriceSampleRepository
--   Persistence/KeyValue   the same file: kv_get to kv_delete
--   Persistence/Lock       app/persistence/database.py: transaction and _guarded as steps of tasks that
--                          share the connection
--   Persistence/Migrations app/persistence/migrations.py: apply_migrations
--   Alerts/StateMachine    app/alerts/state_machine.py: AlertStateMachine.evaluate in the parts that its
--                          branches make, update, reset; Cycles runs it over market cycles
--   Alerts/Formatter       app/alerts/formatter.py
--   Alerts/Service         app/alerts/service.py: AlertService.process
--   Alerts/Dispatcher      app/alerts/dispatcher.py: retry_delay_for, _deliver, _process_due, _iteration,
--                          enqueue; Worker is the supervision of _run
--   Telegram/Client        app/telegram/client.py: send_message, _send_chunk; Split is
--                          split_message
--   Health                 app/health/monitor.py: HealthMonitor: State its data, Collect
--                          _collect_substates, Classify _classify and snapshot, Summary
--                          format_summary, Snapshot persist_snapshot with
--                          scripts/container_healthcheck.py, which reads what it wrote
--   Main                   app/main.py: Application._notify_listing; Replies is the Telegram client that
--                          the dispatcher is given, MarketLoop a turn of _market_loop, Rounds a round of
--                          discovery with _on_discovery_events and a turn of _announcement_loop
--   Examples               test data, and each theorem below applied to it
--
-- State is passed explicitly: a method that writes returns the new value, and one that can raise
-- returns a Result, with the database as it is left. Times of the wall clock are whole seconds,
-- durations and the monotonic clock whole milliseconds, both natural numbers, and comparisons
-- are written additively, so that no subtraction stops at 0. A clock that is read is an
-- argument. A float is an exact multiple of 2^-1074, an infinity or NaN. Texts are compared by
-- code points. What is not in the repository is an argument: Python's number formatting, its
-- regular expressions and the exact decimal division, its conversions from and to texts (Python),
-- the JSON library, and what the network answers (Get, Reply, Answer, Fetches, Frame). SQLite is
-- taken to do what its statements say and, but for an integer that does not fit a column, never to
-- fail otherwise.
--
-- Loops over lists are structural. Five recursions are on fuel: batches in Bybit/WebSocket, which
-- is given the number of symbols, request_from in Bybit/Rest/Request and send_from in
-- Telegram/Client, which are given one more than the retries, split_from in Telegram/Split, which is given the number of
-- characters, and fetch_from in Bybit/Rest. The number of its pages is the server's choice, and so
-- its fuel is an argument and running out of it is a value; fetch_instruments-Pages says when there
-- is enough. That the others have enough is a part of request-Decides, send_message-delivers,
-- split_message-chunks, and, for batches, of what discovery_round-synced says of the requests.
--
-- Not modelled: logging, the timers and the scheduling of asyncio beyond the lock of the
-- connection, the sockets and the HTTP library, and the scripts but the health check of the
-- container, which run the program from outside; the exception of the exact division at two infinite
-- prices; and a listing tracker without an outbox or a notify, which app/main.py never makes.
pub mod Base
pub mod Config
pub mod Bybit
pub mod Market
pub mod Persistence
pub mod Alerts
pub mod Telegram
pub mod Health
pub mod Main
pub mod Examples
