-- ===== src/Examples/Data.antt =====
-- A configuration, stored states, market values and rows to apply the theorems to.
use bybit_crypto_monitor_tel.Base.{ℕ, true, false, none, some, String, List, [], ◌∷◌}
use bybit_crypto_monitor_tel.Base.Int.{pos}
use bybit_crypto_monitor_tel.Base.Float.{finite}
use bybit_crypto_monitor_tel.Config.{Settings}
use bybit_crypto_monitor_tel.Bybit.Models.{Instrument, Ticker}
use bybit_crypto_monitor_tel.Persistence.Tables.{
  AlertState, empty, active_range, Db, Notification, ListingEvent,
}
use bybit_crypto_monitor_tel.Persistence.Outbox.{new_notification}
use bybit_crypto_monitor_tel.Market.Value.{MomentumValue, Status}
use bybit_crypto_monitor_tel.Alerts.StateMachine.{initial_state}
use bybit_crypto_monitor_tel.Alerts.StateMachine.Cycles.{Cycle}
use bybit_crypto_monitor_tel.Alerts.Formatter.{Formats}

abbrev pub config : Settings
config = record {
  alert_threshold_percent = finite (pos 8);
  min_qualifying_coins = 1;
  max_qualifying_coins = 3;
  spot_sample_seconds = 60000;
  immediate_transition_alerts = true;
  hourly_active_alerts = true;
  composition_change_alerts = true;
  listing_notifications_enabled = true;
  alert_debounce_seconds = 60000;
  composition_change_cooldown_seconds = 600000;
  enable_spot = true;
  enable_linear_usdt = true;
  enable_linear_usdc = false;
  enable_websocket = true;
  spot_history_retention_seconds = 7200000;
  spot_anchor_tolerance_seconds = 90000;
  ws_stale_seconds = 60;
  ws_subscribe_batch_size = 2;
  ws_subscription_ack_timeout_seconds = 10;
  instrument_refresh_seconds = 300;
  critical_health_failure_seconds = 300;
  notification_max_age_seconds = 3600000;
  listing_notification_max_age_seconds = 86400000;
}

-- A cooldown that is switched off.
abbrev pub no_cooldown : Settings
no_cooldown = record config { composition_change_cooldown_seconds = 0 }

abbrev pub entry : Cycle
entry = record { coins = 2; fingerprint = "BTC" ∷ "ETH" ∷ []; now = 0 }

abbrev pub held : Cycle
held = record { coins = 2; fingerprint = "BTC" ∷ "ETH" ∷ []; now = 30 }

abbrev pub fired : Cycle
fired = record { coins = 2; fingerprint = "BTC" ∷ "ETH" ∷ []; now = 60 }

abbrev pub entered : AlertState
entered = record initial_state {
  state = active_range;
  fingerprint = "BTC" ∷ "ETH" ∷ [];
  pending_since = some 0;
  pending_from = some empty;
}

abbrev pub active : AlertState
active = record initial_state {
  state = active_range;
  fingerprint = "ADA" ∷ [];
  last_hourly_bucket = some "1970-01-01-00";
}

abbrev pub empty_db : Db
empty_db = record { alert_state = none; outgoing = []; last_id = 0; listing_events = [] }

abbrev pub active_db : Db
active_db = record empty_db { alert_state = some active }

abbrev pub formats : Formats
formats = record {
  signed = λ n x. "+8.00";
  fixed2 = λ x. "1.00";
  grouped5 = λ x. "1";
  general = λ x. "8";
  abs = λ x. x;
  over = λ x y. x;
  times = λ x y. x;
  strip = λ t. t;
  title = λ t. t;
}

abbrev pub value : String → String → ℕ → MomentumValue
value coin symbol change = record {
  category = "spot";
  symbol = symbol;
  base_coin = coin;
  change_1h = some (finite (pos change));
  status = Status.ok;
  last_price = none;
  mark_price = none;
  change_24h = none;
  turnover_24h = none;
  funding_rate = none;
  contract_type = none;
  settle_coin = none;
  quote_coin = some "USDT";
}

abbrev pub values : List MomentumValue
values = value "BTC" "BTCUSDT" 9 ∷ value "ETH" "ETHUSDT" 7 ∷ value "BTC" "BTCUSDC" 12 ∷ []

abbrev pub row : Notification
row = new_notification 1 "transition" "text" 100 (some "transition:1") none none

abbrev pub listing_row : Notification
listing_row =
    new_notification 2 "listing" "text" 100 (some "listing:spot:NEW:trading") (some "listing")
      (some "spot:NEW:trading")

abbrev pub outbox : Db
outbox = record {
  alert_state = none;
  outgoing = row ∷ listing_row ∷ [];
  last_id = 2;
  listing_events = [];
}

abbrev pub unsent_event : ListingEvent
unsent_event = record {
  event_key = "spot:NEW:trading";
  category = some "spot";
  symbol = "NEW";
  event_type = "trading";
  first_seen_at = 100;
  telegram_sent = false;
}

abbrev pub instrument : String → String → Instrument
instrument symbol status = record {
  category = "spot";
  symbol = symbol;
  base_coin = symbol;
  quote_coin = some "USDT";
  settle_coin = none;
  contract_type = none;
  status = status;
  launch_time = none;
  delivery_time = none;
  is_pre_listing = false;
}

abbrev pub ticker : String → Ticker
ticker symbol = record {
  category = "spot";
  symbol = symbol;
  last_price = some (finite (pos 1));
  mark_price = none;
  index_price = none;
  prev_price_1h = none;
  change_24h = none;
  turnover_24h = none;
  volume_24h = none;
  open_interest = none;
  funding_rate = none;
  timestamp = pos 1;
}
