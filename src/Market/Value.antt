-- ===== src/Market/Value.antt =====
-- The momentum result for one market, and the test that lets it qualify (app/market/momentum.py).
use bybit_crypto_monitor_tel.Base.{Bool, false, Option, none, some, String}
use bybit_crypto_monitor_tel.Base.Float.{Float, float_lt}

pub data Status : Type 0 where
  ok warming_up no_data : Status

pub record MomentumValue : Type 0 where
  pub category : String
  pub symbol : String
  pub base_coin : String
  pub change_1h : Option Float
  pub status : Status
  pub last_price : Option Float
  pub mark_price : Option Float
  pub change_24h : Option Float
  pub turnover_24h : Option Float
  pub funding_rate : Option Float
  pub contract_type : Option String
  pub settle_coin : Option String
  pub quote_coin : Option String

-- Strictly above the threshold, on the unrounded value.
unfoldable pub qualifies : Option Float → Float → Bool
qualifies none threshold = false
qualifies (some change) threshold = float_lt threshold change
