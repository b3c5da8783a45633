-- ===== src/Bybit/Models.antt =====
-- app/bybit/models.py: instruments, tickers and announcements.
use bybit_crypto_monitor_tel.Base.Int.{ℤ}
use bybit_crypto_monitor_tel.Base.{Bool, Option, String, List}
use bybit_crypto_monitor_tel.Base.Float.{Float}

-- Identity is the category with the symbol.
abbrev pub Identity : Type 0
Identity = String × String

pub record Instrument : Type 0 where
  pub category : String
  pub symbol : String
  pub base_coin : String
  pub quote_coin : Option String
  pub settle_coin : Option String
  pub contract_type : Option String
  pub status : String
  pub launch_time : Option ℤ
  pub delivery_time : Option ℤ
  pub is_pre_listing : Bool

abbrev pub identity : Instrument → Identity
identity i = (i.category, i.symbol)

pub record Ticker : Type 0 where
  pub category : String
  pub symbol : String
  pub last_price : Option Float
  pub mark_price : Option Float
  pub index_price : Option Float
  pub prev_price_1h : Option Float
  pub change_24h : Option Float
  pub turnover_24h : Option Float
  pub volume_24h : Option Float
  pub open_interest : Option Float
  pub funding_rate : Option Float
  pub timestamp : ℤ

abbrev pub ticker_identity : Ticker → Identity
ticker_identity t = (t.category, t.symbol)

pub record Announcement : Type 0 where
  pub id : String
  pub title : String
  pub description : String
  pub type_key : Option String
  pub type_title : Option String
  pub tags : List String
  pub timestamp : ℤ
