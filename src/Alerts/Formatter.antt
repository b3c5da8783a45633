-- ===== src/Alerts/Formatter.antt =====
-- app/alerts/formatter.py: the texts of the messages. Python's number formatting and its float
-- arithmetic are arguments.
use bybit_crypto_monitor_tel.Base.{
  ℕ, ◌*◌, ◌^◌, Option, none, some, String, List, [], ◌∷◌, ◌++◌, ◌==◌, String_eq, some_eq, get_or,
  ltb, ltb-ge, ◌≡◌, ◌≤◌, refl, if◌then◌else◌,
}
use bybit_crypto_monitor_tel.Base.Int.{pos}
use bybit_crypto_monitor_tel.Base.Float.{Float, finite, float_le}
use bybit_crypto_monitor_tel.Base.Text.{concat, join, decimal}
use bybit_crypto_monitor_tel.Base.Calendar.{minute_text}
use bybit_crypto_monitor_tel.Base.Result.{Result, ok, err, value_error}
use bybit_crypto_monitor_tel.Config.{Settings}
use bybit_crypto_monitor_tel.Persistence.Tables.{ListingEvent}
use bybit_crypto_monitor_tel.Market.Value.{MomentumValue}
use bybit_crypto_monitor_tel.Market.Deduplication.{RepresentativeMarket, QualifyingSet, count}

pub record Formats : Type 0 where
  -- `f"{x:+.{n}f}"`
  pub signed : ℕ → Float → String
  -- `f"{x:.2f}"`
  pub fixed2 : Float → String
  -- `f"{x:,.5g}"`
  pub grouped5 : Float → String
  -- `f"{x:g}"`
  pub general : Float → String
  pub abs : Float → Float
  pub over : Float → Float → Float
  pub times : Float → Float → Float
  -- `str.strip`
  pub strip : String → String
  -- `str.title`
  pub title : String → String

pub data Kind : Type 0 where
  transition composition hourly : Kind

abbrev pub header : Kind → String
header transition = "🚨 BYBIT 1H MOMENTUM ALERT"
header hourly = "⏰ BYBIT 1H MOMENTUM ACTIVE-STATE"
header composition = "🔄 BYBIT 1H MOMENTUM COMPOSITION CHANGE"

-- The double of a whole number.
abbrev whole : ℕ → Float
whole n = finite (pos (n * 2 ^ 1074))

module _ (text : Formats) where
  fmt_percent : Option Float → ℕ → String
  fmt_percent none decimals = "n/a"
  fmt_percent (some x) decimals = concat (text.signed decimals x ∷ "%" ∷ [])

  fmt_price : Option Float → String
  fmt_price none = "n/a"
  fmt_price (some x) = concat ("$" ∷ text.grouped5 x ∷ [])

  scaled : Float → ℕ → String → String
  scaled x unit suffix = concat ("$" ∷ text.fixed2 (text.over x (whole unit)) ∷ suffix ∷ [])

  fmt_turnover : Option Float → String
  unfolding scaled
  fmt_turnover none = "n/a"
  fmt_turnover (some x) =
      let magnitude = text.abs x in
      if float_le (whole 1_000_000_000) magnitude
      then scaled x 1_000_000_000 "B"
      else if float_le (whole 1_000_000) magnitude
      then scaled x 1_000_000 "M"
      else if float_le (whole 1_000) magnitude
      then scaled x 1_000 "K"
      else concat ("$" ∷ text.fixed2 x ∷ [])

  -- `value.contract_type or ""` is empty or the type; an empty text counts as absent.
  market_label : MomentumValue → String
  market_label v =
      if v.category == "spot"
      then "Spot"
      else if some_eq v.contract_type "LinearPerpetual"
      then concat (settle "USDT" ∷ " Perpetual" ∷ [])
      else if get_or v.contract_type "" == ""
      then text.strip (concat (settle "" ∷ " Linear" ∷ []))
      else text.strip (concat (settle "" ∷ " " ∷ get_or v.contract_type "" ∷ []))
    where
      settle : String → String
      settle default = if get_or v.settle_coin "" == "" then default else get_or v.settle_coin ""

  present : Option Float → (Float → String) → List String
  present none line = []
  present (some x) line = line x ∷ []

  coin_block : MomentumValue → String
  unfolding market_label fmt_percent fmt_price fmt_turnover present
  coin_block v = join "\n" (
      (concat ("🔥 " ∷ v.base_coin ∷ [])
        ∷ market_label v
        ∷ concat ("1H: " ∷ fmt_percent v.change_1h 2 ∷ [])
        ∷ concat ("Price: " ∷ fmt_price v.last_price ∷ [])
        ∷ [])
      ++ (present v.change_24h (λ x. concat ("24H: " ∷ fmt_percent (some x) 2 ∷ []))
          ++ ((if v.category == "spot"
                then []
                else present v.mark_price (λ x. concat ("Mark: " ∷ fmt_price (some x) ∷ []))
                  ++ present v.funding_rate (λ x.
                    concat ("Funding: " ∷ fmt_percent (some (text.times x (whole 100))) 3 ∷ [])))
              ++ present v.turnover_24h
                  (λ x. concat ("24H Turnover: " ∷ fmt_turnover (some x) ∷ [])))))

  also : MomentumValue → String
  unfolding fmt_percent
  also o = concat (o.symbol ∷ " " ∷ fmt_percent o.change_1h 2 ∷ [])

  also_all : List MomentumValue → List String
  unfolding also
  also_all [] = []
  also_all (o ∷ os) = also o ∷ also_all os

  others_line : List MomentumValue → List String
  unfolding also_all
  others_line [] = []
  others_line (o ∷ os) = concat ("  also: " ∷ join ", " (also_all (o ∷ os)) ∷ []) ∷ []

  blocks : List RepresentativeMarket → List String
  unfolding coin_block others_line
  blocks [] = []
  blocks (r ∷ rs) = ("" ∷ coin_block r.representative ∷ []) ++ (others_line r.others ++ blocks rs)

  message_lines : QualifyingSet → Settings → ℕ → Kind → List String
  unfolding blocks
  message_lines qualifying config now kind =
      (header kind
        ∷ ""
        ∷ concat (
            decimal (count qualifying)
            ∷ " / "
            ∷ decimal config.max_qualifying_coins
            ∷ " qualifying coins"
            ∷ [])
        ∷ [])
      ++ (blocks qualifying
          ++ (""
              ∷ "Rule:"
              ∷ concat (
                  decimal config.min_qualifying_coins
                  ∷ "-"
                  ∷ decimal config.max_qualifying_coins
                  ∷ " unique coins > +"
                  ∷ text.general config.alert_threshold_percent
                  ∷ "% / 1H"
                  ∷ [])
              ∷ ""
              ∷ concat ("Updated: " ∷ minute_text now ∷ [])
              ∷ []))

  -- More coins than the maximum are refused.
  unfoldable pub format_alert : QualifyingSet → Settings → ℕ → Kind → Result String
  unfolding message_lines
  format_alert qualifying config now kind =
      if ltb config.max_qualifying_coins (count qualifying)
      then err value_error
      else ok (join "\n" (message_lines qualifying config now kind))

  listing_label : String → String
  listing_label event_type =
      if event_type == "prelaunch"
      then "PreLaunch"
      else if event_type == "trading"
      then "Now Trading"
      else if event_type == "announced"
      then "Announced"
      else if event_type == "delisted"
      then "Delisted"
      else text.title event_type

  -- An empty category counts as absent.
  unfoldable pub format_listing_alert : ListingEvent → ℕ → String
  unfolding listing_label
  format_listing_alert e now =
      let category = if get_or e.category "" == "" then "announcement" else get_or e.category "" in
      join "\n" (
        "🆕 BYBIT NEW LISTING"
        ∷ ""
        ∷ concat (e.symbol ∷ " (" ∷ category ∷ ")" ∷ [])
        ∷ concat ("Status: " ∷ listing_label e.event_type ∷ [])
        ∷ ""
        ∷ concat ("Updated: " ∷ minute_text now ∷ [])
        ∷ [])

  -- The refusal is exactly that there are too many coins.
  pub format_alert-ok :
      (q : QualifyingSet) (config : Settings) (now : ℕ) (kind : Kind)
      → count q ≤ config.max_qualifying_coins
      → (m : String) × (format_alert q config now kind ≡ ok m)
  unfolding format_alert
  format_alert-ok q config now kind h =
      (join "\n" (message_lines q config now kind), rw (ltb-ge _ _ h) refl)
