-- ===== src/Base/Calendar.antt =====
-- `time.gmtime` on seconds since 1970, in the proleptic Gregorian calendar, and the two formats
-- that the program prints times in.
use Prim.Native.Nat.{ℕ, ◌+◌, ◌-◌, ◌*◌, ◌/◌, ◌%◌}
use Prim.Native.String.{String}
use mathlib.Core.Path.{◌≡◌, refl}
use mathlib.Core.List.{[], ◌∷◌}
use bybit_crypto_monitor_tel.Base.Tests.{ltb, leb, if◌then◌else◌}
use bybit_crypto_monitor_tel.Base.Text.{concat, padded}

pub record Date : Type 0 where
  pub year : ℕ
  pub month : ℕ
  pub day : ℕ

-- Years begin in March here, so that the leap day is the last of its year.
unfoldable pub date_of_days : ℕ → Date
date_of_days days =
    let z = days + 719468 in
    let era = z / 146097 in
    let day_of_era = z % 146097 in
    let year_of_era =
      (day_of_era + day_of_era / 36524 - day_of_era / 1460 - day_of_era / 146096) / 365 in
    let day_of_year = day_of_era - (365 * year_of_era + year_of_era / 4 - year_of_era / 100) in
    let month_index = (5 * day_of_year + 2) / 153 in
    let month = if ltb month_index 10 then month_index + 3 else month_index - 9 in
    record {
      year = year_of_era + era * 400 + (if leb month 2 then 1 else 0);
      month = month;
      day = day_of_year - (153 * month_index + 2) / 5 + 1;
    }

-- `%Y-%m-%d-%H`
unfoldable pub hour_text : ℕ → String
unfolding date_of_days concat padded
hour_text ts =
    let date = date_of_days (ts / 86400) in
    concat (
      padded 4 date.year
      ∷ "-"
      ∷ padded 2 date.month
      ∷ "-"
      ∷ padded 2 date.day
      ∷ "-"
      ∷ padded 2 (ts % 86400 / 3600)
      ∷ [])

-- `%Y-%m-%d %H:%M UTC`
unfoldable pub minute_text : ℕ → String
unfolding date_of_days concat padded
minute_text ts =
    let date = date_of_days (ts / 86400) in
    concat (
      padded 4 date.year
      ∷ "-"
      ∷ padded 2 date.month
      ∷ "-"
      ∷ padded 2 date.day
      ∷ " "
      ∷ padded 2 (ts % 86400 / 3600)
      ∷ ":"
      ∷ padded 2 (ts % 3600 / 60)
      ∷ " UTC"
      ∷ [])

hour_text-example : hour_text 1787018400 ≡ "2026-08-18-02"
unfolding hour_text
hour_text-example = refl

minute_text-leap_day : minute_text 951827696 ≡ "2000-02-29 12:34 UTC"
unfolding minute_text
minute_text-leap_day = refl
