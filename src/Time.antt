-- ===== src/Time.antt =====
-- lib/time.rs: calendar time from a UNIX timestamp. The two `while` loops of `unix_to_date_time`
-- run on fuel, one round for each unit; a loop that runs out of fuel returns `none`. No addition
-- of the source can pass 2 ^ 64: a year is at most the number of days that the loop starts with,
-- and every other value only falls.
pub mod Civil
pub mod Loops
pub mod Unix
mod Tests
use esp_csi_rs_core.Common.{
  ℕ, zero, suc, ◌+◌, ◌-◌, ◌/◌, ◌%◌, Bool, true, false, not, ◌&&◌, ◌||◌, Option, none, some, leb,
  ◌==◌, if◌then◌else◌, ◌>>=◌,
}

-- `DateTime`, what `unix_to_date_time` returns as a tuple.
pub record DateTime : Type 0 where
  pub year : ℕ
  pub month : ℕ
  pub day : ℕ
  pub hour : ℕ
  pub minute : ℕ
  pub second : ℕ
  pub millisecond : ℕ

abbrev pub seconds_per_minute : ℕ
seconds_per_minute = 60

abbrev pub seconds_per_hour : ℕ
seconds_per_hour = 3600

abbrev pub seconds_per_day : ℕ
seconds_per_day = 86400

pub is_leap_year : ℕ → Bool
is_leap_year year = (year % 4 == 0 && not (year % 100 == 0)) || (year % 400 == 0)

pub days_in_year : ℕ → ℕ
days_in_year year = if is_leap_year year then 366 else 365

-- The arms of the `match` in the source's order.
pub days_in_month : ℕ → ℕ → ℕ
days_in_month year month =
    if month == 1
    then 31
    else if month == 2
    then (if is_leap_year year then 29 else 28)
    else if month == 3
    then 31
    else if month == 4
    then 30
    else if month == 5
    then 31
    else if month == 6
    then 30
    else if month == 7
    then 31
    else if month == 8
    then 31
    else if month == 9
    then 30
    else if month == 10
    then 31
    else if month == 11
    then 30
    else if month == 12
    then 31
    else 0

-- `while days >= days_in_year(year)`
pub year_loop : ℕ → ℕ → ℕ → Option (ℕ × ℕ)
year_loop zero year days = none
year_loop (suc fuel) year days = elim (leb (days_in_year year) days) [
  | true ↦ year_loop fuel (year + 1) (days - days_in_year year)
  | false ↦ some (year, days)
]

-- `while days >= days_in_month(year, month)`
pub month_loop : ℕ → ℕ → ℕ → ℕ → Option (ℕ × ℕ)
month_loop zero year month days = none
month_loop (suc fuel) year month days = elim (leb (days_in_month year month) days) [
  | true ↦ month_loop fuel year (month + 1) (days - days_in_month year month)
  | false ↦ some (month, days)
]

pub unix_to_date_time : ℕ → ℕ → Option DateTime
unix_to_date_time unix_seconds unix_millis = do
  let days_since_epoch = unix_seconds / seconds_per_day
  let seconds_in_day = unix_seconds % seconds_per_day
  let hour = seconds_in_day / seconds_per_hour
  let minute = seconds_in_day % seconds_per_hour / seconds_per_minute
  let second = seconds_in_day % seconds_per_minute
  (year, days) ← year_loop (days_since_epoch + 1) 1970 days_since_epoch
  (month, rest) ← month_loop 12 year 1 days
  some (record {
    year = year;
    month = month;
    day = rest + 1;
    hour = hour;
    minute = minute;
    second = second;
    millisecond = unix_millis;
  })
