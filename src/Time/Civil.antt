-- ===== src/Time/Civil.antt =====
-- The Gregorian calendar, independently of the code's loops: closed formulas for the number of
-- days before a year and before a month, and what a valid date is.
use esp_csi_rs_core.Common.{ℕ, ◌+◌, ◌-◌, ◌*◌, ◌/◌, ◌≤◌, ◌<◌, ◌≡◌, arith, ltb, if◌then◌else◌}
use esp_csi_rs_core.Time.{DateTime, is_leap_year, days_in_year, days_in_month}

-- Days from 1 January of the year 1 to 1 January of `year`.
abbrev pub days_before_year : ℕ → ℕ
days_before_year year = let p = year - 1 in p * 365 + p / 4 - p / 100 + p / 400

-- Days from 1 January to the first of `month`: (153 m + 2) / 5 from March on.
abbrev pub days_before_month : ℕ → ℕ → ℕ
days_before_month year month =
    if ltb month 3
    then (month - 1) * 31
    else (153 * (month - 3) + 2) / 5 + 59 + (if is_leap_year year then 1 else 0)

pub record IsCivil (t : DateTime) : Type 0 where
  pub month_from : 1 ≤ t.month
  pub month_to : t.month ≤ 12
  pub day_from : 1 ≤ t.day
  pub day_to : t.day ≤ days_in_month t.year t.month
  pub hour_to : t.hour < 24
  pub minute_to : t.minute < 60
  pub second_to : t.second < 60

-- Seconds from 1970-01-01T00:00:00Z to the date.
abbrev pub to_unix : DateTime → ℕ
to_unix t =
    (days_before_year t.year + days_before_month t.year t.month + (t.day - 1) - 719162) * 86400
    + t.hour * 3600
    + t.minute * 60
    + t.second

pub days_before_year_suc :
    (y : ℕ) → 1 ≤ y → days_before_year (y + 1) ≡ days_before_year y + days_in_year y
unfolding days_in_year is_leap_year
days_before_year_suc y h = ground arith

pub days_in_year_pos : (y : ℕ) → 365 ≤ days_in_year y
unfolding days_in_year
days_in_year_pos y = ground arith

pub days_before_month_suc :
    (y m : ℕ)
    → 1 ≤ m
    → m < 12
    → days_before_month y (m + 1) ≡ days_before_month y m + days_in_month y m
unfolding days_in_month
days_before_month_suc y m h k = ground arith

pub days_before_month_end : (y : ℕ) → days_before_month y 12 + days_in_month y 12 ≡ days_in_year y
unfolding days_in_month days_in_year
days_before_month_end y = ground arith
