-- ===== src/Time/Tests.antt =====
-- The calendar at dates that can be looked up.
use esp_csi_rs_core.Common.{◌≡◌, refl, some, arith}
use esp_csi_rs_core.Time.{
  DateTime, unix_to_date_time, year_loop, month_loop, days_in_year, days_in_month, is_leap_year,
}
use esp_csi_rs_core.Time.Civil.{IsCivil, to_unix}
use esp_csi_rs_core.Time.Unix.{Decoded, unix_to_date_time_lem, unix_to_date_time-to_unix}

-- 2024-02-29T23:59:59.007Z
abbrev leap_day : DateTime
leap_day = record {
  year = 2024;
  month = 2;
  day = 29;
  hour = 23;
  minute = 59;
  second = 59;
  millisecond = 7;
}

decode_leap_day : unix_to_date_time 1709251199 7 ≡ some leap_day
unfolding unix_to_date_time year_loop month_loop days_in_year days_in_month is_leap_year
decode_leap_day = refl

leap_day-IsCivil : IsCivil leap_day
unfolding days_in_month is_leap_year
leap_day-IsCivil = omega arith

unix_to_date_time_lem_example : (t : DateTime) × Decoded 1709251199 7 t
unix_to_date_time_lem_example = unix_to_date_time_lem 1709251199 7

unix_to_date_time-to_unix_example : unix_to_date_time (to_unix leap_day) 7 ≡ some leap_day
unix_to_date_time-to_unix_example =
    unix_to_date_time-to_unix leap_day leap_day-IsCivil (omega arith)
