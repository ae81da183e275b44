-- ===== src/Time/Unix.antt =====
-- `unix_to_date_time` and the calendar: it is the inverse of the count of seconds.
use esp_csi_rs_core.Common.{
  ℕ, ◌+◌, ◌-◌, ◌*◌, ◌/◌, ◌%◌, ◌≤◌, ◌<◌, ◌≡◌, refl, arith, some, dec_lt, ◌∙◌, ap, sym,
}
use esp_csi_rs_core.Time.{DateTime, days_in_year, days_in_month, unix_to_date_time}
use esp_csi_rs_core.Time.Civil.{
  IsCivil, to_unix, days_before_year, days_before_month, days_before_year_suc,
  days_before_month_suc, days_before_month_end,
}
use esp_csi_rs_core.Time.Loops.{YearOf, MonthOf, year_loop_lem, month_loop_lem}

abbrev pub Decoded : ℕ → ℕ → DateTime → Type 0
Decoded s ms t =
    (unix_to_date_time s ms ≡ some t)
    × IsCivil t
    × (1970 ≤ t.year)
    × (t.millisecond ≡ ms)
    × (to_unix t ≡ s)

recompose :
    (a b d r s : ℕ)
    → a + d ≡ 719162 + s / 86400
    → b + r ≡ 0 + d
    → (a + b + (r + 1 - 1) - 719162) * 86400
        + s % 86400 / 3600 * 3600
        + s % 86400 % 3600 / 60 * 60
        + s % 86400 % 60
      ≡ s
recompose a b d r s h k = omega arith

decode_of_loops :
    (s ms y d m r : ℕ)
    → YearOf (s / 86400 + 1) 1970 (s / 86400) y d
    → MonthOf 12 y 1 d m r
    → Decoded s ms (record {
      year = y;
      month = m;
      day = r + 1;
      hour = s % 86400 / 3600;
      minute = s % 86400 % 3600 / 60;
      second = s % 86400 % 60;
      millisecond = ms;
    })
unfolding unix_to_date_time
decode_of_loops s ms y d m r yo mo = (
  rw (yo.returns, mo.returns),
  omega (arith, yo, mo),
  yo.later,
  refl,
  recompose (days_before_year y) (days_before_month y m) d r s yo.divides mo.divides,
)

-- For every timestamp the two loops end, and the result is the valid date, not before 1970, that
-- lies so many seconds after the epoch; the milliseconds are passed through.
pub unix_to_date_time_lem : (s ms : ℕ) → (t : DateTime) × Decoded s ms t
unix_to_date_time_lem s ms =
    let (y, d, yo) = year_loop_lem (s / 86400 + 1) 1970 (s / 86400) (omega arith) (omega arith) in
    let (m, r, mo) =
      month_loop_lem 12 y 1 d (omega arith) (omega arith) (omega arith)
        (let i = yo.inside in omega arith) in
    (_, decode_of_loops s ms y d m r yo mo)

days_before_year_mono : (y z : ℕ) → y ≤ z → days_before_year y ≤ days_before_year z
days_before_year_mono y z h = omega arith

-- A year and a day in it are determined by the number of days before that day.
year_unique :
    (y z d e : ℕ)
    → 1 ≤ y
    → 1 ≤ z
    → d < days_in_year y
    → e < days_in_year z
    → days_before_year y + d ≡ days_before_year z + e
    → (y ≡ z) × (d ≡ e)
year_unique y z d e hy hz hd he h = (same, omega (arith, ap days_before_year same))
  where
    not_before :
        (y z d e : ℕ)
        → 1 ≤ y
        → d < days_in_year y
        → days_before_year y + d ≡ days_before_year z + e
        → ¬ (y < z)
    not_before y z d e hy hd h lt =
        omega (arith, days_before_year_suc y hy, days_before_year_mono (y + 1) z (omega arith))

    same : y ≡ z
    same = omega (arith, not_before y z d e hy hd h, not_before z y e d hz he (sym h))

days_before_month_mono : (y m n : ℕ) → 1 ≤ m → m ≤ n → days_before_month y m ≤ days_before_month y n
days_before_month_mono y m n h k = ground arith

month_unique :
    (y m n d e : ℕ)
    → 1 ≤ m
    → m ≤ 12
    → 1 ≤ n
    → n ≤ 12
    → d < days_in_month y m
    → e < days_in_month y n
    → days_before_month y m + d ≡ days_before_month y n + e
    → (m ≡ n) × (d ≡ e)
month_unique y m n d e hm hm' hn hn' hd he h = (same, omega (arith, ap (days_before_month y) same))
  where
    not_before :
        (m n d e : ℕ)
        → 1 ≤ m
        → n ≤ 12
        → d < days_in_month y m
        → days_before_month y m + d ≡ days_before_month y n + e
        → ¬ (m < n)
    not_before m n d e hm hn hd h lt = omega (
      arith,
      days_before_month_suc y m hm (omega arith),
      days_before_month_mono y (m + 1) n (omega arith) (omega arith),
    )

    same : m ≡ n
    same = omega (arith, not_before m n d e hm hn' hd h, not_before n m e d hn hm' he (sym h))

day_in_year :
    (y m d : ℕ)
    → 1 ≤ m
    → m ≤ 12
    → d < days_in_month y m
    → days_before_month y m + d < days_in_year y
day_in_year y m d h k l = elim (dec_lt m 12) [
  | yes p ↦ omega (
    arith,
    days_before_month_suc y m h p,
    days_before_month_mono y (m + 1) 12 (omega arith) (omega arith),
    days_before_month_end y,
  )
  | no p ↦
      let e : m ≡ 12 = omega arith in
      omega (arith, days_before_month_end y, rw e at l, ap (days_before_month y) e)
]

same_clock :
    (a b h i m n s z : ℕ)
    → i < 24
    → h < 24
    → m < 60
    → n < 60
    → s < 60
    → z < 60
    → a * 86400 + h * 3600 + m * 60 + s ≡ b * 86400 + i * 3600 + n * 60 + z
    → (a ≡ b) × (h ≡ i) × (m ≡ n) × (s ≡ z)
same_clock a b h i m n s z hi hh hm hn hs hz e = omega arith

same_days :
    (a b m n d e : ℕ)
    → 719162 ≤ a
    → 719162 ≤ b
    → a + m + d - 719162 ≡ b + n + e - 719162
    → a + (m + d) ≡ b + (n + e)
same_days a b m n d e ha hb h = omega arith

day_to_lt : (t : DateTime) → IsCivil t → t.day - 1 < days_in_month t.year t.month
day_to_lt t c = omega arith

-- Two valid dates not before 1970, of the same second and millisecond, are one.
pub civil_unique :
    (t u : DateTime)
    → IsCivil t
    → IsCivil u
    → 1970 ≤ t.year
    → 1970 ≤ u.year
    → to_unix t ≡ to_unix u
    → t.millisecond ≡ u.millisecond
    → t ≡ u
civil_unique t u ct cu ht hu e ms =
    let (day, hour, minute, second) =
      same_clock _ _ t.hour u.hour t.minute u.minute t.second u.second cu.hour_to ct.hour_to
        ct.minute_to cu.minute_to ct.second_to cu.second_to e in
    let dt = day_in_year t.year t.month (t.day - 1) ct.month_from ct.month_to (omega arith) in
    let du = day_in_year u.year u.month (u.day - 1) cu.month_from cu.month_to (omega arith) in
    let (year, rest) = year_unique t.year u.year _ _ (omega arith) (omega arith) dt du (
      same_days (days_before_year t.year) (days_before_year u.year) _ _ (t.day - 1) (u.day - 1)
        (days_before_year_mono 1970 t.year ht) (days_before_year_mono 1970 u.year hu) day) in
    let (month, days) =
      month_unique u.year t.month u.month (t.day - 1) (u.day - 1) ct.month_from ct.month_to
        cu.month_from cu.month_to (rw year at (day_to_lt t ct)) (day_to_lt u cu)
        (rw year at rest) in
    let day_eq : t.day ≡ u.day = omega (arith, days) in
    λ i. record {
      year = year i;
      month = month i;
      day = day_eq i;
      hour = hour i;
      minute = minute i;
      second = second i;
      millisecond = ms i;
    }

-- Every valid date from 1970 on is read back from its count of seconds.
pub unix_to_date_time-to_unix :
    (t : DateTime)
    → IsCivil t
    → 1970 ≤ t.year
    → unix_to_date_time (to_unix t) t.millisecond ≡ some t
unix_to_date_time-to_unix t c h =
    let (u, found) = unix_to_date_time_lem (to_unix t) t.millisecond in
    let (r, cu, hu, ms, e) = found in r ∙ ap some (civil_unique u t cu c hu h e ms)
