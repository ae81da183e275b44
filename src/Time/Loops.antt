-- ===== src/Time/Loops.antt =====
-- The two loops of `unix_to_date_time` end within their fuel, and divide the days given to them.
use esp_csi_rs_core.Common.{
  ℕ, zero, suc, ◌+◌, ◌-◌, ◌≤◌, ◌<◌, ◌≡◌, arith, leb, Bool-cases, inl, inr, some, true, false,
  leb→le, ◌∙◌, dec_lt,
}
use esp_csi_rs_core.Time.{days_in_year, days_in_month, year_loop, month_loop}
use esp_csi_rs_core.Time.Civil.{
  days_before_year, days_before_month, days_before_year_suc, days_in_year_pos,
  days_before_month_suc, days_before_month_end,
}

-- The result of a year loop that started at `year` with `days`.
pub record YearOf (fuel year days : ℕ) (y d : ℕ) : Type 0 where
  pub returns : year_loop fuel year days ≡ some (y, d)
  pub later : year ≤ y
  pub inside : d < days_in_year y
  pub divides : days_before_year y + d ≡ days_before_year year + days

year_step :
    (fuel year days : ℕ)
    → leb (days_in_year year) days ≡ true
    → year_loop (suc fuel) year days ≡ year_loop fuel (year + 1) (days - days_in_year year)
unfolding year_loop
year_step fuel year days h = ground arith

year_stop :
    (fuel year days : ℕ)
    → leb (days_in_year year) days ≡ false
    → year_loop (suc fuel) year days ≡ some (year, days)
unfolding year_loop
year_stop fuel year days h = ground arith

pub year_loop_lem :
    (fuel year days : ℕ) → 1 ≤ year → days < fuel → (y : ℕ) × (d : ℕ) × YearOf fuel year days y d
year_loop_lem zero year days h k = absurd (omega arith)
year_loop_lem (suc fuel) year days h k = elim (Bool-cases (leb (days_in_year year) days)) [
  | inl go ↦
      let le = leb→le _ _ go in
      let pos = days_in_year_pos year in
      let (y, d, r) =
        year_loop_lem fuel (year + 1) (days - days_in_year year) (omega arith) (omega arith) in
      (y, d, ground (arith, year_step fuel year days go, days_before_year_suc year h, r))
  | inr stop ↦ (year, days, ground (arith, year_stop fuel year days stop))
]

pub record MonthOf (fuel year month days : ℕ) (m d : ℕ) : Type 0 where
  pub returns : month_loop fuel year month days ≡ some (m, d)
  pub from : 1 ≤ m
  pub to : m ≤ 12
  pub inside : d < days_in_month year m
  pub divides : days_before_month year m + d ≡ days_before_month year month + days

month_step :
    (fuel year month days : ℕ)
    → leb (days_in_month year month) days ≡ true
    → month_loop (suc fuel) year month days
      ≡ month_loop fuel year (month + 1) (days - days_in_month year month)
unfolding month_loop
month_step fuel year month days h = ground arith

month_stop :
    (fuel year month days : ℕ)
    → leb (days_in_month year month) days ≡ false
    → month_loop (suc fuel) year month days ≡ some (month, days)
unfolding month_loop
month_stop fuel year month days h = ground arith

-- A round that goes on is not in the last month.
month_before_last :
    (year month days : ℕ)
    → month ≤ 12
    → days_in_month year month ≤ days
    → days_before_month year month + days < days_in_year year
    → month < 12
month_before_last year month days h le b = elim (dec_lt month 12) [
  | yes p ↦ p
  | no p ↦
      let e : month ≡ 12 = omega arith in
      absurd (omega (arith, days_before_month_end year, rw e at le, rw e at b))
]

pub month_loop_lem :
    (fuel year month days : ℕ)
    → 1 ≤ month
    → month ≤ 12
    → month + fuel ≡ 13
    → days_before_month year month + days < days_in_year year
    → (m : ℕ) × (d : ℕ) × MonthOf fuel year month days m d
month_loop_lem zero year month days h h' k b = absurd (omega arith)
month_loop_lem (suc fuel) year month days h h' k b =
    elim (Bool-cases (leb (days_in_month year month) days)) [
      | inl go ↦
          let le = leb→le _ _ go in
          let lt = month_before_last year month days h' le b in
          let next = days_before_month_suc year month h lt in
          let (m, d, r) =
            month_loop_lem fuel year (month + 1) (days - days_in_month year month) (omega arith)
              (omega arith) (omega arith) (omega arith) in
          (
            m,
            d,
            record {
              returns = month_step fuel year month days go ∙ r.returns;
              from = r.from;
              to = r.to;
              inside = r.inside;
              divides = omega arith;
            },
          )
      | inr stop ↦ (month, days, ground (arith, month_stop fuel year month days stop))
    ]
