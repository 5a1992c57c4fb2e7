-- ===== src/Clock/Dates/Calendar.antt =====
-- What isValidDateOnly of src/common/utils/date.util.ts accepts.
use latache_backend.Clock.Dates.{
  days_in, carry_days, utc_date, is_calendar_date, is_valid_date_only, date_parts,
}
use latache_backend.Prelude.{
  ℕ, ◌≤◌, ◌*◌, arith, if◌then◌else◌, suc, leb, ◌+◌, Bool-cases, ◌-◌, ◌==◌, inl, zero, inr, ◌<◌, ◌≡◌,
  true, false, ◌/◌, ◌%◌, ==_refl, refl, ap, sym, ◌↔◌, ◌∙◌, some, Option-cases,
}
use latache_backend.Clock.{Text}

days_in_bounds : (month : ℕ) → (28 ≤ days_in month) × (days_in month ≤ 31)
unfolding days_in
days_in_bounds month = (ground arith, ground arith)

-- A calendar date of the years in four digits that Date.UTC keeps.
pub record IsCalendarDate (year month day : ℕ) : Type 0 where
  pub full_year : 100 ≤ year
  pub first_month : 1 ≤ month
  pub last_month : month ≤ 12
  pub first_day : 1 ≤ day
  pub last_day : day ≤ days_in (year * 12 + month - 1)

carry_days_later : (fuel month day : ℕ) → month ≤ (carry_days fuel month day).0
unfolding carry_days
carry_days_later zero month day = omega arith
carry_days_later (suc fuel) month day =
    let later = carry_days_later fuel (month + 1) (day - days_in month) in ground (arith, later)

-- The days end within a month once the fuel is as large as the day.
carry_days_ends :
    (fuel month day : ℕ)
    → day ≤ fuel
    → 1 ≤ day
    → (1 ≤ (carry_days fuel month day).1)
      × ((carry_days fuel month day).1 ≤ days_in (carry_days fuel month day).0)
unfolding carry_days
carry_days_ends zero month day h k = omega arith
carry_days_ends (suc fuel) month day h k =
    let bounds = days_in_bounds month in
    elim (Bool-cases (leb day (days_in month))) [
      | inl within ↦ rw within (k, ground arith)
      | inr beyond ↦
          let positive : days_in month < day = ground arith in
          rw beyond (
            carry_days_ends fuel (month + 1) (day - days_in month) (omega (arith, bounds.0))
              (omega arith))
    ]

-- However large the day, the date that Date.UTC makes of it lies in its month.
utc_date_ends :
    (year month day : ℕ)
    → (1 ≤ (utc_date year month day).1)
      × ((utc_date year month day).1 ≤ days_in (utc_date year month day).0)
unfolding utc_date
utc_date_ends year month day =
    let full_year = if leb year 99 then 1900 + year else year in
    let start = full_year * 12 + month - 1 in
    elim (Bool-cases (day == 0)) [
      | inl zeroth ↦
          let bounds = days_in_bounds (start - 1) in
          rw (utc_date, zeroth) (omega (arith, bounds.0), omega arith)
      | inr positive ↦
          rw (utc_date, positive) (carry_days_ends day start day (omega arith) (ground arith))
    ]

-- A day past the end of the month is one of a later month.
carry_days_past :
    (fuel month day : ℕ) → days_in month < day → 0 < fuel → month < (carry_days fuel month day).0
unfolding carry_days
carry_days_past zero month day h k = omega arith
carry_days_past (suc fuel) month day h k =
    let later = carry_days_later fuel (month + 1) (day - days_in month) in ground (arith, later)

carry_days_stays :
    (fuel month day : ℕ) → day ≤ days_in month → carry_days fuel month day ≡ (month, day)
unfolding carry_days
carry_days_stays zero month day h = refl
carry_days_stays (suc fuel) month day h =
    let within : leb day (days_in month) ≡ true = ground arith in rw within refl

calendar_date_accepted :
    (year month day : ℕ)
    → IsCalendarDate year month day
    → is_calendar_date (year, month, day) ≡ true
unfolding utc_date
calendar_date_accepted year month day c =
    let full = c.full_year in
    let low = c.first_month in
    let high = c.last_month in
    let positive : (day == 0) ≡ false = let d = c.first_day in ground arith in
    let late : leb year 99 ≡ false = ground arith in
    let stays = carry_days_stays day (year * 12 + month - 1) day c.last_day in
    let same : (year * 12 + month - 1) / 12 ≡ year = omega arith in
    let same' : (year * 12 + month - 1) % 12 + 1 ≡ month = omega arith in
    rw (utc_date, late, positive, stays, same, same', ==_refl year, ==_refl month, ==_refl day) refl

-- The month that a date names, once Date.UTC has kept it.
kept_month :
    (year month result : ℕ)
    → result / 12 ≡ year
    → result % 12 + 1 ≡ month
    → (result ≡ year * 12 + month - 1) × (1 ≤ month) × (month ≤ 12)
kept_month year month result h k = (omega arith, omega arith, omega arith)

utc_date-carry :
    (year month day : ℕ)
    → (day == 0) ≡ false
    → utc_date year month day
      ≡ carry_days day ((if leb year 99 then 1900 + year else year) * 12 + month - 1) day
unfolding utc_date
utc_date-carry year month day h = rw (utc_date, h) refl

is_calendar_date-IsCalendarDate :
    (year month day : ℕ)
    → is_calendar_date (year, month, day) ≡ true
    → IsCalendarDate year month day
is_calendar_date-IsCalendarDate year month day h =
    let full_year = if leb year 99 then 1900 + year else year in
    let start = full_year * 12 + month - 1 in
    let same_year : (utc_date year month day).0 / 12 ≡ year = ground arith in
    let same_month : (utc_date year month day).0 % 12 + 1 ≡ month = ground arith in
    let same_day : (utc_date year month day).1 ≡ day = ground arith in
    let named = kept_month year month (utc_date year month day).0 same_year same_month in
    let first : 1 ≤ day = let e = (utc_date_ends year month day).0 in omega (arith, e, same_day) in
    let carried = utc_date-carry year month day (ground arith) in
    let month_of : (carry_days day start day).0 ≡ year * 12 + month - 1 =
      ap (λ (p : ℕ × ℕ). p.0) (sym carried) ∙ named.0 in
    let no_sooner : year ≤ full_year = ground arith in
    elim (Bool-cases (leb day (days_in start))) [
      | inl within ↦
          let fits : day ≤ days_in start = ground arith in
          let stays = carry_days_stays day start day fits in
          let at_start : start ≡ year * 12 + month - 1 =
            ap (λ (p : ℕ × ℕ). p.0) (sym stays) ∙ month_of in
          let full : 100 ≤ year = ground (arith, named.1) in
          record {
            full_year = full;
            first_month = named.1;
            last_month = named.2;
            first_day = first;
            last_day = rw (← at_start) fits;
          }
      | inr beyond ↦
          let past = carry_days_past day start day (ground arith) first in
          absurd (omega (arith, past, month_of, no_sooner, named.1))
    ]

-- A text is a valid date exactly if it has the pattern of a date and names a day of the calendar, in
-- a year from 100 on.
pub is_valid_date_only_iff :
    (value : Text)
    → (is_valid_date_only value ≡ true) ↔ (
        (year : ℕ) × (month : ℕ) × (day : ℕ) × (date_parts value ≡ some (year, month, day))
        × IsCalendarDate year month day)
unfolding is_valid_date_only
is_valid_date_only_iff value = (
  λ h. elim (Option-cases (date_parts value)) [
    | inl unread ↦ cc (rw (unread, is_valid_date_only) at h)
    | inr ((year, month, day), read) ↦ (
      year,
      month,
      day,
      read,
      is_calendar_date-IsCalendarDate year month day (rw (read, is_valid_date_only) at h),
    )
  ],
  λ (year, month, day, read, c).
      rw (is_valid_date_only, read) (calendar_date_accepted year month day c),
)
