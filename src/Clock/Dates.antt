-- ===== src/Clock/Dates.antt =====
-- src/common/utils/date.util.ts: calendar dates as texts. Today's date is an argument.
pub mod Calendar
use latache_backend.Clock.{Text, is_digit}
use latache_backend.Prelude.{
  Option, ℕ, Bool, ◌&&◌, ◌-◌, suc, true, if◌then◌else◌, ◌/◌, ◌%◌, ◌+◌, ◌∷◌, ◌*◌, not, leb, ◌==◌,
  ◌||◌, some, false, zero, ltb, none, [],
}

abbrev pub two_digits : ℕ → ℕ → ℕ
two_digits c d = (c - 48) * 10 + (d - 48)

-- DATE_PATTERN, and the numbers of its three parts.
unfoldable pub date_parts : Text → Option (ℕ × ℕ × ℕ)
date_parts (a ∷ b ∷ c ∷ d ∷ p ∷ e ∷ f ∷ q ∷ g ∷ h ∷ []) =
    if is_digit a
      && is_digit b
      && is_digit c
      && is_digit d
      && p == 45
      && is_digit e
      && is_digit f
      && q == 45
      && is_digit g
      && is_digit h
    then some (two_digits a b * 100 + two_digits c d, two_digits e f, two_digits g h)
    else none
date_parts _ = none

abbrev pub is_leap : ℕ → Bool
is_leap year = year % 4 == 0 && (not (year % 100 == 0) || year % 400 == 0)

-- The days of a month, which is counted from January of the year 0.
unfoldable pub days_in : ℕ → ℕ
days_in month =
    if month % 12 == 1
    then (if is_leap (month / 12) then 29 else 28)
    else if month % 12 == 3 || (month % 12 == 5 || (month % 12 == 8 || month % 12 == 10))
    then 30
    else 31

-- A day past the end of its month is a day of a later one.
unfoldable pub carry_days : ℕ → ℕ → ℕ → ℕ × ℕ
carry_days zero month day = (month, day)
carry_days (suc fuel) month day =
    let later = carry_days fuel (month + 1) (day - days_in month) in
    if leb day (days_in month) then (month, day) else later

-- `new Date(Date.UTC(year, month - 1, day))`: the month, counted as above, and the day. A year
-- below 100 is one of the twentieth century.
unfoldable pub utc_date : ℕ → ℕ → ℕ → ℕ × ℕ
unfolding carry_days days_in
utc_date year month day =
    let full_year = if leb year 99 then 1900 + year else year in
    let start = full_year * 12 + month - 1 in
    if day == 0 then (start - 1, days_in (start - 1)) else carry_days day start day

abbrev pub is_calendar_date : ℕ × ℕ × ℕ → Bool
is_calendar_date (year, month, day) =
    let date = utc_date year month day in
    date.0 / 12 == year && (date.0 % 12 + 1 == month && date.1 == day)

unfoldable pub is_valid_date_only : Text → Bool
unfolding date_parts utc_date
is_valid_date_only value = elim (date_parts value) [
  | none ↦ false
  | some parts ↦ is_calendar_date parts
]

-- `left >= right` of two texts
unfoldable pub is_at_least : Text → Text → Bool
is_at_least cs [] = true
is_at_least [] (d ∷ ds) = false
is_at_least (c ∷ cs) (d ∷ ds) = let rest = is_at_least cs ds in if c == d then rest else ltb d c

-- isTodayOrFutureDate
unfoldable pub is_today_or_future_date : Text → Text → Bool
unfolding is_valid_date_only is_at_least
is_today_or_future_date date today = is_valid_date_only date && is_at_least date today

-- isFutureDate
unfoldable pub is_future_date : Text → Text → Bool
unfolding is_valid_date_only is_at_least
is_future_date date today = is_valid_date_only date && not (is_at_least today date)
