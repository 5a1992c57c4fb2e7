-- ===== src/Clock/Tests.antt =====
-- Times, dates and slots as texts, and the theorems applied to them.
use latache_backend.Clock.{Text}
use latache_backend.Clock.Times.{
  parse_time_to_minutes, format_minutes_as_24_hour, TimeRange, to_24_hour, ranges_overlap,
  to_12_hour, format_minutes_as_12_hour,
}
use latache_backend.Prelude.{
  ◌∷◌, ◌≡◌, All, List, ◌<◌, arith, some, true, [], ◌>>=◌, ok, refl, ◌↔◌, ℕ,
}
use latache_backend.Clock.Dates.{is_valid_date_only, date_parts}
use latache_backend.Clock.Slots.{validate_availability_slots, Slot}
use latache_backend.Clock.Times.Overlap.{IsRange, IsIn, ranges_overlap_iff}
use latache_backend.Clock.Slots.Apart.{
  IsOffered, ArePairwiseApart, validate_availability_slots_apart,
}
use latache_backend.Clock.Times.Halves.{parse_time_to_minutes_bound, conversions_keep, parse-format}
use latache_backend.Clock.Dates.Calendar.{IsCalendarDate, is_valid_date_only_iff}

-- " 2:05 pm"
abbrev afternoon : Text
afternoon = 32 ∷ 50 ∷ 58 ∷ 48 ∷ 53 ∷ 32 ∷ 112 ∷ 109 ∷ []

-- "14:05"
abbrev fourteen : Text
fourteen = 49 ∷ 52 ∷ 58 ∷ 48 ∷ 53 ∷ []

-- "15:00"
abbrev fifteen : Text
fifteen = 49 ∷ 53 ∷ 58 ∷ 48 ∷ 48 ∷ []

-- "13:00"
abbrev thirteen : Text
thirteen = 49 ∷ 51 ∷ 58 ∷ 48 ∷ 48 ∷ []

-- "2024-02-29"
abbrev leap_day : Text
leap_day = 50 ∷ 48 ∷ 50 ∷ 52 ∷ 45 ∷ 48 ∷ 50 ∷ 45 ∷ 50 ∷ 57 ∷ []

reads_afternoon : parse_time_to_minutes afternoon ≡ some 845
unfolding parse_time_to_minutes
reads_afternoon = refl

reads_leap_day : is_valid_date_only leap_day ≡ true
unfolding is_valid_date_only
reads_leap_day = refl

parse-format_example :
    (parse_time_to_minutes (format_minutes_as_24_hour 845) ≡ some 845)
    × (parse_time_to_minutes (format_minutes_as_12_hour 845) ≡ some 845)
parse-format_example = parse-format 845 (omega arith)

conversions_keep_example :
    (parse_time_to_minutes (to_24_hour afternoon) ≡ parse_time_to_minutes afternoon)
    × (parse_time_to_minutes (to_12_hour afternoon) ≡ parse_time_to_minutes afternoon)
conversions_keep_example = conversions_keep afternoon

parse_time_to_minutes_bound_example : 845 < 1440
parse_time_to_minutes_bound_example = parse_time_to_minutes_bound afternoon 845 reads_afternoon

abbrev left_range : TimeRange
left_range = record { start_time = thirteen; end_time = fifteen }

abbrev right_range : TimeRange
right_range = record { start_time = afternoon; end_time = fifteen }

left-IsRange : IsRange left_range 780 900
unfolding parse_time_to_minutes
left-IsRange = record { start_read = refl; end_read = refl; forward = omega arith }

right-IsRange : IsRange right_range 845 900
unfolding parse_time_to_minutes
right-IsRange = record { start_read = refl; end_read = refl; forward = omega arith }

ranges_overlap_iff_example :
    (ranges_overlap left_range right_range ≡ true)
    ↔ ((minute : ℕ) × IsIn left_range minute × IsIn right_range minute)
ranges_overlap_iff_example =
    ranges_overlap_iff left_range right_range 780 900 845 900 left-IsRange right-IsRange

is_valid_date_only_iff_example : (is_valid_date_only leap_day ≡ true) ↔ (
    (year : ℕ) × (month : ℕ) × (day : ℕ) × (date_parts leap_day ≡ some (year, month, day))
    × IsCalendarDate year month day)
is_valid_date_only_iff_example = is_valid_date_only_iff leap_day

abbrev offers : List Slot
offers =
    record { date = leap_day; range = record { start_time = thirteen; end_time = fourteen } }
    ∷ record { date = leap_day; range = record { start_time = afternoon; end_time = fifteen } }
    ∷ []

offers_run : validate_availability_slots leap_day 700 offers ≡ ok tt
unfolding validate_availability_slots ◌>>=◌
offers_run = refl

validate_availability_slots_apart_example :
    All (IsOffered leap_day 700) offers × ArePairwiseApart offers
validate_availability_slots_apart_example =
    validate_availability_slots_apart leap_day 700 offers offers_run
