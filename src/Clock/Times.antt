-- ===== src/Clock/Times.antt =====
-- src/common/utils/time.util.ts: times of day as minutes since midnight.
pub mod RoundTrip
pub mod Halves
pub mod Overlap
use latache_backend.Clock.{Text, is_digit, trim_text, skip_spaces, decimal, pad_two}
use latache_backend.Prelude.{
  Bool, Option, ℕ, ◌/◌, if◌then◌else◌, none, some, ◌%◌, ltb, ◌∷◌, ◌++◌, [], ◌&&◌, ◌||◌, ◌-◌, leb,
  ◌==◌, false, ◌+◌, ◌*◌, true,
}

-- `(\d{1,2})` in front of a colon
abbrev pub take_hours : Text → Option (ℕ × Text)
take_hours [] = none
take_hours (c ∷ []) = none
take_hours (c ∷ d ∷ cs) =
    if is_digit c
    then (if is_digit d then some ((c - 48) * 10 + (d - 48), cs) else some (c - 48, d ∷ cs))
    else none

-- `:(\d{2})`
abbrev pub take_minutes : Text → Option (ℕ × Text)
take_minutes (p ∷ c ∷ d ∷ cs) =
    if p == 58 && (is_digit c && is_digit d) then some ((c - 48) * 10 + (d - 48), cs) else none
take_minutes _ = none

-- What both patterns begin with: the hours, the minutes and what follows them.
unfoldable pub take_time : Text → Option (ℕ × ℕ × Text)
take_time t = elim (take_hours t) [
  | none ↦ none
  | some (hours, after) ↦ elim (take_minutes after) [
    | none ↦ none
    | some (minutes, rest) ↦ some (hours, minutes, rest)
  ]
]

-- `(AM|PM)$` without regard to case; `true` for the afternoon.
abbrev pub period_of : Text → Option Bool
period_of (p ∷ m ∷ []) =
    if m == 77 || m == 109
    then (if p == 65 || p == 97
        then some false
        else if p == 80 || p == 112
        then some true
        else none)
    else none
period_of _ = none

-- TWELVE_HOUR_PATTERN
unfoldable pub twelve_hour : Text → Option (ℕ × ℕ × Bool)
unfolding take_time skip_spaces
twelve_hour t = elim (take_time t) [
  | none ↦ none
  | some (hours, minutes, rest) ↦ elim (period_of (skip_spaces rest)) [
    | none ↦ none
    | some afternoon ↦ some (hours, minutes, afternoon)
  ]
]

-- TWENTY_FOUR_HOUR_PATTERN
unfoldable pub twenty_four_hour : Text → Option (ℕ × ℕ)
unfolding take_time
twenty_four_hour t = elim (take_time t) [
  | none ↦ none
  | some (hours, minutes, []) ↦ some (hours, minutes)
  | some (hours, minutes, c ∷ cs) ↦ none
]

abbrev pub twelve_hour_minutes : ℕ → ℕ → Bool → Option ℕ
twelve_hour_minutes raw_hours minutes afternoon =
    if ltb raw_hours 1 || (ltb 12 raw_hours || ltb 59 minutes)
    then none
    else some ((raw_hours % 12 + (if afternoon then 12 else 0)) * 60 + minutes)

abbrev pub twenty_four_hour_minutes : ℕ → ℕ → Option ℕ
twenty_four_hour_minutes hours minutes =
    if ltb 23 hours || ltb 59 minutes then none else some (hours * 60 + minutes)

-- parseTimeToMinutes
unfoldable pub parse_time_to_minutes : Text → Option ℕ
unfolding trim_text twelve_hour twenty_four_hour
parse_time_to_minutes value = elim (twelve_hour (trim_text value)) [
  | some (raw_hours, minutes, afternoon) ↦ twelve_hour_minutes raw_hours minutes afternoon
  | none ↦ elim (twenty_four_hour (trim_text value)) [
    | some (hours, minutes) ↦ twenty_four_hour_minutes hours minutes
    | none ↦ none
  ]
]

unfoldable pub format_minutes_as_24_hour : ℕ → Text
unfolding decimal
format_minutes_as_24_hour minutes =
    pad_two (decimal (minutes / 60)) ++ 58 ∷ pad_two (decimal (minutes % 60))

-- `hours24 % 12 || 12`
abbrev pub hours_12 : ℕ → ℕ
hours_12 hours = if hours % 12 == 0 then 12 else hours % 12

unfoldable pub format_minutes_as_12_hour : ℕ → Text
unfolding decimal
format_minutes_as_12_hour minutes =
    decimal (hours_12 (minutes / 60))
    ++ 58 ∷ pad_two (decimal (minutes % 60))
    ++ 32 ∷ (if leb 12 (minutes / 60) then 80 else 65) ∷ 77 ∷ []

unfoldable pub to_24_hour : Text → Text
unfolding parse_time_to_minutes format_minutes_as_24_hour
to_24_hour value = elim (parse_time_to_minutes value) [
  | none ↦ value
  | some minutes ↦ format_minutes_as_24_hour minutes
]

unfoldable pub to_12_hour : Text → Text
unfolding parse_time_to_minutes format_minutes_as_12_hour
to_12_hour value = elim (parse_time_to_minutes value) [
  | none ↦ value
  | some minutes ↦ format_minutes_as_12_hour minutes
]

pub record TimeRange : Type 0 where
  pub start_time : Text
  pub end_time : Text

-- The comparison of rangesOverlap, where all four times are readable.
abbrev pub crosses : Option ℕ → Option ℕ → Option ℕ → Option ℕ → Bool
crosses (some left_start) (some left_end) (some right_start) (some right_end) =
    ltb left_start right_end && ltb right_start left_end
crosses _ _ _ _ = false

unfoldable pub ranges_overlap : TimeRange → TimeRange → Bool
unfolding parse_time_to_minutes
ranges_overlap left right =
    crosses (parse_time_to_minutes left.start_time) (parse_time_to_minutes left.end_time)
      (parse_time_to_minutes right.start_time) (parse_time_to_minutes right.end_time)
