-- ===== src/Clock/Times/Halves.antt =====
-- The 12 hour clock of src/common/utils/time.util.ts: formatMinutesAs12Hour read back, and the
-- bounds of what parseTimeToMinutes reads.
use latache_backend.Clock.Times.{
  take_time, to_24_hour, to_12_hour, format_minutes_as_12_hour, parse_time_to_minutes, period_of,
  twenty_four_hour_minutes, twelve_hour_minutes, twelve_hour, hours_12, twenty_four_hour,
  format_minutes_as_24_hour,
}
use latache_backend.Clock.Times.RoundTrip.{
  parse_12, parse-format_24, decimal_one, pad_decimal, trim_text_same, digit_not_space,
  take_time_one, decimal_two, take_clock_text,
}
use latache_backend.Clock.{skip_spaces, Text, decimal, trim_text, pad_two}
use latache_backend.Prelude.Text.{is_space}
use latache_backend.Prelude.{
  ℕ, Bool, ◌∷◌, ◌<◌, ◌≡◌, ◌++◌, if◌then◌else◌, Option-cases, some, inl, Bool-cases, leb, true,
  arith, [], ltb, inr, ◌/◌, false, refl, ◌+◌, ◌≤◌, ◌%◌, ◌*◌, ◌∙◌, ap,
}

-- The letters behind the minutes.
abbrev half_text : Bool → Text
half_text afternoon = 32 ∷ (if afternoon then 80 else 65) ∷ 77 ∷ []

half_period : (afternoon : Bool) → period_of (skip_spaces (half_text afternoon)) ≡ some afternoon
unfolding skip_spaces is_space
half_period true = refl
half_period false = refl

abbrev half_clock_text : ℕ → ℕ → Bool → Text
half_clock_text hours minutes afternoon =
    decimal hours ++ 58 ∷ pad_two (decimal minutes) ++ half_text afternoon

-- The text with the digits of its hour, which are one or two.
half_clock_read :
    (hours minutes : ℕ) (afternoon : Bool)
    → hours < 100
    → minutes < 100
    → (trim_text (half_clock_text hours minutes afternoon)
        ≡ half_clock_text hours minutes afternoon)
      × (take_time (half_clock_text hours minutes afternoon)
          ≡ some (hours, minutes, half_text afternoon))
unfolding is_space take_time
half_clock_read hours minutes afternoon h k = elim (Bool-cases (ltb hours 10)) [
  | inl small ↦
      let below : hours < 10 = ground arith in
      let c = 48 + minutes / 10 in
      let d = 48 + minutes % 10 in
      let whole : minutes / 10 * 10 + minutes % 10 ≡ minutes = omega arith in
      rw (decimal_one hours below, pad_decimal minutes k)
        (
          trim_text_same (48 + hours) (58 ∷ c ∷ d ∷ 32 ∷ (if afternoon then 80 else 65) ∷ []) 77
              (digit_not_space hours below) refl,
          take_time_one hours (minutes / 10) (minutes % 10) (half_text afternoon) below
                (omega arith) (omega arith)
              ∙ rw whole refl,
        )
  | inr large ↦
      let c = 48 + minutes / 10 in
      let d = 48 + minutes % 10 in
      rw (decimal_two hours (ground arith) h, pad_decimal minutes k)
        (
          trim_text_same (48 + hours / 10)
              ((48 + hours % 10) ∷ 58 ∷ c ∷ d ∷ 32 ∷ (if afternoon then 80 else 65) ∷ []) 77
              (digit_not_space (hours / 10) (omega arith)) refl,
          take_clock_text hours minutes (half_text afternoon) h k,
        )
]

parse-format_12 : (n : ℕ) → n < 1440 → parse_time_to_minutes (format_minutes_as_12_hour n) ≡ some n
unfolding format_minutes_as_12_hour
parse-format_12 n h =
    let afternoon = leb 12 (n / 60) in
    let hours = hours_12 (n / 60) in
    let low : 1 ≤ hours_12 (n / 60) = ground arith in
    let high : hours_12 (n / 60) ≤ 12 = ground arith in
    let (kept, read) = half_clock_read hours (n % 60) afternoon (omega arith) (omega arith) in
    let whole : (hours_12 (n / 60) % 12 + (if leb 12 (n / 60) then 12 else 0)) * 60 + n % 60 ≡ n =
      ground arith in
    parse_12 (half_clock_text hours (n % 60) afternoon) (half_text afternoon) hours (n % 60)
      afternoon kept read (half_period afternoon) low high (omega arith)
    ∙ ap some whole

-- A time of day that is printed, on the 24 hour clock or on the 12 hour clock, is read back.
pub parse-format :
    (n : ℕ)
    → n < 1440
    → (parse_time_to_minutes (format_minutes_as_24_hour n) ≡ some n)
      × (parse_time_to_minutes (format_minutes_as_12_hour n) ≡ some n)
parse-format n h = (parse-format_24 n h, parse-format_12 n h)

twelve_hour_minutes_bound :
    (hours minutes : ℕ) (afternoon : Bool) (n : ℕ)
    → twelve_hour_minutes hours minutes afternoon ≡ some n
    → n < 1440
twelve_hour_minutes_bound hours minutes afternoon n h = ground arith

twenty_four_hour_minutes_bound :
    (hours minutes n : ℕ) → twenty_four_hour_minutes hours minutes ≡ some n → n < 1440
twenty_four_hour_minutes_bound hours minutes n h = ground arith

-- Whatever text is read, the minutes lie within one day.
pub parse_time_to_minutes_bound : (t : Text) (n : ℕ) → parse_time_to_minutes t ≡ some n → n < 1440
unfolding parse_time_to_minutes
parse_time_to_minutes_bound t n h = elim (Option-cases (twelve_hour (trim_text t))) [
  | inr ((hours, minutes, afternoon), twelve) ↦
      twelve_hour_minutes_bound hours minutes afternoon n (rw (twelve, parse_time_to_minutes) at h)
  | inl other ↦
      let h₁ = rw (other, parse_time_to_minutes) at h in
      elim (Option-cases (twenty_four_hour (trim_text t))) [
        | inl unread ↦ cc (rw unread at h₁)
        | inr ((hours, minutes), read) ↦
            twenty_four_hour_minutes_bound hours minutes n (rw read at h₁)
      ]
]

-- A conversion to either clock keeps the time that the text is read as, unreadable texts included.
pub conversions_keep :
    (t : Text)
    → (parse_time_to_minutes (to_24_hour t) ≡ parse_time_to_minutes t)
      × (parse_time_to_minutes (to_12_hour t) ≡ parse_time_to_minutes t)
unfolding to_24_hour to_12_hour
conversions_keep t = elim (Option-cases (parse_time_to_minutes t)) [
  | inl unread ↦ rw (to_24_hour, to_12_hour, unread) (unread, unread)
  | inr (n, read) ↦
      let day = parse_time_to_minutes_bound t n read in
      rw (to_24_hour, to_12_hour, read) (parse-format n day)
]
