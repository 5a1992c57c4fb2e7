-- ===== src/Clock/Times/RoundTrip.antt =====
-- Printing and reading a time of day agree: parseTimeToMinutes and the formats of
-- src/common/utils/time.util.ts.
use latache_backend.Clock.{Text, trim_text, skip_spaces, drop_spaces, decimal, digits, pad_two}
use latache_backend.Clock.Times.{
  take_time, parse_time_to_minutes, format_minutes_as_24_hour, twelve_hour, twenty_four_hour,
  period_of,
}
use latache_backend.Prelude.{
  ℕ, ◌≡◌, ◌≤◌, ◌<◌, false, ◌+◌, ◌++◌, arith, ◌∷◌, ◌/◌, some, [], ◌%◌, refl, ◌*◌, ltb, suc,
  Bool-cases, true, inl, inr, zero, ◌∙◌, ap, Bool, if◌then◌else◌, none,
}
use latache_backend.Prelude.Text.{is_space}

pub digit_not_space : (a : ℕ) → a < 10 → is_space (48 + a) ≡ false
unfolding is_space
digit_not_space a h = ground arith

pub decimal_one : (n : ℕ) → n < 10 → decimal n ≡ (48 + n) ∷ []
unfolding decimal digits
decimal_one n h = let small : ltb n 10 ≡ true = ground arith in rw small refl

pub decimal_two : (n : ℕ) → 10 ≤ n → n < 100 → decimal n ≡ (48 + n / 10) ∷ (48 + n % 10) ∷ []
unfolding decimal digits
decimal_two zero h k = elim h [ ]
decimal_two (suc n) h k =
    let large : ltb (suc n) 10 ≡ false = ground arith in
    let front : ltb (suc n / 10) 10 ≡ true = ground arith in rw (large, front) refl

pub pad_decimal : (n : ℕ) → n < 100 → pad_two (decimal n) ≡ (48 + n / 10) ∷ (48 + n % 10) ∷ []
pad_decimal n h = elim (Bool-cases (ltb n 10)) [
  | inl small ↦
      let below : n < 10 = ground arith in
      let front : n / 10 ≡ 0 = omega arith in
      let back : n % 10 ≡ n = omega arith in rw (decimal_one n below, front, back) refl
  | inr large ↦ rw (decimal_two n (ground arith) h) refl
]

-- A text that begins and ends with no white space is trimmed.
drop_spaces-last :
    (cs : Text) (c : ℕ) → is_space c ≡ false → drop_spaces (cs ++ c ∷ []) ≡ cs ++ c ∷ []
unfolding drop_spaces
drop_spaces-last [] c h = rw (drop_spaces, h) refl
drop_spaces-last (d ∷ []) c h = rw (drop_spaces-last [] c h, drop_spaces) refl
drop_spaces-last (d ∷ e ∷ cs) c h = rw (drop_spaces-last (e ∷ cs) c h, drop_spaces) refl

pub trim_text_same :
    (b : ℕ) (cs : Text) (c : ℕ)
    → is_space b ≡ false
    → is_space c ≡ false
    → trim_text (b ∷ cs ++ c ∷ []) ≡ b ∷ cs ++ c ∷ []
unfolding trim_text skip_spaces
trim_text_same b cs c h k = rw h (drop_spaces-last (b ∷ cs) c k)

take_time_two :
    (a b c d : ℕ) (rest : Text)
    → a < 10
    → b < 10
    → c < 10
    → d < 10
    → take_time ((48 + a) ∷ (48 + b) ∷ 58 ∷ (48 + c) ∷ (48 + d) ∷ rest)
      ≡ some (a * 10 + b, c * 10 + d, rest)
unfolding take_time
take_time_two a b c d rest ha hb hc hd = ground arith

pub take_time_one :
    (a c d : ℕ) (rest : Text)
    → a < 10
    → c < 10
    → d < 10
    → take_time ((48 + a) ∷ 58 ∷ (48 + c) ∷ (48 + d) ∷ rest) ≡ some (a, c * 10 + d, rest)
unfolding take_time
take_time_one a c d rest ha hc hd = ground arith

-- The text of a time of day.
abbrev clock_text : ℕ → ℕ → Text → Text
clock_text hours minutes rest =
    (48 + hours / 10) ∷ (48 + hours % 10) ∷ 58 ∷ (48 + minutes / 10) ∷ (48 + minutes % 10) ∷ rest

pub take_clock_text :
    (hours minutes : ℕ) (rest : Text)
    → hours < 100
    → minutes < 100
    → take_time (clock_text hours minutes rest) ≡ some (hours, minutes, rest)
take_clock_text hours minutes rest h k =
    let whole : hours / 10 * 10 + hours % 10 ≡ hours = omega arith in
    let whole' : minutes / 10 * 10 + minutes % 10 ≡ minutes = omega arith in
    take_time_two (hours / 10) (hours % 10) (minutes / 10) (minutes % 10) rest (omega arith)
      (omega arith) (omega arith) (omega arith)
    ∙ rw (whole, whole') refl

trim_clock_text :
    (hours minutes : ℕ)
    → hours < 100
    → minutes < 100
    → trim_text (clock_text hours minutes []) ≡ clock_text hours minutes []
trim_clock_text hours minutes h k =
    trim_text_same (48 + hours / 10) ((48 + hours % 10) ∷ 58 ∷ (48 + minutes / 10) ∷ [])
      (48 + minutes % 10) (digit_not_space (hours / 10) (omega arith))
      (digit_not_space (minutes % 10) (omega arith))

take_time-no_period :
    (t : Text) (hours minutes : ℕ)
    → take_time t ≡ some (hours, minutes, [])
    → (twelve_hour t ≡ none) × (twenty_four_hour t ≡ some (hours, minutes))
unfolding twelve_hour twenty_four_hour skip_spaces
take_time-no_period t hours minutes read =
    (rw (twelve_hour, read) refl, rw (twenty_four_hour, read) refl)

parse_24 :
    (t : Text) (hours minutes : ℕ)
    → trim_text t ≡ t
    → take_time t ≡ some (hours, minutes, [])
    → hours ≤ 23
    → minutes ≤ 59
    → parse_time_to_minutes t ≡ some (hours * 60 + minutes)
unfolding parse_time_to_minutes
parse_24 t hours minutes kept read h k =
    let fits : ltb 23 hours ≡ false = ground arith in
    let fits' : ltb 59 minutes ≡ false = ground arith in
    let (no_period, plain) = take_time-no_period t hours minutes read in
    rw (parse_time_to_minutes, kept, no_period, kept, plain, fits, fits') refl

pub parse_12 :
    (t rest : Text) (hours minutes : ℕ) (afternoon : Bool)
    → trim_text t ≡ t
    → take_time t ≡ some (hours, minutes, rest)
    → period_of (skip_spaces rest) ≡ some afternoon
    → 1 ≤ hours
    → hours ≤ 12
    → minutes ≤ 59
    → parse_time_to_minutes t ≡ some ((hours % 12 + (if afternoon then 12 else 0)) * 60 + minutes)
unfolding parse_time_to_minutes twelve_hour
parse_12 t rest hours minutes afternoon kept read period h h' k =
    let positive : ltb hours 1 ≡ false = ground arith in
    let fits : ltb 12 hours ≡ false = ground arith in
    let fits' : ltb 59 minutes ≡ false = ground arith in
    rw (parse_time_to_minutes, kept, twelve_hour, read, period, positive, fits, fits') refl

pub parse-format_24 :
    (n : ℕ) → n < 1440 → parse_time_to_minutes (format_minutes_as_24_hour n) ≡ some n
unfolding format_minutes_as_24_hour
parse-format_24 n h =
    let whole : n / 60 * 60 + n % 60 ≡ n = omega arith in
    let printed : format_minutes_as_24_hour n ≡ clock_text (n / 60) (n % 60) [] =
      rw
        (
          format_minutes_as_24_hour,
          pad_decimal (n / 60) (omega arith),
          pad_decimal (n % 60) (omega arith),
        )
        refl in
    ap parse_time_to_minutes printed
    ∙ parse_24 (clock_text (n / 60) (n % 60) []) (n / 60) (n % 60)
        (trim_clock_text (n / 60) (n % 60) (omega arith) (omega arith))
        (take_clock_text (n / 60) (n % 60) [] (omega arith) (omega arith)) (omega arith)
        (omega arith)
    ∙ ap some whole
