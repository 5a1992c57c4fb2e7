-- ===== src/Clock.antt =====
-- Times of day and dates as texts, of src/common/utils. A text is the list of its UTF-16 units.
pub mod Times
pub mod Dates
pub mod Slots
mod Tests
use latache_backend.Prelude.{
  ℕ, List, [], ◌∷◌, Bool, suc, leb, if◌then◌else◌, ◌&&◌, ◌/◌, ltb, ◌+◌, ◌++◌, ◌%◌, zero,
}
use latache_backend.Prelude.Text.{is_space}

abbrev pub Text : Type 0
Text = List ℕ

-- The white space at the start, which `trim` and `\s*` take.
unfoldable pub skip_spaces : Text → Text
unfolding is_space
skip_spaces [] = []
skip_spaces (c ∷ cs) = if is_space c then skip_spaces cs else c ∷ cs

unfoldable pub drop_spaces : Text → Text
unfolding is_space
drop_spaces [] = []
drop_spaces (c ∷ cs) =
    let rest = drop_spaces cs in
    elim rest [ [] ↦ if is_space c then [] else c ∷ [] | d ∷ ds ↦ c ∷ d ∷ ds ]

-- `trim`
unfoldable pub trim_text : Text → Text
unfolding skip_spaces drop_spaces
trim_text t = drop_spaces (skip_spaces t)

-- `\d`
abbrev pub is_digit : ℕ → Bool
is_digit c = leb 48 c && leb c 57

-- `toString` of a number, with fuel for its digits.
unfoldable pub digits : ℕ → ℕ → Text
digits zero n = []
digits (suc fuel) n =
    let front = digits fuel (n / 10) in
    if ltb n 10 then (48 + n) ∷ [] else front ++ (48 + n % 10) ∷ []

unfoldable pub decimal : ℕ → Text
unfolding digits
decimal n = digits (suc n) n

-- `padStart(2, '0')`
abbrev pub pad_two : Text → Text
pad_two [] = 48 ∷ 48 ∷ []
pad_two (c ∷ []) = 48 ∷ c ∷ []
pad_two (c ∷ d ∷ cs) = c ∷ d ∷ cs
