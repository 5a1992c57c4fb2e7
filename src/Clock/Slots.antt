-- ===== src/Clock/Slots.antt =====
-- src/common/utils/availability.util.ts: the hours that a Tasker offers. Today's date and the minutes
-- of the day so far are arguments.
pub mod Apart
use latache_backend.Clock.{Text}
use latache_backend.Clock.Dates.{is_today_or_future_date}
use latache_backend.Clock.Times.{TimeRange, ranges_overlap, parse_time_to_minutes}
use latache_backend.Prelude.{
  Bool, List, ℕ, Option, ◌&&◌, Result, ◌∷◌, true, false, if◌then◌else◌, ok, [], some, not, ltb,
  ◌>>◌, ◌==◌, leb, throw_if, none, any, map, ◌++◌,
}

unfoldable pub same_text : Text → Text → Bool
same_text [] [] = true
same_text [] (d ∷ ds) = false
same_text (c ∷ cs) [] = false
same_text (c ∷ cs) (d ∷ ds) = c == d && same_text cs ds

pub record Slot : Type 0 where
  pub date : Text
  pub range : TimeRange

-- The exceptions, with the dates and the slots that their messages name.
pub data SlotError : Type 0 where
  dates_passed : List Text → SlotError
  times_passed : List Slot → SlotError
  end_not_after_start overlapping : Text → SlotError

-- `filter`
unfoldable pub select {ℓ} : {A : Type ℓ} → (A → Bool) → List A → List A
select p [] = []
select p (x ∷ xs) = let rest = select p xs in if p x then x ∷ rest else rest

abbrev pub is_empty_list {ℓ} : {A : Type ℓ} → List A → Bool
is_empty_list [] = true
is_empty_list (x ∷ xs) = false

abbrev pub has_started : Option ℕ → ℕ → Bool
has_started none now_minutes = false
has_started (some start) now_minutes = leb start now_minutes

unfoldable pub is_elapsed : Text → ℕ → Slot → Bool
unfolding same_text parse_time_to_minutes
is_elapsed today now_minutes slot =
    same_text slot.date today
    && has_started (parse_time_to_minutes slot.range.start_time) now_minutes

abbrev pub runs_forward : Option ℕ → Option ℕ → Bool
runs_forward (some start) (some end) = ltb start end
runs_forward _ _ = false

-- The loop over the slots' times.
unfoldable pub check_times : List Slot → Result SlotError (Unit {0})
unfolding parse_time_to_minutes
check_times [] = ok tt
check_times (slot ∷ slots) = do
  throw_if
      (not (
        runs_forward (parse_time_to_minutes slot.range.start_time)
          (parse_time_to_minutes slot.range.end_time)))
      (end_not_after_start slot.date)
  check_times slots

abbrev pub clashes : Slot → Slot → Bool
clashes slot existing =
    same_text existing.date slot.date && ranges_overlap existing.range slot.range

-- The loop over the slots by their dates; `seen` are those before.
unfoldable pub check_overlaps : List Slot → List Slot → Result SlotError (Unit {0})
unfolding ranges_overlap same_text
check_overlaps seen [] = ok tt
check_overlaps seen (slot ∷ slots) = do
  throw_if (any (clashes slot) seen) (overlapping slot.date)
  check_overlaps (seen ++ slot ∷ []) slots

unfoldable pub validate_availability_slots : Text → ℕ → List Slot → Result SlotError (Unit {0})
unfolding select is_today_or_future_date is_elapsed check_times check_overlaps
validate_availability_slots today now_minutes slots = do
  let invalid_dates = select (λ s. not (is_today_or_future_date s.date today)) slots
  throw_if (not (is_empty_list invalid_dates)) (dates_passed (map (λ s. s.date) invalid_dates))
  let elapsed = select (is_elapsed today now_minutes) slots
  throw_if (not (is_empty_list elapsed)) (times_passed elapsed)
  check_times slots
  check_overlaps [] slots
