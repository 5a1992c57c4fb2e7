-- ===== src/Clock/Times/Overlap.antt =====
-- rangesOverlap of src/common/utils/time.util.ts against the minutes that two ranges share.
use latache_backend.Clock.Times.{ranges_overlap, TimeRange, parse_time_to_minutes}
use latache_backend.Prelude.{
  ℕ, ◌≡◌, true, ltb, some, ◌≤◌, ◌&&◌, ◌<◌, ◌↔◌, refl, sym, ◌∙◌, if◌then◌else◌, arith, some-value,
}

-- A minute lies in a range from its start up to, but without, its end.
pub record IsIn (range : TimeRange) (minute : ℕ) : Type 0 where
  pub start : ℕ
  pub end : ℕ
  pub start_read : parse_time_to_minutes range.start_time ≡ some start
  pub end_read : parse_time_to_minutes range.end_time ≡ some end
  pub after_start : start ≤ minute
  pub before_end : minute < end

-- A range that ends after it starts.
pub record IsRange (range : TimeRange) (start end : ℕ) : Type 0 where
  pub start_read : parse_time_to_minutes range.start_time ≡ some start
  pub end_read : parse_time_to_minutes range.end_time ≡ some end
  pub forward : start < end

ranges_overlap_read :
    (left right : TimeRange) (a b c d : ℕ)
    → IsRange left a b
    → IsRange right c d
    → ranges_overlap left right ≡ (ltb a d && ltb c b)
unfolding ranges_overlap
ranges_overlap_read left right a b c d l r =
    rw (ranges_overlap, l.start_read, l.end_read, r.start_read, r.end_read) refl

-- Two ranges that end after they start overlap exactly where they share a minute.
pub ranges_overlap_iff :
    (left right : TimeRange) (a b c d : ℕ)
    → IsRange left a b
    → IsRange right c d
    → (ranges_overlap left right ≡ true) ↔ ((minute : ℕ) × IsIn left minute × IsIn right minute)
ranges_overlap_iff left right a b c d l r =
    let read = ranges_overlap_read left right a b c d l r in
    (
      λ h.
          let crossing = sym read ∙ h in
          let shared = if ltb a c then c else a in
          let forward = l.forward in
          let forward' = r.forward in
          (
            shared,
            record {
              start = a;
              end = b;
              start_read = l.start_read;
              end_read = l.end_read;
              after_start = ground arith;
              before_end = ground arith;
            },
            record {
              start = c;
              end = d;
              start_read = r.start_read;
              end_read = r.end_read;
              after_start = ground arith;
              before_end = ground arith;
            },
          ),
      λ (minute, in_left, in_right).
          let la : a ≡ in_left.start = some-value (sym l.start_read ∙ in_left.start_read) in
          let lb : b ≡ in_left.end = some-value (sym l.end_read ∙ in_left.end_read) in
          let rc : c ≡ in_right.start = some-value (sym r.start_read ∙ in_right.start_read) in
          let rd : d ≡ in_right.end = some-value (sym r.end_read ∙ in_right.end_read) in
          let starts = in_left.after_start in
          let ends = in_left.before_end in
          let starts' = in_right.after_start in
          let ends' = in_right.before_end in
          let first : ltb a d ≡ true = ground arith in
          let second : ltb c b ≡ true = ground arith in rw (read, first, second) refl,
    )
