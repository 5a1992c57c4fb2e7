-- ===== src/Clock/Slots/Apart.antt =====
-- What validateAvailabilitySlots of src/common/utils/availability.util.ts lets through.
use latache_backend.Clock.Slots.{
  Slot, check_times, select, same_text, runs_forward, clashes, is_empty_list,
  validate_availability_slots, check_overlaps, is_elapsed,
}
use latache_backend.Clock.Times.Overlap.{IsIn, IsRange, ranges_overlap_iff}
use latache_backend.Prelude.{
  ℕ, ◌≡◌, List, ◌∷◌, false, Bool, ok, true, All, Bool-cases, Option-cases, >>=-eq-ok, ==_refl, [],
  inl, refl, arith, throw_if-eq_ok, inr, ltb, not, any, ◌++◌, All-append, All-split,
}
use latache_backend.Clock.{Text}
use latache_backend.Clock.Times.{parse_time_to_minutes}
use latache_backend.Clock.Dates.{is_today_or_future_date}

same_text_refl : (t : Text) → same_text t t ≡ true
unfolding same_text
same_text_refl [] = refl
same_text_refl (c ∷ cs) = rw (same_text, ==_refl c, same_text_refl cs) refl

select_none :
    (p : Slot → Bool) (slots : List Slot)
    → is_empty_list (select p slots) ≡ true
    → All (λ s. p s ≡ false) slots
unfolding select
select_none p [] h = tt
select_none p (s ∷ ss) h = elim (Bool-cases (p s)) [
  | inl hit ↦ cc (rw hit at h)
  | inr miss ↦ (miss, select_none p ss (rw miss at h))
]

-- The slot's times are readable and its end follows its start.
abbrev pub IsForward : Slot → Type 0
IsForward s = (start : ℕ) × (end : ℕ) × IsRange s.range start end

runs_forward-IsForward :
    (s : Slot)
    → runs_forward
        (parse_time_to_minutes s.range.start_time)
        (parse_time_to_minutes s.range.end_time)
      ≡ true
    → IsForward s
runs_forward-IsForward s h = elim (Option-cases (parse_time_to_minutes s.range.start_time)) [
  | inl unread ↦ cc (rw unread at h)
  | inr (start, read) ↦ elim (Option-cases (parse_time_to_minutes s.range.end_time)) [
    | inl unread ↦ cc (rw (read, unread) at h)
    | inr (end, read') ↦
        let forward : ltb start end ≡ true = rw (read, read') at h in
        (start, end, record { start_read = read; end_read = read'; forward = ground arith })
  ]
]

check_times-IsForward : (slots : List Slot) → check_times slots ≡ ok tt → All IsForward slots
unfolding check_times
check_times-IsForward [] h = tt
check_times-IsForward (s ∷ ss) h =
    let (_, forward, h₁) = >>=-eq-ok _ _ h in
    (
      runs_forward-IsForward s (ground (arith, throw_if-eq_ok _ _ forward)),
      check_times-IsForward ss h₁,
    )

-- On one date the two slots share no minute.
abbrev pub IsApart : Slot → Slot → Type 0
IsApart a b = a.date ≡ b.date → (minute : ℕ) → IsIn a.range minute → IsIn b.range minute → ⊥

abbrev pub ArePairwiseApart : List Slot → Type 0
ArePairwiseApart [] = Unit
ArePairwiseApart (s ∷ ss) = All (IsApart s) ss × ArePairwiseApart ss

no_clash-IsApart : (a b : Slot) → IsForward a → IsForward b → clashes b a ≡ false → IsApart a b
no_clash-IsApart a b (p, q, ra) (u, v, rb) free same minute in_a in_b =
    let meets = (ranges_overlap_iff a.range b.range p q u v ra rb).1 (minute, in_a, in_b) in
    let dated : same_text a.date b.date ≡ true = rw (← same) (same_text_refl a.date) in
    cc (rw (dated, meets) at free)

seen-IsApart :
    (slot : Slot) (ss seen : List Slot)
    → All IsForward seen
    → IsForward slot
    → any (clashes slot) seen ≡ false
    → All (λ e. All (IsApart e) ss) seen
    → All (λ e. IsApart e slot × All (IsApart e) ss) seen
seen-IsApart slot ss [] f g free k = tt
seen-IsApart slot ss (e ∷ es) f g free k =
    let none_here : clashes slot e ≡ false = ground arith in
    let none_behind : any (clashes slot) es ≡ false = ground arith in
    ((no_clash-IsApart e slot f.0 g none_here, k.0), seen-IsApart slot ss es f.1 g none_behind k.1)

nothing_left : (seen : List Slot) → All (λ e. All (IsApart e) []) seen
nothing_left [] = tt
nothing_left (e ∷ es) = (tt, nothing_left es)

check_overlaps-IsApart :
    (seen slots : List Slot)
    → All IsForward seen
    → All IsForward slots
    → check_overlaps seen slots ≡ ok tt
    → All (λ e. All (IsApart e) slots) seen × ArePairwiseApart slots
unfolding check_overlaps
check_overlaps-IsApart seen [] f g h = (nothing_left seen, tt)
check_overlaps-IsApart seen (s ∷ ss) f g h =
    let (_, free, h₁) = >>=-eq-ok _ _ h in
    let (all_seen, behind) =
      check_overlaps-IsApart (seen ++ s ∷ []) ss (All-append IsForward seen (s ∷ []) f (g.0, tt))
        g.1 h₁ in
    let (before, own) = All-split (λ e. All (IsApart e) ss) seen (s ∷ []) all_seen in
    (seen-IsApart s ss seen f g.0 (throw_if-eq_ok _ _ free) before, (own.0, behind))

-- A slot of today or later that has not begun, and ends after it starts.
pub record IsOffered (today : Text) (now_minutes : ℕ) (s : Slot) : Type 0 where
  pub in_time : is_today_or_future_date s.date today ≡ true
  pub not_begun : is_elapsed today now_minutes s ≡ false
  pub forward : IsForward s

All-IsOffered :
    (today : Text) (now_minutes : ℕ) (slots : List Slot)
    → All (λ s. not (is_today_or_future_date s.date today) ≡ false) slots
    → All (λ s. is_elapsed today now_minutes s ≡ false) slots
    → All IsForward slots
    → All (IsOffered today now_minutes) slots
All-IsOffered today now_minutes [] a b c = tt
All-IsOffered today now_minutes (s ∷ ss) a b c = (
  record { in_time = ground (arith, a.0); not_begun = b.0; forward = c.0 },
  All-IsOffered today now_minutes ss a.1 b.1 c.1,
)

-- Slots that are accepted are of today or later, have not begun and end after they start, and no two
-- of them on one date share a minute.
pub validate_availability_slots_apart :
    (today : Text) (now_minutes : ℕ) (slots : List Slot)
    → validate_availability_slots today now_minutes slots ≡ ok tt
    → All (IsOffered today now_minutes) slots × ArePairwiseApart slots
unfolding validate_availability_slots
validate_availability_slots_apart today now_minutes slots h =
    let (_, dated, h₁) = >>=-eq-ok _ _ h in
    let (_, unstarted, h₂) = >>=-eq-ok _ _ h₁ in
    let (_, timed, h₃) = >>=-eq-ok _ _ h₂ in
    let dates = select_none _ slots (ground (arith, throw_if-eq_ok _ _ dated)) in
    let starts = select_none _ slots (ground (arith, throw_if-eq_ok _ _ unstarted)) in
    let times = check_times-IsForward slots timed in
    (
      All-IsOffered today now_minutes slots dates starts times,
      (check_overlaps-IsApart [] slots tt times h₃).1,
    )
