-- ===== src/Times/Single.antt =====
-- A customer waits for one answer of a Tasker at a time: the check of create in
-- src/modules/bookings/custom-time-requests.service.ts, whatever requests come.
pub mod Runs
use latache_backend.Times.{
  TimeDb, TimeRow, has_time_id, is_pending_of, expired, TimeError, cancelled, fulfilled, is_live,
}
use latache_backend.Times.Requests.{
  create_time, expire_locked, respond, cancel_time, expire_each, create_pending, mark_fulfilled,
  expire_due_requests, Now, expire_candidate, Offer, expire_stale_for_pair, answer_row, TimeInput,
  stale_of,
}
use latache_backend.Prelude.{
  Result, Option, ◌≡◌, ℕ, Bool, List, ◌++◌, sum_of, ◌≤◌, ok, if◌then◌else◌, any, ◌∷◌, [], arith,
  false, some, err, >>=-eq-ok, Bool-cases, true, refl, sum_of-append, ap, sym, ◌==◌, ltb, ok-value,
  ◌||◌, ◌&&◌, inl, throw_if-eq_ok, not, inr, none,
}
use latache_backend.Prelude.Rows.{update, find}

abbrev pub pending_mark : ℕ → ℕ → TimeRow → ℕ
pending_mark customer tasker r = if is_pending_of customer tasker r then 1 else 0

-- How many requests of the customer to the Tasker are pending.
abbrev pub pending_count : ℕ → ℕ → List TimeRow → ℕ
pending_count customer tasker = sum_of (pending_mark customer tasker)

abbrev pub IsSingle : TimeDb → Type 0
IsSingle db = (customer tasker : ℕ) → pending_count customer tasker db.rows ≤ 1

sum_of-update_le :
    (f : TimeRow → ℕ) (p : TimeRow → Bool) (g : TimeRow → TimeRow) (rows : List TimeRow)
    → ((r : TimeRow) → f (g r) ≤ f r)
    → sum_of f (update p g rows) ≤ sum_of f rows
unfolding update
sum_of-update_le f p g [] less = omega arith
sum_of-update_le f p g (r ∷ rs) less =
    let rest = sum_of-update_le f p g rs less in let here = less r in ground (arith, rest, here)

-- A change that makes no request pending.
change-IsSingle :
    (id : ℕ) (g : TimeRow → TimeRow) (db after : TimeDb)
    → after.rows ≡ update (has_time_id id) g db.rows
    → ((customer tasker : ℕ) (r : TimeRow)
        → pending_mark customer tasker (g r) ≤ pending_mark customer tasker r)
    → IsSingle db
    → IsSingle after
change-IsSingle id g db after changed less s customer tasker =
    let sums =
      sum_of-update_le (pending_mark customer tasker) (has_time_id id) g db.rows
        (less customer tasker) in
    rw changed (omega (arith, sums, s customer tasker))

expire_locked-IsSingle :
    (row : TimeRow) (db : TimeDb) → IsSingle db → IsSingle (expire_locked row db)
unfolding expire_locked
expire_locked-IsSingle row db s =
    change-IsSingle row.id (λ r. record r { status = expired }) db (expire_locked row db) refl
      (λ c t r. ground arith) s

expire_each-IsSingle :
    (rows : List TimeRow) (db : TimeDb) → IsSingle db → IsSingle (expire_each rows db)
unfolding expire_each
expire_each-IsSingle [] db s = s
expire_each-IsSingle (row ∷ rest) db s =
    expire_each-IsSingle rest (expire_locked row db) (expire_locked-IsSingle row db s)

pending_count-none :
    (customer tasker : ℕ) (rows : List TimeRow)
    → any (is_pending_of customer tasker) rows ≡ false
    → pending_count customer tasker rows ≡ 0
pending_count-none customer tasker [] h = refl
pending_count-none customer tasker (r ∷ rs) h =
    ground (arith, pending_count-none customer tasker rs)

-- The new row is pending for its own pair only.
append-IsSingle :
    (db after : TimeDb) (row : TimeRow)
    → after.rows ≡ db.rows ++ row ∷ []
    → any (is_pending_of row.customer_id row.tasker_id) db.rows ≡ false
    → IsSingle db
    → IsSingle after
append-IsSingle db after row added free s customer tasker =
    let sums = sum_of-append (pending_mark customer tasker) db.rows (row ∷ []) in
    rw added (elim (Bool-cases (row.customer_id == customer && row.tasker_id == tasker)) [
      | inl own ↦
          let own_customer : row.customer_id ≡ customer = ground arith in
          let own_tasker : row.tasker_id ≡ tasker = ground arith in
          let empty : pending_count customer tasker db.rows ≡ 0 =
            rw (← own_customer, ← own_tasker)
              (pending_count-none row.customer_id row.tasker_id db.rows free) in
          ground (arith, sums, empty)
      | inr other ↦
          let nothing : pending_mark customer tasker row ≡ 0 = ground arith in
          omega (arith, sums, nothing, s customer tasker)
    ])

create_pending-IsSingle :
    (id customer tasker service : ℕ) (input : TimeInput) (ttl : ℕ) (now : Now) (db after : TimeDb)
    → create_pending id customer tasker service input ttl now db ≡ ok after
    → IsSingle db
    → IsSingle after
unfolding create_pending expire_stale_for_pair
create_pending-IsSingle id customer tasker service input ttl now db after h s =
    let (_, free, h₁) = >>=-eq-ok _ _ h in
    append-IsSingle (expire_stale_for_pair customer tasker now.at db) after _
      (ap (λ (d : TimeDb). d.rows) (sym (ok-value h₁))) (throw_if-eq_ok _ _ free)
      (expire_each-IsSingle (stale_of customer tasker now.at db.rows) db s)

pub create_time-IsSingle :
    (id customer tasker : ℕ) (offer : Offer) (input : TimeInput) (ttl : ℕ) (now : Now)
    (db after : TimeDb)
    → create_time id customer tasker offer input ttl now db ≡ ok after
    → IsSingle db
    → IsSingle after
unfolding create_time
create_time-IsSingle id customer tasker offer input ttl now db after h s =
    let (_, _, h₁) = >>=-eq-ok _ _ h in
    let (_, _, h₂) = >>=-eq-ok _ _ h₁ in
    let (_, _, h₃) = >>=-eq-ok _ _ h₂ in
    let (_, _, h₄) = >>=-eq-ok _ _ h₃ in
    let (_, _, h₅) = >>=-eq-ok _ _ h₄ in
    let (service, _, h₆) = >>=-eq-ok _ _ h₅ in
    create_pending-IsSingle id customer tasker service input ttl now db after h₆ s

answer_row_less :
    (accept : Bool) (now ttl customer tasker : ℕ) (r : TimeRow)
    → pending_mark customer tasker (answer_row accept now ttl r) ≤ pending_mark customer tasker r
answer_row_less true now ttl customer tasker r = ground arith
answer_row_less false now ttl customer tasker r = ground arith

pub respond-IsSingle :
    (tasker id : ℕ) (accept : Bool) (ttl : ℕ) (now : Now) (db after : TimeDb)
    → respond tasker id accept ttl now db ≡ ok after
    → IsSingle db
    → IsSingle after
unfolding respond
respond-IsSingle tasker id accept ttl now db after h s =
    let (request, _, h₁) = >>=-eq-ok _ _ h in
    let (_, _, h₂) = >>=-eq-ok _ _ h₁ in
    let (_, _, h₃) = >>=-eq-ok _ _ h₂ in
    let (_, _, h₄) = >>=-eq-ok _ _ h₃ in
    let (_, _, h₅) = >>=-eq-ok _ _ h₄ in
    change-IsSingle id (answer_row accept now.at ttl) db after
      (ap (λ (d : TimeDb). d.rows) (sym (ok-value h₅))) (answer_row_less accept now.at ttl) s

pub cancel_time-IsSingle :
    (customer id : ℕ) (db after : TimeDb)
    → cancel_time customer id db ≡ ok after
    → IsSingle db
    → IsSingle after
unfolding cancel_time
cancel_time-IsSingle customer id db after h s =
    let (request, _, h₁) = >>=-eq-ok _ _ h in
    let (_, _, h₂) = >>=-eq-ok _ _ h₁ in
    let (_, _, h₃) = >>=-eq-ok _ _ h₂ in
    change-IsSingle id (λ r. record r { status = cancelled }) db after
      (ap (λ (d : TimeDb). d.rows) (sym (ok-value h₃))) (λ c t r. ground arith) s

pub mark_fulfilled-IsSingle :
    (id booking now : ℕ) (db after : TimeDb)
    → mark_fulfilled id booking now db ≡ ok after
    → IsSingle db
    → IsSingle after
unfolding mark_fulfilled
mark_fulfilled-IsSingle id booking now db after h s =
    let (request, _, h₁) = >>=-eq-ok _ _ h in
    let (_, _, h₂) = >>=-eq-ok _ _ h₁ in
    let (_, _, h₃) = >>=-eq-ok _ _ h₂ in
    change-IsSingle id
      (λ r. record r { status = fulfilled; fulfilled_at = some now; booking_id = some booking }) db
      after (ap (λ (d : TimeDb). d.rows) (sym (ok-value h₃))) (λ c t r. ground arith) s

expire_candidate-IsSingle :
    (row : Option TimeRow) (now : ℕ) (db : TimeDb)
    → IsSingle db
    → IsSingle (expire_candidate row now db)
expire_candidate-IsSingle none now db s = s
expire_candidate-IsSingle (some row) now db s =
    elim (Bool-cases (ltb now row.expires_at || not (is_live row.status))) [
      | inl kept ↦ rw kept s
      | inr due ↦ rw due (expire_locked-IsSingle row db s)
    ]

pub expire_due_requests-IsSingle :
    (ids : List ℕ) (now : ℕ) (db : TimeDb) → IsSingle db → IsSingle (expire_due_requests ids now db)
unfolding expire_due_requests
expire_due_requests-IsSingle [] now db s = s
expire_due_requests-IsSingle (id ∷ ids) now db s =
    expire_due_requests-IsSingle ids now _
      (expire_candidate-IsSingle (find (has_time_id id) db.rows) now db s)
