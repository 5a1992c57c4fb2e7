-- ===== src/Times/Use.antt =====
-- An accepted request is used for one booking: assertUsableForBooking and markFulfilled of
-- src/modules/bookings/custom-time-requests.service.ts.
use mathlib.Core.Path.{subst}
use latache_backend.Times.{TimeDb, TimeRow, has_time_id, is_accepted, no_longer_usable, fulfilled}
use latache_backend.Times.Requests.{mark_fulfilled, assert_usable_for_booking, Claim, matches_claim}
use latache_backend.Prelude.{
  ℕ, ◌>>=◌, ◌≡◌, some, ok, true, err, false, >>=-eq-ok, ok-value, ◌<◌, refl, not-false, ap,
  throw_if-eq_ok, sym, arith, or_throw-eq-ok, ◌∙◌,
}
use latache_backend.Prelude.Rows.{find, find-update, find-holds}

refused_again :
    (id booking now : ℕ) (row : TimeRow) (db : TimeDb)
    → find (has_time_id id) db.rows ≡ some row
    → is_accepted row.status ≡ false
    → mark_fulfilled id booking now db ≡ err no_longer_usable
unfolding mark_fulfilled ◌>>=◌
refused_again id booking now row db found h = rw (mark_fulfilled, found, h) refl

-- A request that a claim may use is accepted, in time, and for the same customer and Tasker.
pub record IsGranted (claim : Claim) (now : ℕ) (row : TimeRow) : Type 0 where
  pub own_customer : row.customer_id ≡ claim.customer_id
  pub own_tasker : row.tasker_id ≡ claim.tasker_id
  pub accepted_row : is_accepted row.status ≡ true
  pub in_time : now < row.expires_at

pub assert_usable_for_booking-IsGranted :
    (claim : Claim) (now : ℕ) (db : TimeDb) (row : TimeRow)
    → assert_usable_for_booking claim now db ≡ ok row
    → (find (has_time_id claim.request_id) db.rows ≡ some row) × IsGranted claim now row
unfolding assert_usable_for_booking matches_claim
assert_usable_for_booking-IsGranted claim now db row h =
    let (request, finding, h₁) = >>=-eq-ok _ _ h in
    let (_, customer, h₂) = >>=-eq-ok _ _ h₁ in
    let (_, matching, h₃) = >>=-eq-ok _ _ h₂ in
    let (_, _, h₄) = >>=-eq-ok _ _ h₃ in
    let (_, live, h₅) = >>=-eq-ok _ _ h₄ in
    let (_, taken, h₆) = >>=-eq-ok _ _ h₅ in
    let same : request ≡ row = ok-value h₆ in
    let own = not-false _ (throw_if-eq_ok _ _ customer) in
    let fits = not-false _ (throw_if-eq_ok _ _ matching) in
    let ready = not-false _ (throw_if-eq_ok _ _ taken) in
    let alive = throw_if-eq_ok _ _ live in
    let usable : IsGranted claim now request = record {
      own_customer = ground arith;
      own_tasker = ground arith;
      accepted_row = ready;
      in_time = ground arith;
    } in
    (or_throw-eq-ok _ _ finding ∙ ap some same, subst (λ r. IsGranted claim now r) same usable)

-- A request that a booking was allowed to use was accepted, had not expired, and belonged to the same
-- customer and Tasker; once it is marked as used, no booking can mark it again, whenever.
pub mark_fulfilled_once :
    (claim : Claim) (booking other now later : ℕ) (db after : TimeDb) (row : TimeRow)
    → assert_usable_for_booking claim now db ≡ ok row
    → mark_fulfilled claim.request_id booking now db ≡ ok after
    → IsGranted claim now row
      × (mark_fulfilled claim.request_id other later after ≡ err no_longer_usable)
unfolding mark_fulfilled
mark_fulfilled_once claim booking other now later db after row allowed h =
    let (found, usable) = assert_usable_for_booking-IsGranted claim now db row allowed in
    let (request, finding, h₁) = >>=-eq-ok _ _ h in
    let (_, _, h₂) = >>=-eq-ok _ _ h₁ in
    let (_, _, h₃) = >>=-eq-ok _ _ h₂ in
    let used = (λ (r : TimeRow). record r {
      status = fulfilled;
      fulfilled_at = some now;
      booking_id = some booking;
    }) in
    let again : find (has_time_id claim.request_id) after.rows ≡ some (used row) =
      ap (λ (d : TimeDb). find (has_time_id claim.request_id) d.rows) (sym (ok-value h₃))
      ∙ find-update (has_time_id claim.request_id) used db.rows row found
          (find-holds _ _ _ found) in
    (usable, refused_again claim.request_id other later (used row) after again refl)
