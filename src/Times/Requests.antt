-- ===== src/Times/Requests.antt =====
-- The requests of src/modules/bookings/custom-time-requests.service.ts. The time now is given in
-- milliseconds, and as today's date with the minutes of the day.
use latache_backend.Clock.{Text}
use latache_backend.Clock.Dates.{is_today_or_future_date, is_at_least}
use latache_backend.Clock.Slots.{same_text}
use latache_backend.Clock.Times.{parse_time_to_minutes}
use latache_backend.Times.{
  TimeDb, TimeRow, TimeError, tell_time, change_time, has_time_id, is_pending_of, pending, accepted,
  rejected, expired, fulfilled, cancelled, no_longer_usable, is_live, self_booking,
  request_not_found, responded_already, not_matching, pending_already, is_accepted, is_pending,
  date_passed, has_expired, booking_taken, is_fulfilled, time_passed, tasker_not_found,
  used_already, tasker_inactive, is_expired, not_accepted, service_not_offered,
}
use latache_backend.Prelude.{
  Option, ℕ, String, Bool, List, some, ◌∷◌, if◌then◌else◌, Result, true, ◌==◌, ◌+◌, ◌>>=◌, ◌&&◌,
  ◌>>◌, [], not, ltb, leb, throw_if, false, str_eq, or_throw, ◌||◌, none, any, ok, ◌++◌,
}
use latache_backend.Prelude.Rows.{find}

pub record Now : Type 0 where
  pub at : ℕ
  pub today : Text
  pub minutes : ℕ

abbrev pub unread_or_started : Option ℕ → ℕ → Bool
unread_or_started none minutes = true
unread_or_started (some start) minutes = leb start minutes

-- isPastStart
unfoldable pub is_past_start : Text → Text → Now → Bool
unfolding is_at_least same_text parse_time_to_minutes
is_past_start date time now =
    if not (is_at_least date now.today)
    then true
    else if not (same_text date now.today)
    then false
    else unread_or_started (parse_time_to_minutes time) now.minutes

unfoldable pub expire_locked : TimeRow → TimeDb → TimeDb
expire_locked request db =
    tell_time request.customer_id "custom_time_request_expired" request.id
      (change_time request.id (λ r. record r { status = expired }) db)

unfoldable pub expire_each : List TimeRow → TimeDb → TimeDb
unfolding expire_locked
expire_each [] db = db
expire_each (row ∷ rest) db = expire_each rest (expire_locked row db)

-- The rows that expireStaleForPair selects.
unfoldable pub stale_of : ℕ → ℕ → ℕ → List TimeRow → List TimeRow
stale_of customer tasker now [] = []
stale_of customer tasker now (r ∷ rs) =
    let rest = stale_of customer tasker now rs in
    if is_pending_of customer tasker r && leb r.expires_at now then r ∷ rest else rest

unfoldable pub expire_stale_for_pair : ℕ → ℕ → ℕ → TimeDb → TimeDb
unfolding expire_each stale_of
expire_stale_for_pair customer tasker now db = expire_each (stale_of customer tasker now db.rows) db

-- What the queries on the Tasker and the service answer: whether the Tasker exists, is active, and
-- the service if it is active and offered.
pub record Offer : Type 0 where
  pub exists : Bool
  pub active : Bool
  pub service : Option ℕ

pub record TimeInput : Type 0 where
  pub service_slug : String
  pub requested_date : Text
  pub requested_time : Text

-- The transaction of create, with the time to live in milliseconds.
unfoldable pub create_pending :
    ℕ → ℕ → ℕ → ℕ → TimeInput → ℕ → Now → TimeDb → Result TimeError TimeDb
unfolding expire_stale_for_pair
create_pending id customer tasker service input ttl now db = do
  let swept = expire_stale_for_pair customer tasker now.at db
  throw_if (any (is_pending_of customer tasker) swept.rows) pending_already
  ok (
      tell_time tasker "custom_time_request_created" id (record swept {
        rows =
            swept.rows
            ++ record {
              id = id;
              customer_id = customer;
              tasker_id = tasker;
              service_id = service;
              service_slug = input.service_slug;
              requested_date = input.requested_date;
              requested_time = input.requested_time;
              status = pending;
              expires_at = now.at + ttl;
              responded_at = none;
              fulfilled_at = none;
              booking_id = none;
            }
              ∷ [];
      }))

unfoldable pub create_time :
    ℕ → ℕ → ℕ → Offer → TimeInput → ℕ → Now → TimeDb → Result TimeError TimeDb
unfolding create_pending is_today_or_future_date is_past_start
create_time id customer tasker offer input ttl now db = do
  throw_if (customer == tasker) self_booking
  throw_if (not (is_today_or_future_date input.requested_date now.today)) date_passed
  throw_if (is_past_start input.requested_date input.requested_time now) time_passed
  throw_if (not offer.exists) tasker_not_found
  throw_if (not offer.active) tasker_inactive
  service ← or_throw offer.service service_not_offered
  create_pending id customer tasker service input ttl now db

abbrev pub answer_row : Bool → ℕ → ℕ → TimeRow → TimeRow
answer_row true now ttl r = record r {
  status = accepted;
  responded_at = some now;
  expires_at = now + ttl;
}
answer_row false now ttl r = record r { status = rejected; responded_at = some now }

unfoldable pub respond : ℕ → ℕ → Bool → ℕ → Now → TimeDb → Result TimeError TimeDb
unfolding is_past_start
respond tasker id accept ttl now db = do
  request ← or_throw (find (has_time_id id) db.rows) request_not_found
  throw_if (not (request.tasker_id == tasker)) request_not_found
  throw_if (is_pending request.status && leb request.expires_at now.at) has_expired
  throw_if (not (is_pending request.status)) responded_already
  throw_if (accept && is_past_start request.requested_date request.requested_time now) time_passed
  ok (
      tell_time request.customer_id
        (if accept then "custom_time_request_accepted" else "custom_time_request_rejected") id
        (change_time id (answer_row accept now.at ttl) db))

unfoldable pub cancel_time : ℕ → ℕ → TimeDb → Result TimeError TimeDb
cancel_time customer id db = do
  request ← or_throw (find (has_time_id id) db.rows) request_not_found
  throw_if (not (request.customer_id == customer)) request_not_found
  throw_if (not (is_live request.status)) responded_already
  ok (
      tell_time request.tasker_id "custom_time_request_cancelled" id
        (change_time id (λ r. record r { status = cancelled }) db))

-- CustomTimeBookingClaim
pub record Claim : Type 0 where
  pub request_id : ℕ
  pub customer_id : ℕ
  pub tasker_id : ℕ
  pub service_slug : String
  pub date : Text
  pub time : Text

-- `parseTimeToMinutes(left) === parseTimeToMinutes(right)`
abbrev pub same_minutes : Option ℕ → Option ℕ → Bool
same_minutes none none = true
same_minutes none (some n) = false
same_minutes (some m) none = false
same_minutes (some m) (some n) = m == n

unfoldable pub matches_claim : TimeRow → Claim → Bool
unfolding same_text parse_time_to_minutes
matches_claim request claim =
    request.tasker_id == claim.tasker_id
    && (str_eq request.service_slug claim.service_slug
        && (same_text request.requested_date claim.date
            && same_minutes (parse_time_to_minutes request.requested_time)
                (parse_time_to_minutes claim.time)))

unfoldable pub assert_usable_for_booking : Claim → ℕ → TimeDb → Result TimeError TimeRow
unfolding matches_claim
assert_usable_for_booking claim now db = do
  request ← or_throw (find (has_time_id claim.request_id) db.rows) request_not_found
  throw_if (not (request.customer_id == claim.customer_id)) request_not_found
  throw_if (not (matches_claim request claim)) not_matching
  throw_if (is_fulfilled request.status) used_already
  throw_if (is_expired request.status || (is_accepted request.status && leb request.expires_at now))
      has_expired
  throw_if (not (is_accepted request.status)) not_accepted
  ok request

-- A booking uses one request only, by the unique index on it.
abbrev pub is_booked : ℕ → TimeRow → Bool
is_booked booking r = elim r.booking_id [ none ↦ false | some b ↦ b == booking ]

-- The update is on the row while it is accepted.
unfoldable pub mark_fulfilled : ℕ → ℕ → ℕ → TimeDb → Result TimeError TimeDb
mark_fulfilled id booking now db = do
  request ← or_throw (find (has_time_id id) db.rows) no_longer_usable
  throw_if (not (is_accepted request.status)) no_longer_usable
  throw_if (any (is_booked booking) db.rows) booking_taken
  ok (
      change_time id
        (λ r. record r { status = fulfilled; fulfilled_at = some now; booking_id = some booking })
        db)

-- The transaction of one candidate of expireDueRequests.
abbrev pub expire_candidate : Option TimeRow → ℕ → TimeDb → TimeDb
expire_candidate none now db = db
expire_candidate (some row) now db =
    if ltb now row.expires_at || not (is_live row.status) then db else expire_locked row db

-- The candidates that the query selected, in its order.
unfoldable pub expire_due_requests : List ℕ → ℕ → TimeDb → TimeDb
unfolding expire_locked
expire_due_requests [] now db = db
expire_due_requests (id ∷ ids) now db =
    expire_due_requests ids now (expire_candidate (find (has_time_id id) db.rows) now db)
