-- ===== src/Times.antt =====
-- Requests for a time outside a Tasker's listed availability: the rows of CustomTimeRequest
-- (prisma/schema.prisma) and src/modules/bookings/custom-time-requests.service.ts.
pub mod Requests
pub mod Single
pub mod Use
mod Tests
use latache_backend.Clock.{Text}
use latache_backend.Prelude.Rows.{update, find}
use latache_backend.Prelude.{
  List, ℕ, Bool, String, ◌||◌, true, false, ◌==◌, ◌&&◌, Option, ◌++◌, ◌∷◌, [],
}

pub data TimeStatus : Type 0 where
  pending accepted rejected expired fulfilled cancelled : TimeStatus

pub record TimeRow : Type 0 where
  pub id : ℕ
  pub customer_id : ℕ
  pub tasker_id : ℕ
  pub service_id : ℕ
  pub service_slug : String
  pub requested_date : Text
  pub requested_time : Text
  pub status : TimeStatus
  pub expires_at : ℕ
  pub responded_at : Option ℕ
  pub fulfilled_at : Option ℕ
  pub booking_id : Option ℕ

pub record TimeNotice : Type 0 where
  pub user_id : ℕ
  pub type : String
  pub request_id : ℕ

pub record TimeDb : Type 0 where
  pub rows : List TimeRow
  pub notices : List TimeNotice

pub data TimeError : Type 0 where
  self_booking date_passed time_passed tasker_not_found tasker_inactive : TimeError
  service_not_offered pending_already request_not_found has_expired : TimeError
  responded_already not_matching used_already not_accepted no_longer_usable : TimeError
  booking_taken : TimeError

abbrev pub is_pending : TimeStatus → Bool
is_pending pending = true
is_pending accepted = false
is_pending rejected = false
is_pending expired = false
is_pending fulfilled = false
is_pending cancelled = false

abbrev pub is_accepted : TimeStatus → Bool
is_accepted pending = false
is_accepted accepted = true
is_accepted rejected = false
is_accepted expired = false
is_accepted fulfilled = false
is_accepted cancelled = false

abbrev pub is_expired : TimeStatus → Bool
is_expired pending = false
is_expired accepted = false
is_expired rejected = false
is_expired expired = true
is_expired fulfilled = false
is_expired cancelled = false

abbrev pub is_fulfilled : TimeStatus → Bool
is_fulfilled pending = false
is_fulfilled accepted = false
is_fulfilled rejected = false
is_fulfilled expired = false
is_fulfilled fulfilled = true
is_fulfilled cancelled = false

-- `status` is pending or accepted
abbrev pub is_live : TimeStatus → Bool
is_live s = is_pending s || is_accepted s

abbrev pub has_time_id : ℕ → TimeRow → Bool
has_time_id id r = r.id == id

abbrev pub is_pending_of : ℕ → ℕ → TimeRow → Bool
is_pending_of customer tasker r =
    r.customer_id == customer && (r.tasker_id == tasker && is_pending r.status)

abbrev pub tell_time : ℕ → String → ℕ → TimeDb → TimeDb
tell_time user type id db = record db {
  notices = db.notices ++ record { user_id = user; type = type; request_id = id } ∷ [];
}

abbrev pub change_time : ℕ → (TimeRow → TimeRow) → TimeDb → TimeDb
change_time id g db = record db { rows = update (has_time_id id) g db.rows }
