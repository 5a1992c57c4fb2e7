-- ===== src/Work.antt =====
-- The proofs and codes of the work on a booking: the tables that
-- src/modules/bookings/booking-work-verification.service.ts works on, by prisma/schema.prisma. The
-- rows of a booking, its timer and its two proofs are found by the booking's identifier.
pub mod Codes
pub mod Starting
pub mod Finishing
pub mod Order
pub mod Path
mod Tests
use latache_backend.Clock.{Text}
use latache_backend.Prelude.Rows.{put}
use latache_backend.Prelude.{
  ℕ, String, Result, Bool, ◌++◌, Option, true, ◌>>◌, false, ok, throw_if, ◌∷◌, List, err, [], any,
  str_eq, if◌then◌else◌, ◌==◌, ◌+◌, ◌≡◌, some, >>=-eq-ok, none, ◌⊎◌, ap, inr, inl, sym, arith,
  ok-value, refl,
}

pub data WorkStatus : Type 0 where
  arrived in_progress completed elsewhere : WorkStatus

pub data TimerStatus : Type 0 where
  running paused stopped : TimerStatus

pub record Session : Type 0 where
  pub tasker_id : ℕ
  pub status : TimerStatus
  pub started_at : ℕ
  pub paused_at : Option ℕ
  pub accumulated_paused_secs : ℕ
  pub stopped_at : Option ℕ

-- What UploadsService.verifyBookingWorkImage answers for an image that it accepts.
pub record Image : Type 0 where
  pub public_id : String
  pub secure_url : String
  pub resource_type : String
  pub bytes : ℕ
  pub mime_type : String

pub record Proof : Type 0 where
  pub tasker_id : ℕ
  pub image : Image
  pub captured_at : ℕ

pub record Work : Type 0 where
  pub customer_id : ℕ
  pub tasker_id : ℕ
  pub status : WorkStatus
  pub work_verification_required : Bool
  pub task_started_at : Option ℕ
  pub front_door_verified_at : Option ℕ
  pub start_work_otp_hash : Option Text
  pub start_work_otp_expires_at : Option ℕ
  pub start_work_otp_attempts : ℕ
  pub start_work_verified_at : Option ℕ
  pub completion_proof_at : Option ℕ
  pub completion_otp_hash : Option Text
  pub completion_otp_expires_at : Option ℕ
  pub completion_otp_attempts : ℕ
  pub completion_submitted_at : Option ℕ
  pub completion_approved_at : Option ℕ
  pub completion_approved_by_role : Option String
  pub completion_verified_at : Option ℕ
  pub completion_verified_by_role : Option String
  pub task_completed_at : Option ℕ
  pub session : Option Session
  pub front_door : Option Proof
  pub completion : Option Proof

pub record WorkNotice : Type 0 where
  pub user_id : ℕ
  pub type : String
  pub booking_id : ℕ

-- `enqueueBooking`: the event and, of a changed booking, the reason.
pub record WorkEvent : Type 0 where
  pub booking_id : ℕ
  pub event : String
  pub reason : String

pub record WorkAudit : Type 0 where
  pub actor_id : ℕ
  pub target_user_id : ℕ
  pub action : String
  pub booking_id : ℕ

-- `public_ids` is the unique index on the images of all proofs.
pub record WorkDb : Type 0 where
  pub works : ℕ → Option Work
  pub public_ids : List String
  pub completed_tasks : ℕ → ℕ
  pub notices : List WorkNotice
  pub events : List WorkEvent
  pub audits : List WorkAudit

pub data WorkError : Type 0 where
  not_a_tasker image_refused booking_not_found not_required not_arrived : WorkError
  proof_immutable image_reused no_front_door no_start_code code_expired : WorkError
  attempts_exhausted timer_exists not_in_progress no_active_timer : WorkError
  no_completion_proof timer_not_stopped no_completion_code : WorkError
  code_refused : ℕ → Bool → WorkError

abbrev pub is_arrived : WorkStatus → Bool
is_arrived arrived = true
is_arrived in_progress = false
is_arrived completed = false
is_arrived elsewhere = false

abbrev pub is_in_progress : WorkStatus → Bool
is_in_progress arrived = false
is_in_progress in_progress = true
is_in_progress completed = false
is_in_progress elsewhere = false

abbrev pub is_completed : WorkStatus → Bool
is_completed arrived = false
is_completed in_progress = false
is_completed completed = true
is_completed elsewhere = false

abbrev pub is_stopped : TimerStatus → Bool
is_stopped running = false
is_stopped paused = false
is_stopped stopped = true

abbrev pub store : ℕ → Work → WorkDb → WorkDb
store id work db = record db { works = put id work db.works }

abbrev pub tell : ℕ → String → ℕ → WorkDb → WorkDb
tell user type id db = record db {
  notices = db.notices ++ record { user_id = user; type = type; booking_id = id } ∷ [];
}

abbrev pub enqueue : ℕ → String → String → WorkDb → WorkDb
enqueue id event reason db = record db {
  events = db.events ++ record { booking_id = id; event = event; reason = reason } ∷ [];
}

abbrev pub record_work_audit : ℕ → ℕ → String → ℕ → WorkDb → WorkDb
record_work_audit actor target action id db = record db {
  audits =
      db.audits
      ++ record { actor_id = actor; target_user_id = target; action = action; booking_id = id }
        ∷ [];
}

-- `completedTasks: { increment: 1 }`
abbrev pub count_task : ℕ → WorkDb → WorkDb
count_task tasker db = record db {
  completed_tasks = λ t. if t == tasker then db.completed_tasks t + 1 else db.completed_tasks t;
}

-- The image of a new proof is used by no other.
abbrev pub claim_image : Image → WorkDb → Result WorkError WorkDb
claim_image image db = do
  throw_if (any (λ p. str_eq p image.public_id) db.public_ids) image_reused
  ok (record db { public_ids = image.public_id ∷ db.public_ids })

-- What the transaction of a code returns: InvalidOtpResult or ValidOtpResult.
pub data OtpResult : Type 0 where
  invalid_code : ℕ → Bool → OtpResult
  valid_code : OtpResult

-- A transaction on a wrong code is committed, and the request throws after it.
abbrev pub answer_code :
    WorkDb → Result WorkError (WorkDb × OtpResult) → WorkDb × Result WorkError (Unit {0})
answer_code db (ok (after, valid_code)) = (after, ok tt)
answer_code db (ok (after, invalid_code attempts locked)) =
    (after, err (code_refused attempts locked))
answer_code db (err e) = (db, err e)

-- A proof cannot be changed; the same image again changes nothing.
unfoldable pub unless_attached :
    Option Proof → Image → WorkDb → Result WorkError WorkDb → Result WorkError WorkDb
unless_attached none image db new = new
unless_attached (some existing) image db new =
    if str_eq existing.image.public_id image.public_id then ok db else err proof_immutable

pub unless_attached-eq_ok :
    (proof : Option Proof) (image : Image) (db after : WorkDb) (new : Result WorkError WorkDb)
    → unless_attached proof image db new ≡ ok after
    → (after.works ≡ db.works) ⊎ ((proof ≡ none) × (new ≡ ok after))
unfolding unless_attached
unless_attached-eq_ok none image db after new h = inr (refl, h)
unless_attached-eq_ok (some existing) image db after new h = inl (ground arith)

pub claim_image-works :
    (image : Image) (db after : WorkDb) → claim_image image db ≡ ok after → after.works ≡ db.works
claim_image-works image db after h =
    let (_, _, h₁) = >>=-eq-ok _ _ h in ap (λ (d : WorkDb). d.works) (sym (ok-value h₁))
