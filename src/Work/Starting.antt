-- ===== src/Work/Starting.antt =====
-- From the arrival to the running timer: attachFrontDoor, issueStartCode and startWork of
-- src/modules/bookings/booking-work-verification.service.ts.
use latache_backend.Clock.{Text}
use latache_backend.Work.{
  Work, WorkDb, WorkError, Image, store, tell, enqueue, OtpResult, answer_code, invalid_code,
  booking_not_found, not_a_tasker, timer_exists, not_required, image_refused, record_work_audit,
  is_arrived, not_arrived, running, no_front_door, no_start_code, code_expired, in_progress,
  valid_code, attempts_exhausted, claim_image, unless_attached,
}
use latache_backend.Work.Codes.{Purpose, start, matches_otp}
use latache_backend.Prelude.{
  Bool, ℕ, Result, Option, ◌>>◌, ◌+◌, ◌>>=◌, throw_if, or_throw, is_some, not, leb, ◌==◌, ok, some,
  if◌then◌else◌, none,
}

-- Where there is no proof of the arrival yet.
unfoldable pub arrival_proof : ℕ → ℕ → Image → ℕ → Work → WorkDb → Result WorkError WorkDb
arrival_proof user id verified now work db = do
  claimed ← claim_image verified db
  ok (
      enqueue id "booking:updated" "front_door_proof_submitted" (
        tell work.customer_id "front_door_proof_submitted" id (
          store id
            (record work {
              front_door = some (record { tasker_id = user; image = verified; captured_at = now });
              front_door_verified_at = some now;
            })
            claimed)))

-- `image` is none where the image is refused.
unfoldable pub attach_front_door :
    Bool → ℕ → ℕ → Option Image → ℕ → WorkDb → Result WorkError WorkDb
unfolding arrival_proof unless_attached
attach_front_door is_tasker user id image now db = do
  throw_if (not is_tasker) not_a_tasker
  verified ← or_throw image image_refused
  work ← or_throw (db.works id) booking_not_found
  throw_if (not (work.tasker_id == user)) booking_not_found
  throw_if (not work.work_verification_required) not_required
  throw_if (not (is_arrived work.status)) not_arrived
  unless_attached work.front_door verified db (arrival_proof user id verified now work db)

module _ (digest : Purpose → ℕ → Text → Text) where
  -- The code is random, and comes with the time at which it expires.
  unfoldable pub issue_start_code : ℕ → ℕ → Text → ℕ → WorkDb → Result WorkError WorkDb
  issue_start_code customer id code expires_at db = do
    work ← or_throw (db.works id) booking_not_found
    throw_if (not (work.customer_id == customer)) booking_not_found
    throw_if (not work.work_verification_required) not_required
    throw_if (not (is_arrived work.status)) not_arrived
    throw_if (not (is_some work.front_door_verified_at)) no_front_door
    ok (
        tell work.tasker_id "work_start_code_ready" id (
          store id
            (record work {
              start_work_otp_hash = some (digest start id code);
              start_work_otp_expires_at = some expires_at;
              start_work_otp_attempts = 0;
            })
            db))

  module _ (max_attempts : ℕ) where
    -- What a right code writes.
    unfoldable pub begin_right : ℕ → ℕ → ℕ → Work → WorkDb → WorkDb
    begin_right tasker id now work db = enqueue id "booking:timer" "" (
        enqueue id "booking:updated" "work_start_otp_verified" (
          record_work_audit tasker work.customer_id "booking_work_start_verified" id (
            tell work.customer_id "task_started" id (
              store id
                (record work {
                  session = some (record {
                    tasker_id = tasker;
                    status = running;
                    started_at = now;
                    paused_at = none;
                    accumulated_paused_secs = 0;
                    stopped_at = none;
                  });
                  status = in_progress;
                  task_started_at = some now;
                  start_work_verified_at = some now;
                  start_work_otp_hash = none;
                  start_work_otp_expires_at = none;
                  start_work_otp_attempts = 0;
                })
                db))))

    -- Where the code is right.
    unfoldable pub begin_work : ℕ → ℕ → ℕ → Work → WorkDb → Result WorkError (WorkDb × OtpResult)
    unfolding begin_right
    begin_work tasker id now work db = do
      throw_if (is_some work.session) timer_exists
      ok (begin_right tasker id now work db, valid_code)

    -- Where the code is wrong.
    abbrev pub miss_start : ℕ → Work → WorkDb → WorkDb × OtpResult
    miss_start id work db =
        let attempts = work.start_work_otp_attempts + 1 in
        (
          store id (record work { start_work_otp_attempts = attempts }) db,
          invalid_code attempts (leb max_attempts attempts),
        )

    unfoldable pub start_transaction :
        ℕ → ℕ → Text → ℕ → WorkDb → Result WorkError (WorkDb × OtpResult)
    unfolding begin_work
    start_transaction tasker id code now db = do
      work ← or_throw (db.works id) booking_not_found
      throw_if (not (work.tasker_id == tasker)) booking_not_found
      throw_if (not work.work_verification_required) not_required
      throw_if (not (is_arrived work.status)) not_arrived
      throw_if (not (is_some work.front_door_verified_at)) no_front_door
      hash ← or_throw work.start_work_otp_hash no_start_code
      expires_at ← or_throw work.start_work_otp_expires_at no_start_code
      throw_if (leb expires_at now) code_expired
      throw_if (leb max_attempts work.start_work_otp_attempts) attempts_exhausted
      if matches_otp digest start id code hash
          then begin_work tasker id now work db
          else ok (miss_start id work db)

    unfoldable pub start_work : ℕ → ℕ → Text → ℕ → WorkDb → WorkDb × Result WorkError (Unit {0})
    unfolding start_transaction
    start_work tasker id code now db = answer_code db (start_transaction tasker id code now db)
