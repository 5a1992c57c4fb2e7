-- ===== src/Work/Finishing.antt =====
-- From the running timer to the completed booking: attachCompletion, issueCompletionCode and
-- finishWork of src/modules/bookings/booking-work-verification.service.ts.
use latache_backend.Clock.{Text}
use latache_backend.Work.{
  Work, WorkDb, WorkError, Image, store, tell, enqueue, record_work_audit, OtpResult, Session,
  TimerStatus, answer_code, count_task, stopped, completed, invalid_code, no_active_timer,
  booking_not_found, is_in_progress, not_a_tasker, is_stopped, not_in_progress, not_required,
  image_refused, claim_image, no_completion_proof, timer_not_stopped, is_completed, valid_code,
  no_completion_code, code_expired, attempts_exhausted, unless_attached,
}
use latache_backend.Work.Codes.{Purpose, completion, matches_otp}
use latache_backend.Prelude.{
  Option, Bool, ℕ, Result, ◌>>◌, false, ◌>>=◌, ◌+◌, throw_if, or_throw, some, none, is_some, leb,
  ◌-◌, not, ◌==◌, ◌&&◌, ◌/◌, if◌then◌else◌, ok,
}

-- Whole seconds of a pause that is still on.
abbrev pub pause_of : ℕ → Session → ℕ
pause_of now session = seconds session.status session.paused_at
  where
    seconds : TimerStatus → Option ℕ → ℕ
    seconds TimerStatus.paused (some since) = (now - since) / 1000
    seconds _ _ = 0

abbrev pub stop_session : ℕ → Session → Session
stop_session now session = record session {
  status = stopped;
  paused_at = none;
  stopped_at = some now;
  accumulated_paused_secs = session.accumulated_paused_secs + pause_of now session;
}

-- Where there is no proof of the completed work yet.
unfoldable pub complete_proof : ℕ → ℕ → Image → ℕ → Work → WorkDb → Result WorkError WorkDb
complete_proof user id verified now work db = do
  session ← or_throw work.session no_active_timer
  throw_if (is_stopped session.status) no_active_timer
  claimed ← claim_image verified db
  ok (
      enqueue id "booking:updated" "completion_proof_submitted" (
        tell work.customer_id "work_completion_proof_submitted" id (
          store id
            (record work {
              session = some (stop_session now session);
              completion = some (record { tasker_id = user; image = verified; captured_at = now });
              completion_proof_at = some now;
            })
            claimed)))

unfoldable pub attach_completion :
    Bool → ℕ → ℕ → Option Image → ℕ → WorkDb → Result WorkError WorkDb
unfolding complete_proof unless_attached
attach_completion is_tasker user id image now db = do
  throw_if (not is_tasker) not_a_tasker
  verified ← or_throw image image_refused
  work ← or_throw (db.works id) booking_not_found
  throw_if (not (work.tasker_id == user)) booking_not_found
  throw_if (not work.work_verification_required) not_required
  throw_if (not (is_in_progress work.status)) not_in_progress
  unless_attached work.completion verified db (complete_proof user id verified now work db)

-- `session?.stoppedAt`
abbrev pub has_stopped : Option Session → Bool
has_stopped none = false
has_stopped (some session) = is_some session.stopped_at

-- `session?.stoppedAt` of a session whose status is Stopped
abbrev pub is_frozen : Option Session → Bool
is_frozen none = false
is_frozen (some session) = is_some session.stopped_at && is_stopped session.status

module _ (digest : Purpose → ℕ → Text → Text) where
  unfoldable pub issue_completion_code : ℕ → ℕ → Text → ℕ → WorkDb → Result WorkError WorkDb
  issue_completion_code customer id code expires_at db = do
    work ← or_throw (db.works id) booking_not_found
    throw_if (not (work.customer_id == customer)) booking_not_found
    throw_if (not work.work_verification_required) not_required
    throw_if (not (is_in_progress work.status)) not_in_progress
    throw_if (not (is_some work.completion_proof_at)) no_completion_proof
    throw_if (not (has_stopped work.session)) timer_not_stopped
    ok (
        tell work.tasker_id "work_completion_code_ready" id (
          store id
            (record work {
              completion_otp_hash = some (digest completion id code);
              completion_otp_expires_at = some expires_at;
              completion_otp_attempts = 0;
            })
            db))

  module _ (max_attempts : ℕ) where
    -- Where the code is right.
    unfoldable pub finish_right : ℕ → ℕ → ℕ → Work → WorkDb → WorkDb
    finish_right tasker id now work db = enqueue id "booking:updated" "completion_otp_verified" (
        record_work_audit tasker work.customer_id "booking_completion_otp_verified" id (
          tell work.tasker_id "task_completion_verified" id (
            tell work.customer_id "task_completed" id (
              count_task work.tasker_id (
                store id
                  (record work {
                    status = completed;
                    completion_submitted_at = work.completion_proof_at;
                    completion_approved_at = some now;
                    completion_approved_by_role = some "customer_otp";
                    completion_verified_at = some now;
                    completion_verified_by_role = some "customer_otp";
                    task_completed_at = some now;
                    completion_otp_hash = none;
                    completion_otp_expires_at = none;
                    completion_otp_attempts = 0;
                  })
                  db)))))

    -- Where the code is wrong.
    abbrev pub miss_completion : ℕ → Work → WorkDb → WorkDb × OtpResult
    miss_completion id work db =
        let attempts = work.completion_otp_attempts + 1 in
        (
          store id (record work { completion_otp_attempts = attempts }) db,
          invalid_code attempts (leb max_attempts attempts),
        )

    -- Where the work is not completed yet.
    unfoldable pub finish_open :
        ℕ → ℕ → Text → ℕ → Work → WorkDb → Result WorkError (WorkDb × OtpResult)
    unfolding finish_right
    finish_open tasker id code now work db = do
      throw_if (not (is_in_progress work.status)) not_in_progress
      throw_if (not (is_some work.completion_proof_at)) no_completion_proof
      throw_if (not (is_frozen work.session)) timer_not_stopped
      hash ← or_throw work.completion_otp_hash no_completion_code
      expires_at ← or_throw work.completion_otp_expires_at no_completion_code
      throw_if (leb expires_at now) code_expired
      throw_if (leb max_attempts work.completion_otp_attempts) attempts_exhausted
      ok (
          if matches_otp digest completion id code hash
          then (finish_right tasker id now work db, valid_code)
          else miss_completion id work db)

    unfoldable pub finish_transaction :
        ℕ → ℕ → Text → ℕ → WorkDb → Result WorkError (WorkDb × OtpResult)
    unfolding finish_open
    finish_transaction tasker id code now db = do
      work ← or_throw (db.works id) booking_not_found
      throw_if (not (work.tasker_id == tasker)) booking_not_found
      throw_if (not work.work_verification_required) not_required
      if is_completed work.status && is_some work.completion_verified_at
          then ok (db, valid_code)
          else finish_open tasker id code now work db

    unfoldable pub finish_work : ℕ → ℕ → Text → ℕ → WorkDb → WorkDb × Result WorkError (Unit {0})
    unfolding finish_transaction
    finish_work tasker id code now db = answer_code db (finish_transaction tasker id code now db)
