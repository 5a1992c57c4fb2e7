-- ===== src/Work/Order/Codes.antt =====
-- What the codes of src/modules/bookings/booking-work-verification.service.ts keep: issueStartCode,
-- startWork, issueCompletionCode and finishWork.
use latache_backend.Work.{Work, WorkDb, OtpResult, valid_code, is_completed}
use latache_backend.Work.Order.{
  IsInOrder, IsOrdered, stored-IsOrdered, start_code-IsInOrder, completion_code-IsInOrder,
  finished-IsInOrder, same_works-IsOrdered, begun-IsInOrder,
}
use latache_backend.Work.Codes.{Purpose, start, completion, matches_otp}
use latache_backend.Prelude.{
  ℕ, Bool, ◌≡◌, ok, if◌then◌else◌, is_some, >>=-eq-ok, throw_if-eq_ok, true, ap, ◌<◌, ◌&&◌,
  Bool-cases, ok-value, sym, inl, ok-injective, arith, or_throw-eq-ok, ◌+◌, inr, some, false,
  not-false,
}
use latache_backend.Clock.{Text}
use latache_backend.Work.Starting.{
  issue_start_code, start_transaction, begin_work, miss_start, begin_right,
}
use latache_backend.Work.Finishing.{
  finish_transaction, finish_open, issue_completion_code, finish_right, miss_completion,
}

module _ (digest : Purpose → ℕ → Text → Text) (max_attempts : ℕ) where
  pub issue_start_code-IsOrdered :
      (customer id : ℕ) (code : Text) (expires_at : ℕ) (db after : WorkDb)
      → issue_start_code digest customer id code expires_at db ≡ ok after
      → IsOrdered max_attempts db
      → IsOrdered max_attempts after
  unfolding issue_start_code
  issue_start_code-IsOrdered customer id code expires_at db after h o =
      let (work, finding, h₁) = >>=-eq-ok _ _ h in
      let (_, _, h₂) = >>=-eq-ok _ _ h₁ in
      let (_, _, h₃) = >>=-eq-ok _ _ h₂ in
      let (_, _, h₄) = >>=-eq-ok _ _ h₃ in
      let (_, _, h₅) = >>=-eq-ok _ _ h₄ in
      stored-IsOrdered max_attempts db after id _ (ap (λ (d : WorkDb). d.works) (sym (ok-value h₅)))
        (start_code-IsInOrder max_attempts work (o id work (or_throw-eq-ok _ _ finding))
          (some (digest start id code)) (some expires_at) 0 (omega arith))
        o

  pub issue_completion_code-IsOrdered :
      (customer id : ℕ) (code : Text) (expires_at : ℕ) (db after : WorkDb)
      → issue_completion_code digest customer id code expires_at db ≡ ok after
      → IsOrdered max_attempts db
      → IsOrdered max_attempts after
  unfolding issue_completion_code
  issue_completion_code-IsOrdered customer id code expires_at db after h o =
      let (work, finding, h₁) = >>=-eq-ok _ _ h in
      let (_, _, h₂) = >>=-eq-ok _ _ h₁ in
      let (_, _, h₃) = >>=-eq-ok _ _ h₂ in
      let (_, _, h₄) = >>=-eq-ok _ _ h₃ in
      let (_, _, h₅) = >>=-eq-ok _ _ h₄ in
      let (_, _, h₆) = >>=-eq-ok _ _ h₅ in
      stored-IsOrdered max_attempts db after id _ (ap (λ (d : WorkDb). d.works) (sym (ok-value h₆)))
        (completion_code-IsInOrder max_attempts work (o id work (or_throw-eq-ok _ _ finding))
          (some (digest completion id code)) (some expires_at) 0 (omega arith))
        o

  begin_work-IsOrdered :
      (tasker id now : ℕ) (work : Work) (db after : WorkDb) (r : OtpResult)
      → begin_work digest max_attempts tasker id now work db ≡ ok (after, r)
      → is_some work.front_door_verified_at ≡ true
      → IsInOrder max_attempts work
      → IsOrdered max_attempts db
      → IsOrdered max_attempts after
  unfolding begin_work begin_right
  begin_work-IsOrdered tasker id now work db after r h at_door w o =
      let (_, untimed, h₁) = >>=-eq-ok _ _ h in
      stored-IsOrdered max_attempts db after id _
        (ap (λ (d : WorkDb). d.works) (sym (ok-injective h₁).0))
        (begun-IsInOrder max_attempts work w now _ at_door (throw_if-eq_ok _ _ untimed)) o

  -- The transaction of a code, right or wrong.
  start_checked-IsOrdered :
      (tasker id now : ℕ) (right : Bool) (work : Work) (db after : WorkDb) (r : OtpResult)
      → (if right
          then begin_work digest max_attempts tasker id now work db
          else ok (miss_start digest max_attempts id work db))
        ≡ ok (after, r)
      → is_some work.front_door_verified_at ≡ true
      → work.start_work_otp_attempts < max_attempts
      → IsInOrder max_attempts work
      → IsOrdered max_attempts db
      → IsOrdered max_attempts after
  start_checked-IsOrdered tasker id now true work db after r h at_door few w o =
      begin_work-IsOrdered tasker id now work db after r h at_door w o
  start_checked-IsOrdered tasker id now false work db after r h at_door few w o =
      stored-IsOrdered max_attempts db after id _
        (ap (λ (d : WorkDb). d.works) (sym (ok-injective h).0))
        (start_code-IsInOrder max_attempts work w work.start_work_otp_hash
          work.start_work_otp_expires_at (work.start_work_otp_attempts + 1) (omega arith))
        o

  pub start_transaction-IsOrdered :
      (tasker id : ℕ) (code : Text) (now : ℕ) (db after : WorkDb) (r : OtpResult)
      → start_transaction digest max_attempts tasker id code now db ≡ ok (after, r)
      → IsOrdered max_attempts db
      → IsOrdered max_attempts after
  unfolding start_transaction
  start_transaction-IsOrdered tasker id code now db after r h o =
      let (work, finding, h₁) = >>=-eq-ok _ _ h in
      let (_, _, h₂) = >>=-eq-ok _ _ h₁ in
      let (_, _, h₃) = >>=-eq-ok _ _ h₂ in
      let (_, _, h₄) = >>=-eq-ok _ _ h₃ in
      let (_, at_door, h₅) = >>=-eq-ok _ _ h₄ in
      let (hash, _, h₆) = >>=-eq-ok _ _ h₅ in
      let (expires_at, _, h₇) = >>=-eq-ok _ _ h₆ in
      let (_, _, h₈) = >>=-eq-ok _ _ h₇ in
      let (_, tries, h₉) = >>=-eq-ok _ _ h₈ in
      let few = throw_if-eq_ok _ _ tries in
      start_checked-IsOrdered tasker id now (matches_otp digest start id code hash) work db after r
        h₉ (not-false _ (throw_if-eq_ok _ _ at_door)) (ground arith)
        (o id work (or_throw-eq-ok _ _ finding)) o

  finish_checked-IsOrdered :
      (tasker id now : ℕ) (right : Bool) (work : Work) (db after : WorkDb) (r : OtpResult)
      → (if right
          then (finish_right digest max_attempts tasker id now work db, valid_code)
          else miss_completion digest max_attempts id work db)
        ≡ (after, r)
      → is_some work.completion_proof_at ≡ true
      → work.completion_otp_attempts < max_attempts
      → IsInOrder max_attempts work
      → IsOrdered max_attempts db
      → IsOrdered max_attempts after
  unfolding finish_right
  finish_checked-IsOrdered tasker id now true work db after r h proof few w o =
      stored-IsOrdered max_attempts db after id _
        (ap (λ (p : WorkDb × OtpResult). p.0.works) (sym h))
        (finished-IsInOrder max_attempts work w now proof) o
  finish_checked-IsOrdered tasker id now false work db after r h proof few w o =
      stored-IsOrdered max_attempts db after id _
        (ap (λ (p : WorkDb × OtpResult). p.0.works) (sym h))
        (completion_code-IsInOrder max_attempts work w work.completion_otp_hash
          work.completion_otp_expires_at (work.completion_otp_attempts + 1) (omega arith))
        o

  finish_open-IsOrdered :
      (tasker id : ℕ) (code : Text) (now : ℕ) (work : Work) (db after : WorkDb) (r : OtpResult)
      → finish_open digest max_attempts tasker id code now work db ≡ ok (after, r)
      → IsInOrder max_attempts work
      → IsOrdered max_attempts db
      → IsOrdered max_attempts after
  unfolding finish_open
  finish_open-IsOrdered tasker id code now work db after r h w o =
      let (_, _, h₁) = >>=-eq-ok _ _ h in
      let (_, proof, h₂) = >>=-eq-ok _ _ h₁ in
      let (_, _, h₃) = >>=-eq-ok _ _ h₂ in
      let (hash, _, h₄) = >>=-eq-ok _ _ h₃ in
      let (expires_at, _, h₅) = >>=-eq-ok _ _ h₄ in
      let (_, _, h₆) = >>=-eq-ok _ _ h₅ in
      let (_, tries, h₇) = >>=-eq-ok _ _ h₆ in
      let few = throw_if-eq_ok _ _ tries in
      finish_checked-IsOrdered tasker id now (matches_otp digest completion id code hash) work db
        after r (ok-value h₇) (not-false _ (throw_if-eq_ok _ _ proof)) (ground arith) w o

  pub finish_transaction-IsOrdered :
      (tasker id : ℕ) (code : Text) (now : ℕ) (db after : WorkDb) (r : OtpResult)
      → finish_transaction digest max_attempts tasker id code now db ≡ ok (after, r)
      → IsOrdered max_attempts db
      → IsOrdered max_attempts after
  unfolding finish_transaction
  finish_transaction-IsOrdered tasker id code now db after r h o =
      let (work, finding, h₁) = >>=-eq-ok _ _ h in
      let (_, _, h₂) = >>=-eq-ok _ _ h₁ in
      let (_, _, h₃) = >>=-eq-ok _ _ h₂ in
      let done = is_completed work.status && is_some work.completion_verified_at in
      elim (Bool-cases (is_completed work.status && is_some work.completion_verified_at)) [
        | inl before ↦
            let same = (ok-injective (rw before at h₃)).0 in
            same_works-IsOrdered max_attempts db after (ap (λ (d : WorkDb). d.works) (sym same)) o
        | inr open_work ↦
            finish_open-IsOrdered tasker id code now work db after r (rw open_work at h₃)
              (o id work (or_throw-eq-ok _ _ finding)) o
      ]
