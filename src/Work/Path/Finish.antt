-- ===== src/Work/Path/Finish.antt =====
-- A code that the Customer was given finishes the work: issueCompletionCode with finishWork of
-- src/modules/bookings/booking-work-verification.service.ts.
use mathlib.Core.Path.{subst}
use latache_backend.Clock.{Text}
use latache_backend.Work.{
  Work, WorkDb, WorkStatus, is_in_progress, is_completed, completed, valid_code, answer_code,
}
use latache_backend.Work.Codes.{Purpose, completion, is_six_digits, is_hex_digest, matches_otp_own}
use latache_backend.Prelude.{
  ℕ, ◌≡◌, true, ◌<◌, ◌+◌, some, ==_refl, ◌>>=◌, is_some, refl, false, ok, arith, >>=-eq-ok, leb,
  some-value, sym, or_throw-eq-ok, ◌∙◌, throw_if-eq_ok, ap, ok-value, not-false,
}
use latache_backend.Work.Finishing.{
  finish_transaction, finish_right, issue_completion_code, finish_work, finish_open, is_frozen,
}
use latache_backend.Work.Order.{IsInOrder}
use latache_backend.Prelude.Rows.{put_self}

module _ (digest : Purpose → ℕ → Text → Text) (max_attempts id : ℕ) (code : Text)
    (now expires_at : ℕ) (six : is_six_digits code ≡ true) (tries : 0 < max_attempts)
    (in_time : now < expires_at) where
  finish_right-works :
      (w : Work) (db : WorkDb)
      → (w' : Work) × ((finish_right digest max_attempts w.tasker_id id now w db).works id
          ≡ some w')
        × (w'.status ≡ completed)
  unfolding finish_right
  finish_right-works w db = (_, put_self id _ db.works, refl)

  finish_right-counts :
      (w : Work) (db : WorkDb)
      → (finish_right digest max_attempts w.tasker_id id now w db).completed_tasks w.tasker_id
        ≡ db.completed_tasks w.tasker_id + 1
  unfolding finish_right
  finish_right-counts w db = rw (finish_right, ==_refl w.tasker_id) refl

  in_progress-not_completed : (s : WorkStatus) → is_in_progress s ≡ true → is_completed s ≡ false
  in_progress-not_completed s h = ground arith

  finish_transaction-right :
      (w : Work) (db : WorkDb)
      → db.works id ≡ some w
      → w.work_verification_required ≡ true
      → is_in_progress w.status ≡ true
      → is_some w.completion_proof_at ≡ true
      → is_frozen w.session ≡ true
      → w.completion_otp_hash ≡ some (digest completion id code)
      → w.completion_otp_expires_at ≡ some expires_at
      → w.completion_otp_attempts ≡ 0
      → is_hex_digest (digest completion id code) ≡ true
      → finish_transaction digest max_attempts w.tasker_id id code now db
        ≡ ok (finish_right digest max_attempts w.tasker_id id now w db, valid_code)
  unfolding finish_transaction finish_open ◌>>=◌
  finish_transaction-right w db found required status proof frozen hash expiry fresh hex =
      let live : leb expires_at now ≡ false = ground arith in
      let few : leb max_attempts 0 ≡ false = ground arith in
      let right = matches_otp_own digest completion id code six hex in
      let open_work = in_progress-not_completed w.status status in
      rw
        (
          finish_transaction,
          found,
          ==_refl w.tasker_id,
          required,
          open_work,
          finish_open,
          status,
          proof,
          frozen,
          hash,
          expiry,
          live,
          fresh,
          few,
          right,
        )
        refl

  -- Where the order of the steps was kept, a six-digit code that the Customer was given finishes the
  -- work until it expires, and counts one more task for the Tasker.
  pub issued_code_finishes :
      (customer : ℕ) (w : Work) (db after : WorkDb)
      → db.works id ≡ some w
      → IsInOrder max_attempts w
      → is_hex_digest (digest completion id code) ≡ true
      → issue_completion_code digest customer id code expires_at db ≡ ok after
      → ((finish_work digest max_attempts w.tasker_id id code now after).1 ≡ ok tt)
        × ((finish_work digest max_attempts w.tasker_id id code now after).0.completed_tasks
              w.tasker_id
            ≡ db.completed_tasks w.tasker_id + 1)
        × ((w' : Work) × ((finish_work digest max_attempts w.tasker_id id code now after).0.works id
              ≡ some w')
            × (w'.status ≡ completed))
  unfolding issue_completion_code finish_work
  issued_code_finishes customer w db after found order hex h =
      let (work, finding, h₁) = >>=-eq-ok _ _ h in
      let (_, _, h₂) = >>=-eq-ok _ _ h₁ in
      let (_, required, h₃) = >>=-eq-ok _ _ h₂ in
      let (_, status, h₄) = >>=-eq-ok _ _ h₃ in
      let (_, proof, h₅) = >>=-eq-ok _ _ h₄ in
      let (_, _, h₆) = >>=-eq-ok _ _ h₅ in
      let same : work ≡ w = some-value (sym (or_throw-eq-ok _ _ finding) ∙ found) in
      let proved = not-false _ (throw_if-eq_ok _ _ proof) in
      let frozen =
        ap (λ (x : Work). is_frozen x.session) same
        ∙ (order.proved (ap (λ (x : Work). is_some x.completion_proof_at) (sym same) ∙ proved)).1 in
      let given = record work {
        completion_otp_hash = some (digest completion id code);
        completion_otp_expires_at = some expires_at;
        completion_otp_attempts = 0;
      } in
      let stored : after.works id ≡ some given =
        ap (λ (d : WorkDb). d.works id) (sym (ok-value h₆)) ∙ put_self id given db.works in
      let (w', works, finished) = finish_right-works given after in
      let right =
        finish_transaction-right given after stored (not-false _ (throw_if-eq_ok _ _ required))
          (not-false _ (throw_if-eq_ok _ _ status)) proved frozen refl refl refl hex in
      subst
        (λ t.
          ((finish_work digest max_attempts t id code now after).1 ≡ ok tt)
          × ((finish_work digest max_attempts t id code now after).0.completed_tasks t
              ≡ db.completed_tasks t + 1)
          × ((v : Work) × ((finish_work digest max_attempts t id code now after).0.works id
                ≡ some v)
              × (v.status ≡ completed)))
        (ap (λ (x : Work). x.tasker_id) same)
        (
          ap (λ m. (answer_code after m).1) right,
          ap (λ m. (answer_code after m).0.completed_tasks work.tasker_id) right
              ∙ finish_right-counts given after
              ∙ ap (λ (d : WorkDb). d.completed_tasks work.tasker_id + 1) (sym (ok-value h₆)),
          (w', ap (λ m. (answer_code after m).0.works id) right ∙ works, finished),
        )
