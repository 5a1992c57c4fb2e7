-- ===== src/Work/Path.antt =====
-- A code that the Customer was given is accepted from the Tasker: issueStartCode with startWork of src/modules/bookings/booking-work-verification.service.ts.
pub mod Finish
use mathlib.Core.Path.{subst}
use latache_backend.Clock.{Text}
use latache_backend.Work.{Work, WorkDb, is_arrived, in_progress, valid_code, answer_code}
use latache_backend.Work.Codes.{Purpose, start, is_six_digits, is_hex_digest, matches_otp_own}
use latache_backend.Prelude.{
  ℕ, ◌≡◌, true, ◌<◌, ◌>>=◌, some, none, ok, is_some, >>=-eq-ok, leb, some-value, false, refl, sym,
  arith, or_throw-eq-ok, ==_refl, ◌∙◌, ap, ok-value, throw_if-eq_ok, not-false,
}
use latache_backend.Work.Starting.{
  issue_start_code, start_transaction, begin_work, start_work, begin_right,
}
use latache_backend.Prelude.Rows.{put_self}

module _ (digest : Purpose → ℕ → Text → Text) (max_attempts id : ℕ) (code : Text)
    (now expires_at : ℕ) (six : is_six_digits code ≡ true) (tries : 0 < max_attempts)
    (in_time : now < expires_at) where
  begin_work-ok :
      (w : Work) (db : WorkDb)
      → w.session ≡ none
      → begin_work digest max_attempts w.tasker_id id now w db
        ≡ ok (begin_right digest max_attempts w.tasker_id id now w db, valid_code)
  unfolding begin_work ◌>>=◌
  begin_work-ok w db untimed = rw (begin_work, untimed) refl

  begin_right-works :
      (w : Work) (db : WorkDb)
      → (w' : Work) × ((begin_right digest max_attempts w.tasker_id id now w db).works id ≡ some w')
        × (w'.status ≡ in_progress)
  unfolding begin_right
  begin_right-works w db = (_, put_self id _ db.works, refl)

  start_transaction-right :
      (w : Work) (db : WorkDb)
      → db.works id ≡ some w
      → w.work_verification_required ≡ true
      → is_arrived w.status ≡ true
      → is_some w.front_door_verified_at ≡ true
      → w.start_work_otp_hash ≡ some (digest start id code)
      → w.start_work_otp_expires_at ≡ some expires_at
      → w.start_work_otp_attempts ≡ 0
      → is_hex_digest (digest start id code) ≡ true
      → start_transaction digest max_attempts w.tasker_id id code now db
        ≡ begin_work digest max_attempts w.tasker_id id now w db
  unfolding start_transaction ◌>>=◌
  start_transaction-right w db found required status door hash expiry fresh hex =
      let live : leb expires_at now ≡ false = ground arith in
      let few : leb max_attempts 0 ≡ false = ground arith in
      let right = matches_otp_own digest start id code six hex in
      rw
        (
          start_transaction,
          found,
          ==_refl w.tasker_id,
          required,
          status,
          door,
          hash,
          expiry,
          live,
          fresh,
          few,
          right,
        )
        refl

  -- Where there is no timer yet, a six-digit code that the Customer was given starts the work until it
  -- expires.
  pub issued_code_starts :
      (customer : ℕ) (w : Work) (db after : WorkDb)
      → db.works id ≡ some w
      → w.session ≡ none
      → is_hex_digest (digest start id code) ≡ true
      → issue_start_code digest customer id code expires_at db ≡ ok after
      → ((start_work digest max_attempts w.tasker_id id code now after).1 ≡ ok tt)
        × ((w' : Work) × ((start_work digest max_attempts w.tasker_id id code now after).0.works id
              ≡ some w')
            × (w'.status ≡ in_progress))
  unfolding issue_start_code start_work
  issued_code_starts customer w db after found untimed hex h =
      let (work, finding, h₁) = >>=-eq-ok _ _ h in
      let (_, _, h₂) = >>=-eq-ok _ _ h₁ in
      let (_, required, h₃) = >>=-eq-ok _ _ h₂ in
      let (_, status, h₄) = >>=-eq-ok _ _ h₃ in
      let (_, door, h₅) = >>=-eq-ok _ _ h₄ in
      let same : work ≡ w = some-value (sym (or_throw-eq-ok _ _ finding) ∙ found) in
      let given = record work {
        start_work_otp_hash = some (digest start id code);
        start_work_otp_expires_at = some expires_at;
        start_work_otp_attempts = 0;
      } in
      let stored : after.works id ≡ some given =
        ap (λ (d : WorkDb). d.works id) (sym (ok-value h₅)) ∙ put_self id given db.works in
      let (w', works, begun) = begin_right-works given after in
      let right =
        start_transaction-right given after stored (not-false _ (throw_if-eq_ok _ _ required))
          (not-false _ (throw_if-eq_ok _ _ status)) (not-false _ (throw_if-eq_ok _ _ door)) refl
          refl refl hex
        ∙ begin_work-ok given after (ap (λ (x : Work). x.session) same ∙ untimed) in
      subst
        (λ t.
          ((start_work digest max_attempts t id code now after).1 ≡ ok tt)
          × ((v : Work) × ((start_work digest max_attempts t id code now after).0.works id ≡ some v)
              × (v.status ≡ in_progress)))
        (ap (λ (x : Work). x.tasker_id) same)
        (
          ap (λ m. (answer_code after m).1) right,
          (w', ap (λ m. (answer_code after m).0.works id) right ∙ works, begun),
        )
