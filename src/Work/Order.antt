-- ===== src/Work/Order.antt =====
-- The order of proofs, codes and times that
-- src/modules/bookings/booking-work-verification.service.ts enforces.
pub mod Proofs
pub mod Codes
pub mod Runs
use latache_backend.Work.{Work, WorkDb, Session, Proof, is_in_progress, completed, in_progress}
use latache_backend.Prelude.{
  ℕ, Option, ◌≡◌, is_some, true, ap, some, false, ◌≤◌, sym, none, ◌∙◌, refl, Bool-cases, arith,
  ◌==◌, inl, some-value, inr,
}
use latache_backend.Prelude.Rows.{put}
use latache_backend.Clock.{Text}
use latache_backend.Work.Finishing.{stop_session, is_frozen}

-- No step of the work is recorded before the steps that it rests on, and no code is tried more often
-- than `max_attempts` times.
pub record IsInOrder (max_attempts : ℕ) (w : Work) : Type 0 where
  pub door : is_some w.front_door_verified_at ≡ true → is_some w.front_door ≡ true
  pub started :
      is_some w.start_work_verified_at ≡ true
      → (is_some w.front_door_verified_at ≡ true) × (is_some w.session ≡ true)
  pub working :
      w.work_verification_required ≡ true
      → is_in_progress w.status ≡ true
      → is_some w.start_work_verified_at ≡ true
  pub proved :
      is_some w.completion_proof_at ≡ true
      → (is_some w.start_work_verified_at ≡ true)
        × (is_frozen w.session ≡ true)
        × (is_some w.completion ≡ true)
  pub verified : is_some w.completion_verified_at ≡ true → is_some w.completion_proof_at ≡ true
  pub start_tries : w.start_work_otp_attempts ≤ max_attempts
  pub completion_tries : w.completion_otp_attempts ≤ max_attempts

abbrev pub IsOrdered : ℕ → WorkDb → Type 0
IsOrdered max_attempts db = (id : ℕ) (w : Work) → db.works id ≡ some w → IsInOrder max_attempts w

module _ (max_attempts : ℕ) (db after : WorkDb) where
  pub same_works-IsOrdered :
      after.works ≡ db.works → IsOrdered max_attempts db → IsOrdered max_attempts after
  same_works-IsOrdered same o id w h = o id w (ap (λ f. f id) (sym same) ∙ h)

  -- A booking that is stored.
  pub stored-IsOrdered :
      (id : ℕ) (w : Work)
      → after.works ≡ put id w db.works
      → IsInOrder max_attempts w
      → IsOrdered max_attempts db
      → IsOrdered max_attempts after
  stored-IsOrdered id w stored new o j v h =
      let there : put id w db.works j ≡ some v = ap (λ f. f j) (sym stored) ∙ h in
      elim (Bool-cases (j == id)) [
        | inl own ↦ rw (← some-value (rw own at there)) new
        | inr other ↦ o j v (rw other at there)
      ]

module _ (max_attempts : ℕ) (w : Work) (o : IsInOrder max_attempts w) where
  pub at_door-IsInOrder :
      (now : ℕ) (proof : Proof)
      → IsInOrder max_attempts
          (record w { front_door = some proof; front_door_verified_at = some now })
  at_door-IsInOrder now proof = record {
    door = λ _. refl;
    started = λ s. (refl, (o.started s).1);
    working = o.working;
    proved = o.proved;
    verified = o.verified;
    start_tries = o.start_tries;
    completion_tries = o.completion_tries;
  }

  pub start_code-IsInOrder :
      (hash : Option Text) (expires_at : Option ℕ) (attempts : ℕ)
      → attempts ≤ max_attempts
      → IsInOrder max_attempts (record w {
        start_work_otp_hash = hash;
        start_work_otp_expires_at = expires_at;
        start_work_otp_attempts = attempts;
      })
  start_code-IsInOrder hash expires_at attempts few = record {
    door = o.door;
    started = o.started;
    working = o.working;
    proved = o.proved;
    verified = o.verified;
    start_tries = few;
    completion_tries = o.completion_tries;
  }

  pub completion_code-IsInOrder :
      (hash : Option Text) (expires_at : Option ℕ) (attempts : ℕ)
      → attempts ≤ max_attempts
      → IsInOrder max_attempts (record w {
        completion_otp_hash = hash;
        completion_otp_expires_at = expires_at;
        completion_otp_attempts = attempts;
      })
  completion_code-IsInOrder hash expires_at attempts few = record {
    door = o.door;
    started = o.started;
    working = o.working;
    proved = o.proved;
    verified = o.verified;
    start_tries = o.start_tries;
    completion_tries = few;
  }

  pub begun-IsInOrder :
      (now : ℕ) (session : Session)
      → is_some w.front_door_verified_at ≡ true
      → is_some w.session ≡ false
      → IsInOrder max_attempts (record w {
        session = some session;
        status = in_progress;
        task_started_at = some now;
        start_work_verified_at = some now;
        start_work_otp_hash = none;
        start_work_otp_expires_at = none;
        start_work_otp_attempts = 0;
      })
  begun-IsInOrder now session at_door untimed = record {
    door = o.door;
    started = λ _. (at_door, refl);
    working = λ _ _. refl;
    proved = λ p. let timed = (o.started (o.proved p).0).1 in cc (timed, untimed);
    verified = o.verified;
    start_tries = omega arith;
    completion_tries = o.completion_tries;
  }

  pub proved-IsInOrder :
      (now : ℕ) (session : Session) (proof : Proof)
      → w.work_verification_required ≡ true
      → is_in_progress w.status ≡ true
      → IsInOrder max_attempts (record w {
        session = some (stop_session now session);
        completion = some proof;
        completion_proof_at = some now;
      })
  proved-IsInOrder now session proof required active = record {
    door = o.door;
    started = λ s. ((o.started s).0, refl);
    working = o.working;
    proved = λ _. (o.working required active, refl, refl);
    verified = λ _. refl;
    start_tries = o.start_tries;
    completion_tries = o.completion_tries;
  }

  pub finished-IsInOrder :
      (now : ℕ)
      → is_some w.completion_proof_at ≡ true
      → IsInOrder max_attempts (record w {
        status = completed;
        completion_submitted_at = w.completion_proof_at;
        completion_approved_at = some now;
        completion_approved_by_role = some "customer_otp";
        completion_verified_at = some now;
        completion_verified_by_role = some "customer_otp";
        task_completed_at = some now;
        completion_otp_hash = none;
        completion_otp_expires_at = none;
        completion_otp_attempts = 0;
      })
  finished-IsInOrder now proof = record {
    door = o.door;
    started = o.started;
    working = λ _ c. cc;
    proved = o.proved;
    verified = λ _. proof;
    start_tries = o.start_tries;
    completion_tries = omega arith;
  }
