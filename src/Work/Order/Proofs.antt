-- ===== src/Work/Order/Proofs.antt =====
-- What the proofs of src/modules/bookings/booking-work-verification.service.ts keep:
-- attachFrontDoor and attachCompletion.
use latache_backend.Work.{
  Work, WorkDb, Image, is_in_progress, unless_attached-eq_ok, claim_image-works,
}
use latache_backend.Work.Order.{
  IsInOrder, IsOrdered, stored-IsOrdered, same_works-IsOrdered, proved-IsInOrder, at_door-IsInOrder,
}
use latache_backend.Prelude.{
  ℕ, Bool, ◌≡◌, Option, ok, true, >>=-eq-ok, ap, inl, sym, inr, ok-value, or_throw-eq-ok, ◌∙◌,
  throw_if-eq_ok, not-false,
}
use latache_backend.Work.Starting.{arrival_proof, attach_front_door}
use latache_backend.Work.Finishing.{complete_proof, attach_completion}
use latache_backend.Prelude.Rows.{put}

module _ (max_attempts : ℕ) where
  arrival_proof-IsOrdered :
      (user id : ℕ) (image : Image) (now : ℕ) (work : Work) (db after : WorkDb)
      → arrival_proof user id image now work db ≡ ok after
      → IsInOrder max_attempts work
      → IsOrdered max_attempts db
      → IsOrdered max_attempts after
  unfolding arrival_proof
  arrival_proof-IsOrdered user id image now work db after h w o =
      let (claimed, claim, h₁) = >>=-eq-ok _ _ h in
      stored-IsOrdered max_attempts db after id _
        (ap (λ (d : WorkDb). d.works) (sym (ok-value h₁))
          ∙ ap (put id _) (claim_image-works image db claimed claim))
        (at_door-IsInOrder max_attempts work w now _) o

  complete_proof-IsOrdered :
      (user id : ℕ) (image : Image) (now : ℕ) (work : Work) (db after : WorkDb)
      → complete_proof user id image now work db ≡ ok after
      → work.work_verification_required ≡ true
      → is_in_progress work.status ≡ true
      → IsInOrder max_attempts work
      → IsOrdered max_attempts db
      → IsOrdered max_attempts after
  unfolding complete_proof
  complete_proof-IsOrdered user id image now work db after h required active w o =
      let (session, _, h₁) = >>=-eq-ok _ _ h in
      let (_, _, h₂) = >>=-eq-ok _ _ h₁ in
      let (claimed, claim, h₃) = >>=-eq-ok _ _ h₂ in
      stored-IsOrdered max_attempts db after id _
        (ap (λ (d : WorkDb). d.works) (sym (ok-value h₃))
          ∙ ap (put id _) (claim_image-works image db claimed claim))
        (proved-IsInOrder max_attempts work w now session _ required active) o

  pub attach_front_door-IsOrdered :
      (is_tasker : Bool) (user id : ℕ) (image : Option Image) (now : ℕ) (db after : WorkDb)
      → attach_front_door is_tasker user id image now db ≡ ok after
      → IsOrdered max_attempts db
      → IsOrdered max_attempts after
  unfolding attach_front_door
  attach_front_door-IsOrdered is_tasker user id image now db after h o =
      let (_, _, h₁) = >>=-eq-ok _ _ h in
      let (verified, _, h₂) = >>=-eq-ok _ _ h₁ in
      let (work, finding, h₃) = >>=-eq-ok _ _ h₂ in
      let (_, _, h₄) = >>=-eq-ok _ _ h₃ in
      let (_, _, h₅) = >>=-eq-ok _ _ h₄ in
      let (_, _, h₆) = >>=-eq-ok _ _ h₅ in
      elim (unless_attached-eq_ok work.front_door verified db after
        (arrival_proof user id verified now work db) h₆) [
          | inl same ↦ same_works-IsOrdered max_attempts db after same o
          | inr (unproved, proof) ↦
              arrival_proof-IsOrdered user id verified now work db after proof
                (o id work (or_throw-eq-ok _ _ finding)) o
        ]

  pub attach_completion-IsOrdered :
      (is_tasker : Bool) (user id : ℕ) (image : Option Image) (now : ℕ) (db after : WorkDb)
      → attach_completion is_tasker user id image now db ≡ ok after
      → IsOrdered max_attempts db
      → IsOrdered max_attempts after
  unfolding attach_completion
  attach_completion-IsOrdered is_tasker user id image now db after h o =
      let (_, _, h₁) = >>=-eq-ok _ _ h in
      let (verified, _, h₂) = >>=-eq-ok _ _ h₁ in
      let (work, finding, h₃) = >>=-eq-ok _ _ h₂ in
      let (_, _, h₄) = >>=-eq-ok _ _ h₃ in
      let (_, required, h₅) = >>=-eq-ok _ _ h₄ in
      let (_, active, h₆) = >>=-eq-ok _ _ h₅ in
      elim (unless_attached-eq_ok work.completion verified db after
        (complete_proof user id verified now work db) h₆) [
          | inl same ↦ same_works-IsOrdered max_attempts db after same o
          | inr (unproved, proof) ↦
              complete_proof-IsOrdered user id verified now work db after proof
                (not-false _ (throw_if-eq_ok _ _ required))
                (not-false _ (throw_if-eq_ok _ _ active)) (o id work (or_throw-eq-ok _ _ finding)) o
        ]
