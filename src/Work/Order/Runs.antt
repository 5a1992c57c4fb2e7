-- ===== src/Work/Order/Runs.antt =====
-- Requests on the work of bookings one after another, as
-- src/modules/bookings/booking-work-verification.service.ts handles them, in any order.
use latache_backend.Work.{
  WorkDb, WorkError, OtpResult, Image, answer_code, invalid_code, valid_code,
}
use latache_backend.Work.Order.{IsOrdered}
use latache_backend.Work.Codes.{Purpose}
use latache_backend.Prelude.{Result, ℕ, Bool, Option, List, ok, ◌≡◌, ◌∷◌, err, [], refl}
use latache_backend.Clock.{Text}
use latache_backend.Work.Starting.{
  attach_front_door, issue_start_code, start_work, start_transaction,
}
use latache_backend.Work.Finishing.{
  attach_completion, issue_completion_code, finish_work, finish_transaction,
}
use latache_backend.Work.Order.Proofs.{attach_front_door-IsOrdered, attach_completion-IsOrdered}
use latache_backend.Work.Order.Codes.{
  issue_start_code-IsOrdered, issue_completion_code-IsOrdered, start_transaction-IsOrdered,
  finish_transaction-IsOrdered,
}

-- Who asks, for which booking, with which image or code, and the time.
pub data Request : Type 0 where
  attaches_front_door attaches_completion : Bool → ℕ → ℕ → Option Image → ℕ → Request
  issues_start_code issues_completion_code : ℕ → ℕ → Text → ℕ → Request
  starts_work finishes_work : ℕ → ℕ → Text → ℕ → Request

-- A transaction that throws is rolled back.
abbrev pub committed : WorkDb → Result WorkError WorkDb → WorkDb
committed db (ok after) = after
committed db (err e) = db

module _ (digest : Purpose → ℕ → Text → Text) (max_attempts : ℕ) where
  unfoldable pub serve : Request → WorkDb → WorkDb
  serve (attaches_front_door is_tasker user id image now) db =
      committed db (attach_front_door is_tasker user id image now db)
  serve (attaches_completion is_tasker user id image now) db =
      committed db (attach_completion is_tasker user id image now db)
  serve (issues_start_code customer id code expires_at) db =
      committed db (issue_start_code digest customer id code expires_at db)
  serve (issues_completion_code customer id code expires_at) db =
      committed db (issue_completion_code digest customer id code expires_at db)
  serve (starts_work tasker id code now) db =
      (start_work digest max_attempts tasker id code now db).0
  serve (finishes_work tasker id code now) db =
      (finish_work digest max_attempts tasker id code now db).0

  unfoldable pub run : List Request → WorkDb → WorkDb
  unfolding serve
  run [] db = db
  run (r ∷ rs) db = run rs (serve r db)

  committed-IsOrdered :
      (db : WorkDb) (m : Result WorkError WorkDb)
      → IsOrdered max_attempts db
      → ((after : WorkDb) → m ≡ ok after → IsOrdered max_attempts after)
      → IsOrdered max_attempts (committed db m)
  committed-IsOrdered db (ok after) o k = k after refl
  committed-IsOrdered db (err e) o k = o

  answer_code-IsOrdered :
      (db : WorkDb) (m : Result WorkError (WorkDb × OtpResult))
      → IsOrdered max_attempts db
      → ((after : WorkDb) (r : OtpResult) → m ≡ ok (after, r) → IsOrdered max_attempts after)
      → IsOrdered max_attempts (answer_code db m).0
  answer_code-IsOrdered db (ok (after, valid_code)) o k = k after valid_code refl
  answer_code-IsOrdered db (ok (after, invalid_code n l)) o k = k after (invalid_code n l) refl
  answer_code-IsOrdered db (err e) o k = o

  serve-IsOrdered :
      (r : Request) (db : WorkDb) → IsOrdered max_attempts db → IsOrdered max_attempts (serve r db)
  unfolding serve start_work finish_work
  serve-IsOrdered (attaches_front_door is_tasker user id image now) db o =
      committed-IsOrdered db (attach_front_door is_tasker user id image now db) o (λ after h.
        attach_front_door-IsOrdered max_attempts is_tasker user id image now db after h o)
  serve-IsOrdered (attaches_completion is_tasker user id image now) db o =
      committed-IsOrdered db (attach_completion is_tasker user id image now db) o (λ after h.
        attach_completion-IsOrdered max_attempts is_tasker user id image now db after h o)
  serve-IsOrdered (issues_start_code customer id code expires_at) db o =
      committed-IsOrdered db (issue_start_code digest customer id code expires_at db) o (λ after h.
        issue_start_code-IsOrdered digest max_attempts customer id code expires_at db after h o)
  serve-IsOrdered (issues_completion_code customer id code expires_at) db o =
      committed-IsOrdered db (issue_completion_code digest customer id code expires_at db) o
        (λ after h.
          issue_completion_code-IsOrdered digest max_attempts customer id code expires_at db after h
            o)
  serve-IsOrdered (starts_work tasker id code now) db o =
      answer_code-IsOrdered db (start_transaction digest max_attempts tasker id code now db) o
        (λ after r h.
          start_transaction-IsOrdered digest max_attempts tasker id code now db after r h o)
  serve-IsOrdered (finishes_work tasker id code now) db o =
      answer_code-IsOrdered db (finish_transaction digest max_attempts tasker id code now db) o
        (λ after r h.
          finish_transaction-IsOrdered digest max_attempts tasker id code now db after r h o)

  -- Whatever requests arrive in whatever order: the work on a booking starts only after the proof of
  -- the arrival, its completion is proved only after its start and with the timer stopped, it is
  -- verified only after that proof, and no code is tried more often than the maximum.
  pub run-IsOrdered :
      (rs : List Request) (db : WorkDb)
      → IsOrdered max_attempts db
      → IsOrdered max_attempts (run rs db)
  unfolding run
  run-IsOrdered [] db o = o
  run-IsOrdered (r ∷ rs) db o = run-IsOrdered rs (serve r db) (serve-IsOrdered r db o)
