-- ===== src/Times/Single/Runs.antt =====
-- Requests for a time one after another, as src/modules/bookings/custom-time-requests.service.ts handles
-- them, in any order.
use latache_backend.Times.{TimeDb, TimeError}
use latache_backend.Times.Single.{
  IsSingle, create_time-IsSingle, respond-IsSingle, cancel_time-IsSingle, mark_fulfilled-IsSingle,
  expire_due_requests-IsSingle,
}
use latache_backend.Times.Requests.{
  create_time, respond, cancel_time, mark_fulfilled, expire_due_requests, Offer, TimeInput, Now,
}
use latache_backend.Prelude.{List, ℕ, Result, ◌∷◌, ◌≡◌, ok, err, Bool, refl, []}

-- A request with its arguments, the identifier of a new row and the time.
pub data Request : Type 0 where
  asks : ℕ → ℕ → ℕ → Offer → TimeInput → ℕ → Now → Request
  answers : ℕ → ℕ → Bool → ℕ → Now → Request
  withdraws : ℕ → ℕ → Request
  books : ℕ → ℕ → ℕ → Request
  sweeps : List ℕ → ℕ → Request

-- A transaction that throws is rolled back.
abbrev pub committed : TimeDb → Result TimeError TimeDb → TimeDb
committed db (ok after) = after
committed db (err e) = db

unfoldable pub serve : Request → TimeDb → TimeDb
serve (asks id customer tasker offer input ttl now) db =
    committed db (create_time id customer tasker offer input ttl now db)
serve (answers tasker id accept ttl now) db = committed db (respond tasker id accept ttl now db)
serve (withdraws customer id) db = committed db (cancel_time customer id db)
serve (books id booking now) db = committed db (mark_fulfilled id booking now db)
serve (sweeps ids now) db = expire_due_requests ids now db

unfoldable pub run : List Request → TimeDb → TimeDb
unfolding serve
run [] db = db
run (r ∷ rs) db = run rs (serve r db)

committed-IsSingle :
    (db : TimeDb) (m : Result TimeError TimeDb)
    → IsSingle db
    → ((after : TimeDb) → m ≡ ok after → IsSingle after)
    → IsSingle (committed db m)
committed-IsSingle db (ok after) s k = k after refl
committed-IsSingle db (err e) s k = s

serve-IsSingle : (r : Request) (db : TimeDb) → IsSingle db → IsSingle (serve r db)
unfolding serve
serve-IsSingle (asks id customer tasker offer input ttl now) db s =
    committed-IsSingle db (create_time id customer tasker offer input ttl now db) s
      (λ after h. create_time-IsSingle id customer tasker offer input ttl now db after h s)
serve-IsSingle (answers tasker id accept ttl now) db s =
    committed-IsSingle db (respond tasker id accept ttl now db) s
      (λ after h. respond-IsSingle tasker id accept ttl now db after h s)
serve-IsSingle (withdraws customer id) db s =
    committed-IsSingle db (cancel_time customer id db) s
      (λ after h. cancel_time-IsSingle customer id db after h s)
serve-IsSingle (books id booking now) db s =
    committed-IsSingle db (mark_fulfilled id booking now db) s
      (λ after h. mark_fulfilled-IsSingle id booking now db after h s)
serve-IsSingle (sweeps ids now) db s = expire_due_requests-IsSingle ids now db s

-- Whatever requests come in whatever order, a customer never has two pending requests to a Tasker.
pub run-IsSingle : (rs : List Request) (db : TimeDb) → IsSingle db → IsSingle (run rs db)
unfolding run
run-IsSingle [] db s = s
run-IsSingle (r ∷ rs) db s = run-IsSingle rs (serve r db) (serve-IsSingle r db s)
