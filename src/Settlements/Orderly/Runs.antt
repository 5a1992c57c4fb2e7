-- ===== src/Settlements/Orderly/Runs.antt =====
-- Requests on the settlements one after another, as the service handles them in
-- src/modules/tasker-finance/platform-payable-settlements.service.ts, in any order.
use latache_backend.Settlements.{SettlementDb, SettlementError}
use latache_backend.Prelude.{List, Result, ℕ, ◌∷◌, ok, String, ◌≡◌, err, refl, Option, []}
use latache_backend.Settlements.Orderly.{IsOrderly}
use latache_backend.Settlements.Requests.{
  create, cancel, SettlementInput, StripeReply, IntentStatus,
}
use latache_backend.Settlements.Orderly.Requests.{create-IsOrderly, cancel-IsOrderly}
use latache_backend.Settlements.Reviews.{admin_record, approve, reject, AdminInput}
use latache_backend.Settlements.Orderly.Reviews.{
  admin_record-IsOrderly, approve-IsOrderly, reject-IsOrderly, handle_intent-IsOrderly,
}
use latache_backend.Settlements.Webhook.{handle_intent, Intent, EventType}
use latache_backend.Prelude.Int.{ℤ}

-- A request with its arguments, the identifier that a new row gets, the time, and what Stripe answers.
pub data Request : Type 0 where
  creates : ℕ → ℕ → ℕ → SettlementInput → String → StripeReply → Request
  cancels : ℕ → ℕ → IntentStatus → Request
  records : ℕ → ℕ → ℕ → AdminInput → String → Request
  approves : ℕ → ℕ → ℕ → Option ℤ → Option String → Request
  rejects : ℕ → ℕ → ℕ → String → Request
  delivers : ℕ → Intent → EventType → Request

-- A transaction that throws is rolled back.
abbrev pub committed : SettlementDb → Result SettlementError SettlementDb → SettlementDb
committed db (ok after) = after
committed db (err e) = db

unfoldable pub serve : Request → SettlementDb → SettlementDb
serve (creates id now tasker input key reply) db = (create id now tasker input key reply db).0
serve (cancels tasker id intent) db = committed db (cancel tasker id intent db)
serve (records id now admin input key) db = (admin_record id now admin input key db).0
serve (approves now admin id amount note) db = committed db (approve now admin id amount note db)
serve (rejects now admin id note) db = committed db (reject now admin id note db)
serve (delivers now i event) db = committed db (handle_intent now i event db)

unfoldable pub run : List Request → SettlementDb → SettlementDb
run [] db = db
run (r ∷ rs) db = run rs (serve r db)

committed-IsOrderly :
    (db : SettlementDb) (m : Result SettlementError SettlementDb)
    → IsOrderly db
    → ((after : SettlementDb) → m ≡ ok after → IsOrderly after)
    → IsOrderly (committed db m)
committed-IsOrderly db (ok after) o k = k after refl
committed-IsOrderly db (err e) o k = o

serve-IsOrderly : (r : Request) (db : SettlementDb) → IsOrderly db → IsOrderly (serve r db)
unfolding serve
serve-IsOrderly (creates id now tasker input key reply) db o =
    create-IsOrderly id now tasker input key reply db o
serve-IsOrderly (cancels tasker id intent) db o =
    committed-IsOrderly db (cancel tasker id intent db) o
      (λ after h. cancel-IsOrderly tasker id intent db after h o)
serve-IsOrderly (records id now admin input key) db o =
    admin_record-IsOrderly id now admin input key db o
serve-IsOrderly (approves now admin id amount note) db o =
    committed-IsOrderly db (approve now admin id amount note db) o
      (λ after h. approve-IsOrderly now admin id amount note db after h o)
serve-IsOrderly (rejects now admin id note) db o =
    committed-IsOrderly db (reject now admin id note db) o
      (λ after h. reject-IsOrderly now admin id note db after h o)
serve-IsOrderly (delivers now i event) db o =
    committed-IsOrderly db (handle_intent now i event db) o
      (λ after h. handle_intent-IsOrderly now i event db after h o)

-- Whatever requests arrive in whatever order, every completed payment stays split to the cent into
-- what paid the debt and what was credited back, and no Tasker has two open payments.
pub run-IsOrderly : (rs : List Request) (db : SettlementDb) → IsOrderly db → IsOrderly (run rs db)
unfolding run
run-IsOrderly [] db o = o
run-IsOrderly (r ∷ rs) db o = run-IsOrderly rs (serve r db) (serve-IsOrderly r db o)
