-- ===== src/Settlements/Life/Runs.antt =====
-- Sequences of requests of src/modules/tasker-finance/platform-payable-settlements.service.ts follow the
-- life of a settlement.
use latache_backend.Settlements.{SettlementDb, SettlementError}
use latache_backend.Settlements.Life.{Follows, same_rows-Follows, Follows-trans}
use latache_backend.Settlements.Orderly.Runs.{
  Request, serve, run, committed, creates, cancels, records, approves, rejects, delivers,
}
use latache_backend.Prelude.{Result, List, ◌∷◌, ◌≡◌, ok, [], err, refl}
use latache_backend.Settlements.Life.Requests.{create-Follows, cancel-Follows}
use latache_backend.Settlements.Requests.{cancel}
use latache_backend.Settlements.Life.Reviews.{
  admin_record-Follows, approve-Follows, reject-Follows, handle_intent-Follows,
}
use latache_backend.Settlements.Reviews.{approve, reject}
use latache_backend.Settlements.Webhook.{handle_intent}

committed-Follows :
    (db : SettlementDb) (m : Result SettlementError SettlementDb)
    → ((after : SettlementDb) → m ≡ ok after → Follows db after)
    → Follows db (committed db m)
committed-Follows db (ok after) k = k after refl
committed-Follows db (err e) k = same_rows-Follows db db refl

serve-Follows : (r : Request) (db : SettlementDb) → Follows db (serve r db)
unfolding serve
serve-Follows (creates id now tasker input key reply) db =
    create-Follows id now tasker input key reply db
serve-Follows (cancels tasker id intent) db =
    committed-Follows db (cancel tasker id intent db)
      (λ after h. cancel-Follows tasker id intent db after h)
serve-Follows (records id now admin input key) db = admin_record-Follows id now admin input key db
serve-Follows (approves now admin id amount note) db =
    committed-Follows db (approve now admin id amount note db)
      (λ after h. approve-Follows now admin id amount note db after h)
serve-Follows (rejects now admin id note) db =
    committed-Follows db (reject now admin id note db)
      (λ after h. reject-Follows now admin id note db after h)
serve-Follows (delivers now i event) db =
    committed-Follows db (handle_intent now i event db)
      (λ after h. handle_intent-Follows now i event db after h)

-- Whatever requests arrive in whatever order, no settlement is lost, and each moves only as the
-- abstract machine does: an open one may be cancelled, one in review rejected, and each that is not
-- completed may be completed and then stays so.
pub run-Follows : (rs : List Request) (db : SettlementDb) → Follows db (run rs db)
unfolding run
run-Follows [] db = same_rows-Follows db db refl
run-Follows (r ∷ rs) db =
    Follows-trans db (serve r db) (run rs (serve r db)) (serve-Follows r db)
      (run-Follows rs (serve r db))
