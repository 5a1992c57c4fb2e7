-- ===== src/Settlements/Outcomes.antt =====
-- The outcomes of create and adminRecord of
-- src/modules/tasker-finance/platform-payable-settlements.service.ts: what holds of the database before
-- holds after, if it holds after their transactions.
use Prim.Native.String.{◌++◌ as ◌+++◌}
use latache_backend.Settlements.{SettlementDb, SettlementRow, SettlementError, has_settlement_key}
use latache_backend.Settlements.Requests.{
  create, create_new, after_conflict, SettlementInput, StripeReply, create_transaction,
  attach_intent, require_key, is_tasker_method, is_admin_method,
}
use latache_backend.Settlements.Reviews.{admin_record, AdminInput, record_transaction}
use latache_backend.Prelude.{
  refl, ℕ, Option, String, ◌≡◌, some, ok, Result-cases, arith, none, inl, inr, Bool-cases,
  Option-cases, str_eq, ◌&&◌, not, is_some, true,
}
use latache_backend.Prelude.Int.{ℤ}
use latache_backend.Prelude.Rows.{find}
use latache_backend.Prelude.Text.{trimmed}

pub after_conflict-db :
    (e : SettlementError) (raced : Option SettlementRow) (method : String) (amount : Option ℤ)
    (db : SettlementDb)
    → (after_conflict e raced method amount db).0 ≡ db
unfolding after_conflict
after_conflict-db e none method amount db = refl
after_conflict-db e (some raced) method amount db = ground arith

module _ (P : SettlementDb → Type 0) where
  create_new-keeps :
      (id now tasker : ℕ) (input : SettlementInput) (key : String) (reply : StripeReply)
      (db : SettlementDb)
      → P db
      → ((after : SettlementDb) (row : SettlementRow)
          → create_transaction id now tasker input key db ≡ ok (after, row)
          → P after × (str_eq row.method "stripe" ≡ true → P (attach_intent reply row after).0))
      → P (create_new id now tasker input key reply db).0
  unfolding create_new
  create_new-keeps id now tasker input key reply db o k =
      elim (Result-cases (create_transaction id now tasker input key db)) [
        | inl ((after, row), done) ↦
            rw (done, create_new)
              (elim (Bool-cases (str_eq row.method "stripe")) [
                | inl card ↦ rw card ((k after row done).1 card)
                | inr other ↦ rw other ((k after row done).0)
              ])
        | inr (e, failed) ↦
            rw (failed, create_new)
              (rw
                (after_conflict-db e (find (has_settlement_key tasker key) db.settlements)
                  input.method input.amount db)
                o)
      ]

  pub create-keeps :
      (id now tasker : ℕ) (input : SettlementInput) (value : String) (reply : StripeReply)
      (db : SettlementDb)
      → P db
      → ((key : String) (after : SettlementDb) (row : SettlementRow)
          → create_transaction id now tasker input key db ≡ ok (after, row)
          → P after × (str_eq row.method "stripe" ≡ true → P (attach_intent reply row after).0))
      → P (create id now tasker input value reply db).0
  unfolding create
  create-keeps id now tasker input value reply db o k = elim (Result-cases (require_key value)) [
    | inr (e, failed) ↦ rw (failed, create) o
    | inl (key, valid) ↦
        rw (valid, create)
          (elim (Option-cases (find (has_settlement_key tasker key) db.settlements)) [
            | inr (row, known) ↦ rw known o
            | inl new ↦ rw new (elim (Bool-cases (is_tasker_method input.method)) [
              | inr unknown ↦ rw unknown o
              | inl method ↦
                  rw method
                    (elim (Bool-cases (
                      str_eq input.method "bank_transfer"
                      && not (is_some (trimmed input.reference)))) [
                        | inl missing ↦ rw missing o
                        | inr complete_input ↦
                            rw complete_input
                              (create_new-keeps id now tasker input key reply db o (k key))
                      ])
            ])
          ])
  ]

  pub admin_record-keeps :
      (id now admin : ℕ) (input : AdminInput) (value : String) (db : SettlementDb)
      → P db
      → ((key currency : String) (after : SettlementDb)
          → record_transaction id now admin input key currency db ≡ ok after
          → P after)
      → P (admin_record id now admin input value db).0
  unfolding admin_record
  admin_record-keeps id now admin input value db o k = elim (Result-cases (require_key value)) [
    | inr (e, failed) ↦ rw (failed, admin_record) o
    | inl (given, valid) ↦
        rw (valid, admin_record)
          (let key = "admin:" +++ given in
            elim (Option-cases (find (has_settlement_key input.tasker_id key) db.settlements)) [
              | inr (row, known) ↦ rw known o
              | inl new ↦ rw new (elim (Bool-cases (is_admin_method input.method)) [
                | inr unknown ↦ rw unknown o
                | inl method ↦
                    rw method (elim (Option-cases (db.finance.accounts input.tasker_id)) [
                      | inl missing ↦ rw missing o
                      | inr (account, opened) ↦
                          rw opened
                            (elim (Result-cases
                              (record_transaction id now admin input key account.currency db)) [
                                | inl (after, done) ↦ rw done (k key account.currency after done)
                                | inr (e, failed) ↦ rw failed (
                                    rw
                                      (after_conflict-db e
                                        (find (has_settlement_key input.tasker_id key)
                                          db.settlements)
                                        input.method (some input.amount) db)
                                      o)
                              ])
                    ])
              ])
            ])
  ]
