-- ===== src/Settlements/Reviews.antt =====
-- The requests of the finance staff, of
-- src/modules/tasker-finance/platform-payable-settlements.service.ts: adminRecord, approve, reject.
use Prim.Native.String.{◌++◌ as ◌+++◌}
use latache_backend.Prelude.{
  if◌then◌else◌, ℕ, ◌>>=◌, ◌>>◌, String, Option, Result, some, err, ok, or_throw, none, not,
  throw_if,
}
use latache_backend.Prelude.Int.{ℤ, pos, pos_part, leb_ℤ}
use latache_backend.Settlements.{
  SettlementDb, rejected, completed, SettlementRow, SettlementError, insert_settlement, complete,
  has_settlement_id, record_audit, has_settlement_key, settlement_not_found, is_pending_review,
  not_in_review, unknown_method, change_row, account_not_found, notify, received_not_positive,
}
use latache_backend.Settlements.Requests.{
  Answer, require_key, replay, is_admin_method, amount_or, after_conflict,
}
use latache_backend.Prelude.Text.{trimmed, trim}
use latache_backend.Prelude.Rows.{find}

pub record AdminInput : Type 0 where
  pub tasker_id : ℕ
  pub amount : ℤ
  pub method : String
  pub reference : String
  pub note : Option String

abbrev pub new_record : ℕ → ℕ → ℕ → AdminInput → String → String → SettlementRow
new_record id now admin input key currency = record {
  id = id;
  tasker_id = input.tasker_id;
  method = input.method;
  status = completed;
  amount = pos_part input.amount;
  applied_amount = pos 0;
  overpayment_amount = 0;
  currency = currency;
  idempotency_key = key;
  external_reference = some (trim input.reference);
  provider_reference = none;
  note = none;
  admin_note = trimmed input.note;
  failure_reason = none;
  created_by_id = admin;
  reviewed_by_id = some admin;
  reviewed_at = some now;
  completed_at = none;
}

-- An amount that is not positive makes applyPayableSettlement throw.
unfoldable pub record_transaction :
    ℕ → ℕ → ℕ → AdminInput → String → String → SettlementDb → Result SettlementError SettlementDb
record_transaction id now admin input key currency db = do
  let row = new_record id now admin input key currency
  inserted ← insert_settlement row db
  completed_db ← complete now row row.amount inserted
  ok (
      record_audit admin input.tasker_id "platform_payable_settlement_recorded" id input.note
        completed_db)

unfoldable pub admin_record : ℕ → ℕ → ℕ → AdminInput → String → SettlementDb → Answer
admin_record id now admin input value db = elim (require_key value) [
  | err e ↦ (db, err e)
  | ok given ↦
      let key = "admin:" +++ given in
      elim (find (has_settlement_key input.tasker_id key) db.settlements) [
        | some row ↦ (db, replay row input.method (some input.amount))
        | none ↦
            if not (is_admin_method input.method)
            then (db, err unknown_method)
            else elim (db.finance.accounts input.tasker_id) [
              | none ↦ (db, err account_not_found)
              | some account ↦
                  elim (record_transaction id now admin input key account.currency db) [
                    | ok after ↦ (
                      after,
                      or_throw (find (has_settlement_id id) after.settlements) settlement_not_found,
                    )
                    | err e ↦
                        after_conflict e
                          (find (has_settlement_key input.tasker_id key) db.settlements)
                          input.method (some input.amount) db
                  ]
            ]
      ]
]

abbrev pub approve_row : ℕ → ℕ → ℕ → Option String → SettlementRow → SettlementRow
approve_row now admin received note r = record r {
  status = completed;
  amount = received;
  reviewed_by_id = some admin;
  reviewed_at = some now;
  admin_note = trimmed note;
}

unfoldable pub approve :
    ℕ → ℕ → ℕ → Option ℤ → Option String → SettlementDb → Result SettlementError SettlementDb
approve now admin id received_amount note db = do
  locked ← or_throw (find (has_settlement_id id) db.settlements) settlement_not_found
  throw_if (not (is_pending_review locked.status)) not_in_review
  let asked = amount_or received_amount (pos locked.amount)
  throw_if (leb_ℤ asked (pos 0)) received_not_positive
  let received = pos_part asked
  paid ←
      complete now (record locked { amount = received }) received
        (change_row id (approve_row now admin received note) db)
  ok (record_audit admin locked.tasker_id "platform_payable_settlement_approved" id note paid)

unfoldable pub reject : ℕ → ℕ → ℕ → String → SettlementDb → Result SettlementError SettlementDb
reject now admin id note db = do
  locked ← or_throw (find (has_settlement_id id) db.settlements) settlement_not_found
  throw_if (not (is_pending_review locked.status)) not_in_review
  let after =
      change_row id
        (λ r. record r {
          status = rejected;
          reviewed_by_id = some admin;
          reviewed_at = some now;
          admin_note = some (trim note);
        })
        db
  ok (
      record_audit admin locked.tasker_id "platform_payable_settlement_rejected" id (some note)
        (record after {
          finance = notify locked.tasker_id "platform_payable_settlement_rejected" id after.finance;
        }))
