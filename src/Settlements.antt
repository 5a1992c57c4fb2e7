-- ===== src/Settlements.antt =====
-- How a Tasker pays the commission owed on cash bookings: the rows of TaskerPlatformSettlement
-- (prisma/schema.prisma) and the transactions of
-- src/modules/tasker-finance/platform-payable-settlements.service.ts over the tables of Finance.
pub mod Requests
pub mod Reviews
pub mod Webhook
pub mod Parts
pub mod Outcomes
pub mod Orderly
pub mod Life
pub mod Wallet
pub mod Once
pub mod Delivery
mod Tests
use latache_backend.Prelude.{
  ℕ, Bool, List, false, String, ◌==◌, Result, true, some, ok, ◌>>=◌, ◌&&◌, ◌++◌, ◌>>◌, Option, err,
  str_eq, throw_if, ◌∷◌, any, not, [], none,
}
use latache_backend.Finance.{Db, Error, settlement_debit}
use latache_backend.Prelude.Rows.{update, put}
use latache_backend.Finance.Payables.{Settlement, apply_payable_settlement}
use latache_backend.Prelude.Int.{ℤ, ltb_ℤ, pos, ◌-ℤ◌}
use latache_backend.Finance.Entries.{wallet_or_new, notice, add_wallet_entry}

pub data SettlementStatus : Type 0 where
  pending_payment pending_review completed rejected cancelled : SettlementStatus

pub record SettlementRow : Type 0 where
  pub id : ℕ
  pub tasker_id : ℕ
  pub method : String
  pub status : SettlementStatus
  pub amount : ℕ
  pub applied_amount : ℤ
  pub overpayment_amount : ℕ
  pub currency : String
  pub idempotency_key : String
  pub external_reference : Option String
  pub provider_reference : Option String
  pub note : Option String
  pub admin_note : Option String
  pub failure_reason : Option String
  pub created_by_id : ℕ
  pub reviewed_by_id : Option ℕ
  pub reviewed_at : Option ℕ
  pub completed_at : Option ℕ

-- A call of AdminAuditService.record, without its metadata.
pub record SettlementAudit : Type 0 where
  pub actor_id : ℕ
  pub target_user_id : ℕ
  pub action : String
  pub entity_id : ℕ
  pub reason : Option String

pub record SettlementDb : Type 0 where
  pub finance : Db
  pub settlements : List SettlementRow
  pub audits : List SettlementAudit

-- `books e` is an exception of the finance service.
pub data SettlementError : Type 0 where
  books : Error → SettlementError
  key_required key_too_long replay_differs unknown_method reference_required : SettlementError
  nothing_to_settle amount_not_positive amount_exceeds_outstanding already_pending : SettlementError
  settlement_exists stripe_failed settlement_not_found already_closed : SettlementError
  already_submitted account_not_found not_in_review received_not_positive : SettlementError
  wallet_currency_differs insufficient_wallet_balance metadata_invalid : SettlementError

abbrev pub lift {ℓ} : {A : Type ℓ} → Result Error A → Result SettlementError A
lift (ok a) = ok a
lift (err e) = err (books e)

-- OPEN
abbrev pub is_open : SettlementStatus → Bool
is_open pending_payment = true
is_open pending_review = true
is_open completed = false
is_open rejected = false
is_open cancelled = false

abbrev pub is_pending_review : SettlementStatus → Bool
is_pending_review pending_payment = false
is_pending_review pending_review = true
is_pending_review completed = false
is_pending_review rejected = false
is_pending_review cancelled = false

abbrev pub is_pending_payment : SettlementStatus → Bool
is_pending_payment pending_payment = true
is_pending_payment pending_review = false
is_pending_payment completed = false
is_pending_payment rejected = false
is_pending_payment cancelled = false

abbrev pub is_completed : SettlementStatus → Bool
is_completed pending_payment = false
is_completed pending_review = false
is_completed completed = true
is_completed rejected = false
is_completed cancelled = false

abbrev pub has_settlement_id : ℕ → SettlementRow → Bool
has_settlement_id id r = r.id == id

abbrev pub has_settlement_key : ℕ → String → SettlementRow → Bool
has_settlement_key tasker key r = r.tasker_id == tasker && str_eq r.idempotency_key key

abbrev pub is_open_of : ℕ → SettlementRow → Bool
is_open_of tasker r = r.tasker_id == tasker && is_open r.status

abbrev pub change_row : ℕ → (SettlementRow → SettlementRow) → SettlementDb → SettlementDb
change_row id g db = record db { settlements = update (has_settlement_id id) g db.settlements }

abbrev pub record_audit : ℕ → ℕ → String → ℕ → Option String → SettlementDb → SettlementDb
record_audit actor target action entity reason db = record db {
  audits =
      db.audits
      ++ record {
        actor_id = actor;
        target_user_id = target;
        action = action;
        entity_id = entity;
        reason = reason;
      }
        ∷ [];
}

abbrev pub notify : ℕ → String → ℕ → Db → Db
notify tasker type id db = record db {
  notifications = db.notifications ++ notice tasker type "tasker_platform_settlement" id ∷ [];
}

-- The row of a new settlement, by the identifier that the database gives to it. The primary key and
-- the key of the Tasker's request are unique.
unfoldable pub insert_settlement :
    SettlementRow → SettlementDb → Result SettlementError SettlementDb
insert_settlement row db = do
  throw_if (any (has_settlement_id row.id) db.settlements) settlement_exists
  throw_if (any (has_settlement_key row.tasker_id row.idempotency_key) db.settlements)
      settlement_exists
  ok (record db { settlements = db.settlements ++ row ∷ [] })

-- What complete writes into the row.
abbrev pub settle_row : ℕ → Settlement → SettlementRow → SettlementRow
settle_row now result r = record r {
  applied_amount = result.applied;
  overpayment_amount = result.overpayment;
  completed_at = some now;
}

unfoldable pub complete : ℕ → SettlementRow → ℕ → SettlementDb → Result SettlementError SettlementDb
complete now row amount db = do
  (paid, result) ←
      lift (apply_payable_settlement now row.tasker_id row.id amount row.currency db.finance)
  ok (
      change_row row.id (settle_row now result) (record db {
        finance = notify row.tasker_id "platform_payable_settlement_completed" row.id paid;
      }))

-- The wallet's row and ledger after the debit of payFromWallet.
unfoldable pub debit_wallet : SettlementRow → Db → Result SettlementError Db
debit_wallet row db = do
  let wallet = wallet_or_new row.currency (db.wallets row.tasker_id)
  throw_if (not (str_eq wallet.currency row.currency)) wallet_currency_differs
  throw_if (ltb_ℤ wallet.available_balance (pos row.amount)) insufficient_wallet_balance
  wallet_ledger ← lift (
      add_wallet_entry
        (record {
          tasker_id = row.tasker_id;
          booking_id = none;
          earning_id = none;
          kind = "platform_payable_settlement";
          amount = row.amount;
          available_delta = pos 0 -ℤ pos row.amount;
          pending_delta = pos 0;
          currency = row.currency;
          idempotency_key = settlement_debit row.id;
        })
        db.wallet_ledger)
  ok (record db {
    wallets =
        put row.tasker_id
          (record wallet { available_balance = wallet.available_balance -ℤ pos row.amount })
          db.wallets;
    wallet_ledger = wallet_ledger;
  })

unfoldable pub pay_from_wallet :
    ℕ → SettlementRow → SettlementDb → Result SettlementError SettlementDb
unfolding debit_wallet complete
pay_from_wallet now row db = do
  debited ← debit_wallet row db.finance
  complete now row row.amount (record db { finance = debited })
