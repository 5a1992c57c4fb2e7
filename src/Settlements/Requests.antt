-- ===== src/Settlements/Requests.antt =====
-- The requests of src/modules/tasker-finance/platform-payable-settlements.service.ts. What Stripe
-- answers is an argument. A request that throws may have written before, so each returns the
-- database and its answer.
use latache_backend.Finance.{unique_violation}
use latache_backend.Prelude.{
  ℕ, Bool, String, true, if◌then◌else◌, Result, Option, ◌>>=◌, ok, err, ◌>>◌, some, any, ◌==◌,
  false, not, throw_if, or_throw, str_eq, none, ◌||◌, ◌∷◌, [], ◌&&◌, is_some, ltb,
}
use latache_backend.Settlements.{
  amount_not_positive, SettlementDb, SettlementError, SettlementRow, completed, books,
  SettlementStatus, change_row, insert_settlement, cancelled, settlement_exists, pending_payment,
  stripe_failed, has_settlement_key, record_audit, has_settlement_id, pay_from_wallet,
  nothing_to_settle, settlement_not_found, unknown_method, pending_review, key_required,
  is_completed, is_open, reference_required, replay_differs, already_closed, is_pending_payment,
  amount_exceeds_outstanding, key_too_long, already_submitted, is_open_of, already_pending,
}
use latache_backend.Prelude.Int.{ℤ, pos, pos_part, negsuc, leb_ℤ, ltb_ℤ}
use latache_backend.Prelude.Text.{trimmed, trim, is_empty, text_length}
use latache_backend.Prelude.Rows.{find}

abbrev pub Answer : Type 0
Answer = SettlementDb × Result SettlementError SettlementRow

-- The amount is in cents; a request may carry a negative one.
pub record SettlementInput : Type 0 where
  pub method : String
  pub amount : Option ℤ
  pub reference : Option String
  pub note : Option String

-- requireKey
unfoldable pub require_key : String → Result SettlementError String
require_key value = do
  throw_if (is_empty (trim value)) key_required
  throw_if (ltb 100 (text_length (trim value))) key_too_long
  ok (trim value)

-- `input.amount !== undefined && money(input.amount) !== money(row.amount)`
abbrev pub differs_from : Option ℤ → ℕ → Bool
differs_from none amount = false
differs_from (some (pos n)) amount = not (n == amount)
differs_from (some (negsuc n)) amount = true

-- replay, without the client secret that Stripe holds
unfoldable pub replay : SettlementRow → String → Option ℤ → Result SettlementError SettlementRow
replay row method amount = do
  throw_if
      (not (str_eq row.method method)
        || (differs_from amount row.amount && not (is_completed row.status)))
      replay_differs
  ok row

abbrev pub status_for : String → SettlementStatus
status_for method =
    if str_eq method "wallet"
    then completed
    else if str_eq method "stripe"
    then pending_payment
    else pending_review

-- `input.amount ?? outstanding`
abbrev pub amount_or : Option ℤ → ℤ → ℤ
amount_or none outstanding = outstanding
amount_or (some amount) outstanding = amount

abbrev pub new_settlement : ℕ → ℕ → SettlementInput → String → ℕ → String → SettlementRow
new_settlement id tasker input key amount currency = record {
  id = id;
  tasker_id = tasker;
  method = input.method;
  status = status_for input.method;
  amount = amount;
  applied_amount = pos 0;
  overpayment_amount = 0;
  currency = currency;
  idempotency_key = key;
  external_reference = trimmed input.reference;
  provider_reference = none;
  note = trimmed input.note;
  admin_note = none;
  failure_reason = none;
  created_by_id = tasker;
  reviewed_by_id = none;
  reviewed_at = none;
  completed_at = none;
}

-- The checks of the transaction of create, under the lock of the Tasker, and the amount to pay.
unfoldable pub checked_amount : ℕ → Option ℤ → SettlementDb → Result SettlementError (ℕ × String)
checked_amount tasker amount db = do
  account ← or_throw (db.finance.accounts tasker) nothing_to_settle
  throw_if (leb_ℤ account.outstanding_payable (pos 0)) nothing_to_settle
  let asked = amount_or amount account.outstanding_payable
  throw_if (leb_ℤ asked (pos 0)) amount_not_positive
  throw_if (ltb_ℤ account.outstanding_payable asked) amount_exceeds_outstanding
  throw_if (any (is_open_of tasker) db.settlements) already_pending
  ok (pos_part asked, account.currency)

unfoldable pub create_transaction :
    ℕ
    → ℕ
    → ℕ
    → SettlementInput
    → String
    → SettlementDb
    → Result SettlementError (SettlementDb × SettlementRow)
create_transaction id now tasker input key db = do
  (amount, currency) ← checked_amount tasker input.amount db
  let row = new_settlement id tasker input key amount currency
  inserted ← insert_settlement row db
  paid ← if str_eq input.method "wallet" then pay_from_wallet now row inserted else ok inserted
  let after = record_audit tasker tasker "platform_payable_settlement_created" id none paid
  found ← or_throw (find (has_settlement_id id) after.settlements) settlement_not_found
  ok (after, found)

-- What Stripe answers to the creation of a payment intent: its identifier, or an error's message, cut to
-- the length of its column.
pub data StripeReply : Type 0 where
  intent_created intent_refused : String → StripeReply

-- After the transaction of a card payment.
unfoldable pub attach_intent : StripeReply → SettlementRow → SettlementDb → Answer
attach_intent (intent_created intent) row db = (
  change_row row.id (λ r. record r { provider_reference = some intent }) db,
  ok (record row { provider_reference = some intent }),
)
attach_intent (intent_refused message) row db = (
  change_row row.id (λ r. record r { status = cancelled; failure_reason = some message }) db,
  err stripe_failed,
)

-- `hasPrismaErrorCode(error, 'P2002')`
abbrev pub is_unique_violation : SettlementError → Bool
is_unique_violation settlement_exists = true
is_unique_violation (books unique_violation) = true
is_unique_violation _ = false

abbrev pub is_tasker_method : String → Bool
is_tasker_method method = any (λ m. str_eq m method) ("wallet" ∷ "stripe" ∷ "bank_transfer" ∷ [])

abbrev pub is_admin_method : String → Bool
is_admin_method method =
    any (λ m. str_eq m method) ("bank_transfer" ∷ "cash_deposit" ∷ "other" ∷ [])

-- The catch of a transaction that inserted a settlement: `raced` has the same key.
unfoldable pub after_conflict :
    SettlementError → Option SettlementRow → String → Option ℤ → SettlementDb → Answer
after_conflict e none method amount db = (db, err e)
after_conflict e (some raced) method amount db =
    if is_unique_violation e then (db, replay raced method amount) else (db, err e)

-- Where the request is not a repetition: the transaction, and what follows it.
unfoldable pub create_new :
    ℕ → ℕ → ℕ → SettlementInput → String → StripeReply → SettlementDb → Answer
create_new id now tasker input key reply db = elim (create_transaction id now tasker input key db) [
  | ok (after, row) ↦
      if str_eq row.method "stripe" then attach_intent reply row after else (after, ok row)
  | err e ↦
      after_conflict e (find (has_settlement_key tasker key) db.settlements) input.method
        input.amount db
]

unfoldable pub create : ℕ → ℕ → ℕ → SettlementInput → String → StripeReply → SettlementDb → Answer
create id now tasker input value reply db = elim (require_key value) [
  | err e ↦ (db, err e)
  | ok key ↦ elim (find (has_settlement_key tasker key) db.settlements) [
    | some row ↦ (db, replay row input.method input.amount)
    | none ↦
        if not (is_tasker_method input.method)
        then (db, err unknown_method)
        else if str_eq input.method "bank_transfer" && not (is_some (trimmed input.reference))
        then (db, err reference_required)
        else create_new id now tasker input key reply db
  ]
]

-- The status of the payment intent, as Stripe reports it.
pub data IntentStatus : Type 0 where
  succeeded processing canceled unpaid : IntentStatus

abbrev pub is_submitted : IntentStatus → Bool
is_submitted succeeded = true
is_submitted processing = true
is_submitted canceled = false
is_submitted unpaid = false

-- The transaction of cancel.
unfoldable pub cancel_locked : ℕ → ℕ → SettlementDb → Result SettlementError SettlementDb
cancel_locked tasker id db = do
  locked ← or_throw (find (has_settlement_id id) db.settlements) settlement_not_found
  throw_if (not (is_open locked.status)) already_closed
  ok (
      record_audit tasker tasker "platform_payable_settlement_cancelled" id none
        (change_row id (λ r. record r { status = cancelled }) db))

unfoldable pub cancel : ℕ → ℕ → IntentStatus → SettlementDb → Result SettlementError SettlementDb
cancel tasker id intent db = do
  row ← or_throw (find (has_settlement_id id) db.settlements) settlement_not_found
  throw_if (not (row.tasker_id == tasker)) settlement_not_found
  throw_if (not (is_open row.status)) already_closed
  throw_if
      (is_pending_payment row.status && (is_some row.provider_reference && is_submitted intent))
      already_submitted
  cancel_locked tasker id db
