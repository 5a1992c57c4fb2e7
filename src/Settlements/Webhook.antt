-- ===== src/Settlements/Webhook.antt =====
-- The events of Stripe on card payments of settlements: handleIntent of
-- src/modules/tasker-finance/platform-payable-settlements.service.ts.
use latache_backend.Prelude.{
  if◌then◌else◌, ℕ, ◌>>=◌, String, ◌==◌, Result, Option, some, none, or_throw, ok,
}
use latache_backend.Settlements.{
  SettlementDb, completed, SettlementRow, SettlementError, complete, metadata_invalid, change_row,
  has_settlement_id, settlement_not_found, is_completed,
}
use latache_backend.Prelude.Rows.{find}

-- A verified event of Stripe on a payment intent; amounts are in the currency's minor units.
pub data EventType : Type 0 where
  payment_failed payment_succeeded other_event : EventType

pub record Intent : Type 0 where
  pub id : String
  pub settlement_id : Option ℕ
  pub amount_received : ℕ
  pub amount : ℕ
  pub error_message : Option String

abbrev pub failure_of : Intent → String
failure_of i = message i.error_message
  where
    message : Option String → String
    message none = "Card payment failed"
    message (some text) = text

-- `intent.amount_received || intent.amount`
abbrev pub received_of : Intent → ℕ
received_of i = if i.amount_received == 0 then i.amount else i.amount_received

abbrev pub paid_row : Intent → SettlementRow → SettlementRow
paid_row i r = record r {
  status = completed;
  amount = received_of i;
  provider_reference = some i.id;
  failure_reason = none;
}

-- Where the payment of the intent succeeded and its settlement is not completed yet.
unfoldable pub receive_payment :
    ℕ → Intent → SettlementRow → SettlementDb → Result SettlementError SettlementDb
receive_payment now i locked db =
    complete now (record locked { amount = received_of i }) (received_of i)
      (change_row locked.id (paid_row i) db)

-- Under the lock of the settlement's Tasker.
unfoldable pub handle_found :
    ℕ → Intent → ℕ → SettlementRow → EventType → SettlementDb → Result SettlementError SettlementDb
handle_found now i id locked payment_failed db =
    ok (change_row id (λ r. record r { failure_reason = some (failure_of i) }) db)
handle_found now i id locked other_event db = ok db
handle_found now i id locked payment_succeeded db =
    if is_completed locked.status then ok db else receive_payment now i locked db

unfoldable pub handle_intent :
    ℕ → Intent → EventType → SettlementDb → Result SettlementError SettlementDb
handle_intent now i event db = do
  id ← or_throw i.settlement_id metadata_invalid
  locked ← or_throw (find (has_settlement_id id) db.settlements) settlement_not_found
  handle_found now i id locked event db
