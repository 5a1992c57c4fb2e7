-- ===== src/Settlements/Orderly/Requests.antt =====
-- What the Tasker's requests of
-- src/modules/tasker-finance/platform-payable-settlements.service.ts keep: create and cancel.
use latache_backend.Settlements.Requests.{
  checked_amount, SettlementInput, create_transaction, status_for, new_settlement, attach_intent,
  StripeReply, intent_created, intent_refused, cancel, create, cancel_locked, IntentStatus,
}
use latache_backend.Prelude.{
  String, ℕ, Option, str_eq, ◌≡◌, true, false, ok, refl, any, arith, ◌++◌, some, >>=-eq-ok, ◌∷◌, [],
  sym, ap, Bool-cases, ok-value, inl, inr, ◌∙◌, ok-injective, or_throw-eq-ok, ==_iff, if◌then◌else◌,
  throw_if-eq_ok,
}
use latache_backend.Settlements.{
  pay_from_wallet, insert_settlement, SettlementRow, SettlementDb, completed, is_completed,
  has_settlement_id, is_open_of, cancelled,
}
use latache_backend.Prelude.Int.{ℤ}
use latache_backend.Settlements.Orderly.{
  IsOrderly, new_row-IsOrderly, append-IsOrderly, same_rows-IsOrderly, change-IsOrderly,
  IsAccounted,
}
use latache_backend.Prelude.Rows.{find, find-holds, find-All}
use latache_backend.Settlements.Outcomes.{create-keeps}

-- The rows before and after the row of a new settlement.
pub insert_settlement_rows :
    (row : SettlementRow) (db after : SettlementDb)
    → insert_settlement row db ≡ ok after
    → (any (has_settlement_id row.id) db.settlements ≡ false)
      × (after ≡ record db { settlements = db.settlements ++ row ∷ [] })
unfolding insert_settlement
insert_settlement_rows row db after h =
    let (_, fresh, h₁) = >>=-eq-ok _ _ h in
    let (_, fresh_key, h₂) = >>=-eq-ok _ _ h₁ in (throw_if-eq_ok _ _ fresh, sym (ok-value h₂))

checked_amount_none_open :
    (tasker : ℕ) (asked : Option ℤ) (db : SettlementDb) (got : ℕ × String)
    → checked_amount tasker asked db ≡ ok got
    → any (is_open_of tasker) db.settlements ≡ false
unfolding checked_amount
checked_amount_none_open tasker asked db got h =
    let (account, _, h₁) = >>=-eq-ok _ _ h in
    let (_, _, h₂) = >>=-eq-ok _ _ h₁ in
    let (_, _, h₃) = >>=-eq-ok _ _ h₂ in
    let (_, _, h₄) = >>=-eq-ok _ _ h₃ in
    let (_, none_open, h₅) = >>=-eq-ok _ _ h₄ in throw_if-eq_ok _ _ none_open

status_for-wallet :
    (method : String) → str_eq method "wallet" ≡ true → status_for method ≡ completed
status_for-wallet method h = rw h refl

status_for-other :
    (method : String) → str_eq method "wallet" ≡ false → is_completed (status_for method) ≡ false
status_for-other method h = ground arith

pay_from_wallet-IsOrderly :
    (now : ℕ) (row : SettlementRow) (db inserted after : SettlementDb)
    → row.status ≡ completed
    → any (has_settlement_id row.id) db.settlements ≡ false
    → inserted.settlements ≡ db.settlements ++ row ∷ []
    → pay_from_wallet now row inserted ≡ ok after
    → IsOrderly db
    → IsOrderly after
unfolding pay_from_wallet
pay_from_wallet-IsOrderly now row db inserted after closes fresh added done o =
    let (debited, _, paid) = >>=-eq-ok _ _ done in
    new_row-IsOrderly now row db (record inserted { finance = debited }) after closes fresh added
      paid o

paid_or_open-IsOrderly :
    (now : ℕ) (method : String) (row : SettlementRow) (db inserted paid : SettlementDb)
    → row.status ≡ status_for method
    → any (has_settlement_id row.id) db.settlements ≡ false
    → any (is_open_of row.tasker_id) db.settlements ≡ false
    → inserted.settlements ≡ db.settlements ++ row ∷ []
    → (if str_eq method "wallet" then pay_from_wallet now row inserted else ok inserted) ≡ ok paid
    → IsOrderly db
    → IsOrderly paid
paid_or_open-IsOrderly now method row db inserted paid status fresh none_open rows h o =
    elim (Bool-cases (str_eq method "wallet")) [
      | inl wallet ↦
          pay_from_wallet-IsOrderly now row db inserted paid
            (status ∙ status_for-wallet method wallet) fresh rows (rw wallet at h) o
      | inr other ↦
          let same : inserted ≡ paid = ok-value (rw other at h) in
          let unpaid : is_completed row.status ≡ false =
            rw status (status_for-other method other) in
          append-IsOrderly db paid row (ap (λ (d : SettlementDb). d.settlements) (sym same) ∙ rows)
            (λ c. cc (c, unpaid)) (inr none_open) o
    ]

-- A row that its identifier finds is found by its own identifier.
pub found_own :
    (id : ℕ) (db after : SettlementDb) (found row : SettlementRow)
    → find (has_settlement_id id) db.settlements ≡ some found
    → db ≡ after
    → found ≡ row
    → find (has_settlement_id row.id) after.settlements ≡ some row
found_own id db after found row at_id same same_row =
    let own : found.id ≡ id = (==_iff found.id id).0 (find-holds _ _ _ at_id) in
    rw (← same, ← same_row) (ap (λ i. find (has_settlement_id i) db.settlements) own ∙ at_id)

module _ (id now tasker : ℕ) (input : SettlementInput) (key : String) (db after : SettlementDb)
    (row : SettlementRow) (done : create_transaction id now tasker input key db ≡ ok (after, row))
    (o : IsOrderly db) where
  create_transaction-IsOrderly :
      IsOrderly after × (find (has_settlement_id row.id) after.settlements ≡ some row)
  unfolding create_transaction
  create_transaction-IsOrderly =
      let ((amount, currency), checked, h₁) = >>=-eq-ok _ _ done in
      let (inserted, insertion, h₂) = >>=-eq-ok _ _ h₁ in
      let (paid, payment, h₃) = >>=-eq-ok _ _ h₂ in
      let (found, finding, h₄) = >>=-eq-ok _ _ h₃ in
      let new = new_settlement id tasker input key amount currency in
      let (fresh, added) = insert_settlement_rows new db inserted insertion in
      let rows : inserted.settlements ≡ db.settlements ++ new ∷ [] =
        ap (λ (d : SettlementDb). d.settlements) added in
      let none_open = checked_amount_none_open tasker input.amount db (amount, currency) checked in
      let kept =
        paid_or_open-IsOrderly now input.method new db inserted paid refl fresh none_open rows
          payment o in
      let (last, answer) = ok-injective h₄ in
      let at_id = or_throw-eq-ok _ _ finding in
      (
        same_rows-IsOrderly paid after (ap (λ (d : SettlementDb). d.settlements) (sym last)) kept,
        found_own id _ after found row at_id last answer,
      )

attach_intent-IsOrderly :
    (reply : StripeReply) (row : SettlementRow) (db : SettlementDb)
    → find (has_settlement_id row.id) db.settlements ≡ some row
    → IsOrderly db
    → IsOrderly (attach_intent reply row db).0
unfolding attach_intent
attach_intent-IsOrderly (intent_created intent) row db found o =
    change-IsOrderly row.id (λ r. record r { provider_reference = some intent }) db _ row found refl
      (find-All IsAccounted _ db.settlements row o.accounted found) (λ t. ground arith) o
attach_intent-IsOrderly (intent_refused message) row db found o =
    change-IsOrderly row.id (λ r. record r { status = cancelled; failure_reason = some message }) db
      _ row found refl (λ c. cc) (λ t. ground arith) o

-- A creation keeps the invariant whatever its outcome.
pub create-IsOrderly :
    (id now tasker : ℕ) (input : SettlementInput) (value : String) (reply : StripeReply)
    (db : SettlementDb)
    → IsOrderly db
    → IsOrderly (create id now tasker input value reply db).0
create-IsOrderly id now tasker input value reply db o =
    create-keeps IsOrderly id now tasker input value reply db o (λ key after row done.
      let (kept, found) =
        create_transaction-IsOrderly id now tasker input key db after row done o in
      (kept, λ card. attach_intent-IsOrderly reply row after found kept))

pub cancel-IsOrderly :
    (tasker id : ℕ) (intent : IntentStatus) (db after : SettlementDb)
    → cancel tasker id intent db ≡ ok after
    → IsOrderly db
    → IsOrderly after
unfolding cancel cancel_locked
cancel-IsOrderly tasker id intent db after h o =
    let (row, _, h₁) = >>=-eq-ok _ _ h in
    let (_, _, h₂) = >>=-eq-ok _ _ h₁ in
    let (_, _, h₃) = >>=-eq-ok _ _ h₂ in
    let (_, _, h₄) = >>=-eq-ok _ _ h₃ in
    let (locked, finding, h₅) = >>=-eq-ok _ _ h₄ in
    let (_, _, h₆) = >>=-eq-ok _ _ h₅ in
    change-IsOrderly id (λ r. record r { status = cancelled }) db after locked
      (or_throw-eq-ok _ _ finding) (ap (λ (d : SettlementDb). d.settlements) (sym (ok-value h₆)))
      (λ c. cc) (λ t. ground arith) o
