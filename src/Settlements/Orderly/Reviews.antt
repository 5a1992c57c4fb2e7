-- ===== src/Settlements/Orderly/Reviews.antt =====
-- What the requests of the finance staff and the events of Stripe keep: adminRecord, approve, reject
-- and handleIntent of src/modules/tasker-finance/platform-payable-settlements.service.ts.
use latache_backend.Settlements.Reviews.{
  AdminInput, reject, approve, admin_record, record_transaction, new_record, approve_row,
}
use latache_backend.Settlements.Webhook.{
  Intent, receive_payment, handle_found, handle_intent, EventType, failure_of, received_of,
  paid_row, payment_failed, other_event, payment_succeeded,
}
use latache_backend.Prelude.{
  ℕ, Option, String, ◌≡◌, ok, some, >>=-eq-ok, inr, or_throw-eq-ok, ap, inl, ==_iff, sym, refl,
  ok-value, arith, Bool-cases, ◌∙◌,
}
use latache_backend.Settlements.{
  SettlementRow, SettlementDb, has_settlement_id, is_completed, complete, change_row,
}
use latache_backend.Prelude.Int.{ℤ, pos_part, pos}
use latache_backend.Settlements.Orderly.{
  IsOrderly, paid_row-IsOrderly, change-IsOrderly, new_row-IsOrderly, same_rows-IsOrderly,
  IsAccounted,
}
use latache_backend.Prelude.Rows.{find, find-holds, find-All}
use latache_backend.Settlements.Requests.{amount_or}
use latache_backend.Settlements.Orderly.Requests.{insert_settlement_rows, found_own}
use latache_backend.Settlements.Outcomes.{admin_record-keeps}

module _ (id now admin : ℕ) (input : AdminInput) (key currency : String) (db after : SettlementDb)
    (done : record_transaction id now admin input key currency db ≡ ok after)
    (o : IsOrderly db) where
  record_transaction-IsOrderly : IsOrderly after
  unfolding record_transaction
  record_transaction-IsOrderly =
      let row = new_record id now admin input key currency in
      let (inserted, insertion, h₁) = >>=-eq-ok _ _ done in
      let (paid, payment, h₂) = >>=-eq-ok _ _ h₁ in
      let (fresh, added) = insert_settlement_rows row db inserted insertion in
      let kept =
        new_row-IsOrderly now row db inserted paid refl fresh
          (ap (λ (d : SettlementDb). d.settlements) added) payment o in
      same_rows-IsOrderly paid after (ap (λ (d : SettlementDb). d.settlements) (sym (ok-value h₂)))
        kept

-- A record of a payment keeps the invariant whatever its outcome.
pub admin_record-IsOrderly :
    (id now admin : ℕ) (input : AdminInput) (value : String) (db : SettlementDb)
    → IsOrderly db
    → IsOrderly (admin_record id now admin input value db).0
admin_record-IsOrderly id now admin input value db o =
    admin_record-keeps IsOrderly id now admin input value db o (λ key currency after done.
      record_transaction-IsOrderly id now admin input key currency db after done o)

pub approve-IsOrderly :
    (now admin id : ℕ) (amount : Option ℤ) (note : Option String) (db after : SettlementDb)
    → approve now admin id amount note db ≡ ok after
    → IsOrderly db
    → IsOrderly after
unfolding approve
approve-IsOrderly now admin id amount note db after h o =
    let (locked, finding, h₁) = >>=-eq-ok _ _ h in
    let (_, _, h₂) = >>=-eq-ok _ _ h₁ in
    let (_, _, h₃) = >>=-eq-ok _ _ h₂ in
    let (paid, payment, h₄) = >>=-eq-ok _ _ h₃ in
    let found = or_throw-eq-ok _ _ finding in
    let own = (==_iff locked.id id).0 (find-holds _ _ _ found) in
    let received = pos_part (amount_or amount (pos locked.amount)) in
    let kept =
      paid_row-IsOrderly now received (approve_row now admin received note) locked db paid
        (found_own id db db locked locked found refl refl) (λ r. refl) refl refl
        (ap
            (λ i.
              complete now (record locked { amount = received }) received
                (change_row i (approve_row now admin received note) db))
            own
          ∙ payment)
        o in
    same_rows-IsOrderly paid after (ap (λ (d : SettlementDb). d.settlements) (sym (ok-value h₄)))
      kept

pub reject-IsOrderly :
    (now admin id : ℕ) (note : String) (db after : SettlementDb)
    → reject now admin id note db ≡ ok after
    → IsOrderly db
    → IsOrderly after
unfolding reject
reject-IsOrderly now admin id note db after h o =
    let (locked, finding, h₁) = >>=-eq-ok _ _ h in
    let (_, _, h₂) = >>=-eq-ok _ _ h₁ in
    change-IsOrderly id _ db after locked (or_throw-eq-ok _ _ finding)
      (ap (λ (d : SettlementDb). d.settlements) (sym (ok-value h₂))) (λ c. cc) (λ t. ground arith) o

receive_payment-IsOrderly :
    (now : ℕ) (i : Intent) (locked : SettlementRow) (db after : SettlementDb)
    → find (has_settlement_id locked.id) db.settlements ≡ some locked
    → receive_payment now i locked db ≡ ok after
    → IsOrderly db
    → IsOrderly after
unfolding receive_payment
receive_payment-IsOrderly now i locked db after found done o =
    paid_row-IsOrderly now (received_of i) (paid_row i) locked db after found (λ r. refl) refl refl
      done o

handle_found-IsOrderly :
    (now id : ℕ) (i : Intent) (event : EventType) (locked : SettlementRow) (db after : SettlementDb)
    → find (has_settlement_id id) db.settlements ≡ some locked
    → handle_found now i id locked event db ≡ ok after
    → IsOrderly db
    → IsOrderly after
unfolding handle_found
handle_found-IsOrderly now id i payment_failed locked db after found h o =
    change-IsOrderly id (λ r. record r { failure_reason = some (failure_of i) }) db after locked
      found (ap (λ (d : SettlementDb). d.settlements) (sym (ok-value h)))
      (find-All IsAccounted _ db.settlements locked o.accounted found) (λ t. ground arith) o
handle_found-IsOrderly now id i other_event locked db after found h o =
    same_rows-IsOrderly db after (ap (λ (d : SettlementDb). d.settlements) (sym (ok-value h))) o
handle_found-IsOrderly now id i payment_succeeded locked db after found h o =
    elim (Bool-cases (is_completed locked.status)) [
      | inl before ↦
          same_rows-IsOrderly db after
            (ap (λ (d : SettlementDb). d.settlements) (sym (ok-value (rw before at h)))) o
      | inr unpaid ↦
          receive_payment-IsOrderly now i locked db after
            (found_own id db db locked locked found refl refl) (rw unpaid at h) o
    ]

pub handle_intent-IsOrderly :
    (now : ℕ) (i : Intent) (event : EventType) (db after : SettlementDb)
    → handle_intent now i event db ≡ ok after
    → IsOrderly db
    → IsOrderly after
unfolding handle_intent
handle_intent-IsOrderly now i event db after h o =
    let (id, _, h₁) = >>=-eq-ok _ _ h in
    let (locked, finding, h₂) = >>=-eq-ok _ _ h₁ in
    handle_found-IsOrderly now id i event locked db after (or_throw-eq-ok _ _ finding) h₂ o
