-- ===== src/Settlements/Life/Reviews.antt =====
-- The requests of the finance staff and the events of Stripe, of
-- src/modules/tasker-finance/platform-payable-settlements.service.ts, follow the life of a settlement.
use latache_backend.Settlements.{
  SettlementDb, SettlementRow, complete, settle_row, SettlementStatus, is_pending_review,
  has_settlement_id, is_completed, change_row,
}
use latache_backend.Settlements.Life.{
  Follows, Move, completes, rejects, stays, change-Follows, same_rows-Follows, Follows-trans,
  append-Follows,
}
use latache_backend.Settlements.Reviews.{
  approve, reject, AdminInput, record_transaction, admin_record, new_record, approve_row,
}
use latache_backend.Settlements.Webhook.{
  Intent, handle_intent, handle_found, EventType, receive_payment, failure_of, received_of,
  paid_row, payment_failed, other_event, payment_succeeded,
}
use latache_backend.Prelude.{
  ℕ, String, Option, ◌≡◌, ok, true, some, >>=-eq-ok, refl, or_throw-eq-ok, false, arith, ap, ==_iff,
  sym, ◌==◌, ok-value, ◌∙◌, Bool-cases, not-false, inl, throw_if-eq_ok, inr,
}
use latache_backend.Prelude.Rows.{find, update-update, find-holds}
use latache_backend.Prelude.Int.{ℤ, pos_part, pos}
use latache_backend.Settlements.Outcomes.{admin_record-keeps}
use latache_backend.Settlements.Parts.{complete_parts}
use latache_backend.Settlements.Orderly.Requests.{insert_settlement_rows, found_own}
use latache_backend.Settlements.Life.Requests.{completed_row-IsCreated}
use latache_backend.Settlements.Requests.{amount_or}

-- A row that is marked as completed and settled.
paid_row-Follows :
    (now amount : ℕ) (g : SettlementRow → SettlementRow) (locked : SettlementRow)
    (db after : SettlementDb)
    → find (has_settlement_id locked.id) db.settlements ≡ some locked
    → ((r : SettlementRow) → (g r).id ≡ r.id)
    → Move locked.status (g locked).status
    → complete now (record locked { amount = amount }) amount (change_row locked.id g db) ≡ ok after
    → Follows db after
paid_row-Follows now amount g locked db after found keeps move done =
    let (paid, result, run, split, rows, books_after) =
      complete_parts now amount (record locked { amount = amount }) (change_row locked.id g db)
        after done in
    let both =
      update-update (has_settlement_id locked.id) g (settle_row now result) db.settlements
        (λ r. ap (λ i. i == locked.id) (keeps r)) in
    change-Follows db after locked.id (λ r. settle_row now result (g r)) locked found keeps
      (rows ∙ both) move

record_transaction-Follows :
    (id now admin : ℕ) (input : AdminInput) (key currency : String) (db after : SettlementDb)
    → record_transaction id now admin input key currency db ≡ ok after
    → Follows db after
unfolding record_transaction
record_transaction-Follows id now admin input key currency db after done =
    let row = new_record id now admin input key currency in
    let (inserted, insertion, h₁) = >>=-eq-ok _ _ done in
    let (paid, payment, h₂) = >>=-eq-ok _ _ h₁ in
    let (fresh, added) = insert_settlement_rows row db inserted insertion in
    let (created, c) =
      completed_row-IsCreated now row db inserted paid fresh
        (ap (λ (d : SettlementDb). d.settlements) added) payment in
    Follows-trans db paid after (append-Follows db paid created c.rows)
      (same_rows-Follows paid after (ap (λ (d : SettlementDb). d.settlements) (sym (ok-value h₂))))

review-not_completed : (s : SettlementStatus) → is_pending_review s ≡ true → is_completed s ≡ false
review-not_completed s h = ground arith

pub admin_record-Follows :
    (id now admin : ℕ) (input : AdminInput) (value : String) (db : SettlementDb)
    → Follows db (admin_record id now admin input value db).0
admin_record-Follows id now admin input value db =
    admin_record-keeps (Follows db) id now admin input value db (same_rows-Follows db db refl)
      (λ key currency after done.
        record_transaction-Follows id now admin input key currency db after done)

pub approve-Follows :
    (now admin id : ℕ) (amount : Option ℤ) (note : Option String) (db after : SettlementDb)
    → approve now admin id amount note db ≡ ok after
    → Follows db after
unfolding approve
approve-Follows now admin id amount note db after h =
    let (locked, finding, h₁) = >>=-eq-ok _ _ h in
    let (_, reviewed, h₂) = >>=-eq-ok _ _ h₁ in
    let (_, _, h₃) = >>=-eq-ok _ _ h₂ in
    let (paid, payment, h₄) = >>=-eq-ok _ _ h₃ in
    let found = or_throw-eq-ok _ _ finding in
    let own = (==_iff locked.id id).0 (find-holds _ _ _ found) in
    let received = pos_part (amount_or amount (pos locked.amount)) in
    let kept =
      paid_row-Follows now received (approve_row now admin received note) locked db paid
        (found_own id db db locked locked found refl refl) (λ r. refl)
        (completes (review-not_completed locked.status (not-false _ (throw_if-eq_ok _ _ reviewed))))
        (ap
            (λ i.
              complete now (record locked { amount = received }) received
                (change_row i (approve_row now admin received note) db))
            own
          ∙ payment) in
    Follows-trans db paid after kept
      (same_rows-Follows paid after (ap (λ (d : SettlementDb). d.settlements) (sym (ok-value h₄))))

pub reject-Follows :
    (now admin id : ℕ) (note : String) (db after : SettlementDb)
    → reject now admin id note db ≡ ok after
    → Follows db after
unfolding reject
reject-Follows now admin id note db after h =
    let (locked, finding, h₁) = >>=-eq-ok _ _ h in
    let (_, reviewed, h₂) = >>=-eq-ok _ _ h₁ in
    change-Follows db after id _ locked (or_throw-eq-ok _ _ finding) (λ x. refl)
      (ap (λ (d : SettlementDb). d.settlements) (sym (ok-value h₂)))
      (rejects (not-false _ (throw_if-eq_ok _ _ reviewed)))

handle_found-Follows :
    (now id : ℕ) (i : Intent) (event : EventType) (locked : SettlementRow) (db after : SettlementDb)
    → find (has_settlement_id id) db.settlements ≡ some locked
    → handle_found now i id locked event db ≡ ok after
    → Follows db after
unfolding handle_found receive_payment
handle_found-Follows now id i payment_failed locked db after found h =
    change-Follows db after id (λ r. record r { failure_reason = some (failure_of i) }) locked found
      (λ x. refl) (ap (λ (d : SettlementDb). d.settlements) (sym (ok-value h))) stays
handle_found-Follows now id i other_event locked db after found h =
    same_rows-Follows db after (ap (λ (d : SettlementDb). d.settlements) (sym (ok-value h)))
handle_found-Follows now id i payment_succeeded locked db after found h =
    elim (Bool-cases (is_completed locked.status)) [
      | inl before ↦
          same_rows-Follows db after
            (ap (λ (d : SettlementDb). d.settlements) (sym (ok-value (rw before at h))))
      | inr unpaid ↦
          paid_row-Follows now (received_of i) (paid_row i) locked db after
            (found_own id db db locked locked found refl refl) (λ r. refl) (completes unpaid)
            (rw unpaid at h)
    ]

pub handle_intent-Follows :
    (now : ℕ) (i : Intent) (event : EventType) (db after : SettlementDb)
    → handle_intent now i event db ≡ ok after
    → Follows db after
unfolding handle_intent
handle_intent-Follows now i event db after h =
    let (id, _, h₁) = >>=-eq-ok _ _ h in
    let (locked, finding, h₂) = >>=-eq-ok _ _ h₁ in
    handle_found-Follows now id i event locked db after (or_throw-eq-ok _ _ finding) h₂
