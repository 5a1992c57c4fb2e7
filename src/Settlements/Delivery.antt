-- ===== src/Settlements/Delivery.antt =====
-- An event of Stripe that is delivered again: handleIntent of
-- src/modules/tasker-finance/platform-payable-settlements.service.ts.
use latache_backend.Settlements.{SettlementDb, SettlementRow, is_completed, has_settlement_id}
use latache_backend.Settlements.Webhook.{
  Intent, payment_succeeded, handle_found, handle_intent, receive_payment, received_of, paid_row,
}
use latache_backend.Prelude.{
  ℕ, ◌>>=◌, ◌≡◌, ok, some, >>=-eq-ok, true, Bool-cases, refl, or_throw-eq-ok, inl, ok-value, ap,
  sym, ◌∙◌, inr, ==_iff,
}
use latache_backend.Prelude.Rows.{find, find-holds}
use latache_backend.Settlements.Once.{completed-find}
use latache_backend.Settlements.Orderly.Requests.{found_own}

handled_again :
    (later id : ℕ) (i : Intent) (after : SettlementDb) (row : SettlementRow)
    → i.settlement_id ≡ some id
    → find (has_settlement_id id) after.settlements ≡ some row
    → is_completed row.status ≡ true
    → handle_intent later i payment_succeeded after ≡ ok after
unfolding handle_intent handle_found ◌>>=◌
handled_again later id i after row named found closed = rw (named, found, closed) refl

handle_found-find :
    (now id : ℕ) (i : Intent) (locked : SettlementRow) (db after : SettlementDb)
    → find (has_settlement_id id) db.settlements ≡ some locked
    → handle_found now i id locked payment_succeeded db ≡ ok after
    → (row : SettlementRow) × (find (has_settlement_id id) after.settlements ≡ some row)
      × (is_completed row.status ≡ true)
unfolding handle_found receive_payment
handle_found-find now id i locked db after found h =
    elim (Bool-cases (is_completed locked.status)) [
      | inl before ↦
          let same = ok-value (rw before at h) in
          (
            locked,
            ap (λ (d : SettlementDb). find (has_settlement_id id) d.settlements) (sym same) ∙ found,
            before,
          )
      | inr unpaid ↦
          let own = (==_iff locked.id id).0 (find-holds _ _ _ found) in
          let (row, again, closes) =
            completed-find now (received_of i) (paid_row i) locked db after
              (found_own id db db locked locked found refl refl) (λ r. refl) refl
              (rw unpaid at h) in
          (
            row,
            ap (λ j. find (has_settlement_id j) after.settlements) (sym own) ∙ again,
            ap is_completed closes,
          )
    ]

-- A payment that Stripe reports is settled once: the same event, or another one on the success of
-- the payment, changes nothing when it is delivered again, whenever.
pub handle_intent_once :
    (now later : ℕ) (i : Intent) (db after : SettlementDb)
    → handle_intent now i payment_succeeded db ≡ ok after
    → handle_intent later i payment_succeeded after ≡ ok after
unfolding handle_intent
handle_intent_once now later i db after h =
    let (id, named, h₁) = >>=-eq-ok _ _ h in
    let (locked, finding, h₂) = >>=-eq-ok _ _ h₁ in
    let (row, found, closed) =
      handle_found-find now id i locked db after (or_throw-eq-ok _ _ finding) h₂ in
    handled_again later id i after row (or_throw-eq-ok _ _ named) found closed
