-- ===== src/Settlements/Once.antt =====
-- A settlement is decided once: approve, reject, cancel and handleIntent of
-- src/modules/tasker-finance/platform-payable-settlements.service.ts after one another.
use latache_backend.Settlements.{
  SettlementDb, SettlementRow, is_open, has_settlement_id, settle_row, complete, SettlementError,
  not_in_review, already_closed, completed, is_pending_review, change_row, cancelled,
}
use latache_backend.Settlements.Reviews.{approve, reject, approve_row}
use latache_backend.Prelude.{
  ℕ, Result, Option, ◌>>=◌, ◌≡◌, String, some, ok, err, >>=-eq-ok, false, or_throw-eq-ok, true, ap,
  arith, ==_iff, refl, ◌==◌, sym, ok-value, ◌∙◌, ==_refl,
}
use latache_backend.Settlements.Requests.{cancel_locked, amount_or}
use latache_backend.Prelude.Rows.{find, find-holds, find-update}
use latache_backend.Prelude.Int.{ℤ, pos_part, pos}
use latache_backend.Settlements.Parts.{complete_parts}
use latache_backend.Settlements.Orderly.Requests.{found_own}

-- No decision is taken on a row that is closed.
closed_refuses :
    (id : ℕ) (db : SettlementDb) (row : SettlementRow)
    → find (has_settlement_id id) db.settlements ≡ some row
    → is_open row.status ≡ false
    → ((now admin : ℕ) (amount : Option ℤ) (note : Option String)
        → approve now admin id amount note db ≡ err not_in_review)
      × ((now admin : ℕ) (note : String) → reject now admin id note db ≡ err not_in_review)
      × ((tasker : ℕ) → cancel_locked tasker id db ≡ err already_closed)
unfolding approve reject cancel_locked ◌>>=◌
closed_refuses id db row found closed =
    let unreviewed : is_pending_review row.status ≡ false = ground arith in
    (
      λ now admin amount note. rw (found, unreviewed) refl,
      λ now admin note. rw (found, unreviewed) refl,
      λ tasker. rw (found, closed) refl,
    )

-- A completed payment is found closed again.
pub completed-find :
    (now amount : ℕ) (g : SettlementRow → SettlementRow) (locked : SettlementRow)
    (db after : SettlementDb)
    → find (has_settlement_id locked.id) db.settlements ≡ some locked
    → ((r : SettlementRow) → (g r).id ≡ r.id)
    → (g locked).status ≡ completed
    → complete now (record locked { amount = amount }) amount (change_row locked.id g db) ≡ ok after
    → (row : SettlementRow) × (find (has_settlement_id locked.id) after.settlements ≡ some row)
      × (row.status ≡ completed)
completed-find now amount g locked db after found keeps closes done =
    let (paid, result, run, split, rows, books_after) =
      complete_parts now amount (record locked { amount = amount }) (change_row locked.id g db)
        after done in
    let own : has_settlement_id locked.id (g locked) ≡ true =
      ap (λ i. i == locked.id) (keeps locked) ∙ ==_refl locked.id in
    let marked = find-update (has_settlement_id locked.id) g db.settlements locked found own in
    (
      settle_row now result (g locked),
      ap (find (has_settlement_id locked.id)) rows
          ∙ find-update (has_settlement_id locked.id) (settle_row now result) _ (g locked) marked
              own,
      closes,
    )

approve-find :
    (now admin id : ℕ) (amount : Option ℤ) (note : Option String) (db after : SettlementDb)
    → approve now admin id amount note db ≡ ok after
    → (row : SettlementRow) × (find (has_settlement_id id) after.settlements ≡ some row)
      × (is_open row.status ≡ false)
unfolding approve
approve-find now admin id amount note db after h =
    let (locked, finding, h₁) = >>=-eq-ok _ _ h in
    let (_, _, h₂) = >>=-eq-ok _ _ h₁ in
    let (_, _, h₃) = >>=-eq-ok _ _ h₂ in
    let (paid, payment, h₄) = >>=-eq-ok _ _ h₃ in
    let found = or_throw-eq-ok _ _ finding in
    let own = (==_iff locked.id id).0 (find-holds _ _ _ found) in
    let received = pos_part (amount_or amount (pos locked.amount)) in
    let (row, again, closes) =
      completed-find now received (approve_row now admin received note) locked db paid
        (found_own id db db locked locked found refl refl) (λ r. refl) refl
        (ap
            (λ i.
              complete now (record locked { amount = received }) received
                (change_row i (approve_row now admin received note) db))
            own
          ∙ payment) in
    (
      row,
      ap (λ (d : SettlementDb). find (has_settlement_id id) d.settlements) (sym (ok-value h₄))
          ∙ ap (λ i. find (has_settlement_id i) paid.settlements) (sym own)
          ∙ again,
      ap is_open closes,
    )

reject-find :
    (now admin id : ℕ) (note : String) (db after : SettlementDb)
    → reject now admin id note db ≡ ok after
    → (row : SettlementRow) × (find (has_settlement_id id) after.settlements ≡ some row)
      × (is_open row.status ≡ false)
unfolding reject
reject-find now admin id note db after h =
    let (locked, finding, h₁) = >>=-eq-ok _ _ h in
    let (_, _, h₂) = >>=-eq-ok _ _ h₁ in
    let found = or_throw-eq-ok _ _ finding in
    (
      _,
      ap (λ (d : SettlementDb). find (has_settlement_id id) d.settlements) (sym (ok-value h₂))
          ∙ find-update (has_settlement_id id) _ db.settlements locked found
              (find-holds _ _ _ found),
      refl,
    )

cancel-find :
    (tasker id : ℕ) (db after : SettlementDb)
    → cancel_locked tasker id db ≡ ok after
    → (row : SettlementRow) × (find (has_settlement_id id) after.settlements ≡ some row)
      × (is_open row.status ≡ false)
unfolding cancel_locked
cancel-find tasker id db after h =
    let (locked, finding, h₁) = >>=-eq-ok _ _ h in
    let (_, _, h₂) = >>=-eq-ok _ _ h₁ in
    let found = or_throw-eq-ok _ _ finding in
    (
      _,
      ap (λ (d : SettlementDb). find (has_settlement_id id) d.settlements) (sym (ok-value h₂))
          ∙ find-update (has_settlement_id id) (λ r. record r { status = cancelled }) db.settlements
              locked found (find-holds _ _ _ found),
      refl,
    )

-- The three decisions on an open settlement; a request throws where the decision does.
pub data Decision : Type 0 where
  approval : ℕ → ℕ → Option ℤ → Option String → Decision
  rejection : ℕ → ℕ → String → Decision
  cancellation : ℕ → Decision

unfoldable pub decide : Decision → ℕ → SettlementDb → Result SettlementError SettlementDb
decide (approval now admin amount note) id db = approve now admin id amount note db
decide (rejection now admin note) id db = reject now admin id note db
decide (cancellation tasker) id db = cancel_locked tasker id db

decide-find :
    (d : Decision) (id : ℕ) (db after : SettlementDb)
    → decide d id db ≡ ok after
    → (row : SettlementRow) × (find (has_settlement_id id) after.settlements ≡ some row)
      × (is_open row.status ≡ false)
unfolding decide
decide-find (approval now admin amount note) id db after h =
    approve-find now admin id amount note db after h
decide-find (rejection now admin note) id db after h = reject-find now admin id note db after h
decide-find (cancellation tasker) id db after h = cancel-find tasker id db after h

abbrev pub refusal_of : Decision → SettlementError
refusal_of (approval now admin amount _) = not_in_review
refusal_of (rejection now admin note) = not_in_review
refusal_of (cancellation tasker) = already_closed

-- Once a settlement was approved, rejected or cancelled, no second decision on it is taken.
pub decide_once :
    (d e : Decision) (id : ℕ) (db after : SettlementDb)
    → decide d id db ≡ ok after
    → decide e id after ≡ err (refusal_of e)
unfolding decide
decide_once d (approval now admin amount note) id db after h =
    let (row, found, closed) = decide-find d id db after h in
    (closed_refuses id after row found closed).0 now admin amount note
decide_once d (rejection now admin note) id db after h =
    let (row, found, closed) = decide-find d id db after h in
    (closed_refuses id after row found closed).1 now admin note
decide_once d (cancellation tasker) id db after h =
    let (row, found, closed) = decide-find d id db after h in
    (closed_refuses id after row found closed).2 tasker
