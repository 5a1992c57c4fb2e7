-- ===== src/Settlements/Life/Requests.antt =====
-- The requests of src/modules/tasker-finance/platform-payable-settlements.service.ts follow the life of
-- a settlement.
use latache_backend.Settlements.{
  SettlementDb, SettlementRow, complete, pay_from_wallet, settle_row, has_settlement_id, is_open,
  cancelled, pending_payment,
}
use latache_backend.Settlements.Life.{
  Follows, cancels, stays, change-Follows, append-Follows, Follows-trans, same_rows-Follows,
}
use latache_backend.Settlements.Requests.{
  create_transaction, attach_intent, StripeReply, SettlementInput, new_settlement, intent_created,
  intent_refused, status_for, create, cancel, cancel_locked, IntentStatus,
}
use latache_backend.Prelude.{
  ℕ, Bool, any, String, ◌≡◌, ok, false, some, ◌++◌, >>=-eq-ok, true, ◌∷◌, [], if◌then◌else◌, ap,
  str_eq, ◌∙◌, sym, ok-injective, refl, ok-value, ==_refl, or_throw-eq-ok, ◌==◌, some-value,
  Bool-cases, inl, inr, eq_iff, not-false, throw_if-eq_ok,
}
use latache_backend.Prelude.Rows.{find, update, update-append_fresh, find-append-none, find-any}
use latache_backend.Settlements.Orderly.Requests.{insert_settlement_rows, found_own}
use latache_backend.Settlements.Parts.{complete_parts}
use latache_backend.Settlements.Outcomes.{create-keeps}

-- The row that a creation leaves behind: the new row, settled if it is paid out of the wallet.
pub record IsCreated (row : SettlementRow) (wallet : Bool) (db paid : SettlementDb)
    (created : SettlementRow) : Type 0 where
  pub rows : paid.settlements ≡ db.settlements ++ created ∷ []
  pub same_id : created.id ≡ row.id
  pub same_method : created.method ≡ row.method
  pub unpaid : wallet ≡ false → created ≡ row

pub completed_row-IsCreated :
    (now : ℕ) (row : SettlementRow) (db debited after : SettlementDb)
    → any (has_settlement_id row.id) db.settlements ≡ false
    → debited.settlements ≡ db.settlements ++ row ∷ []
    → complete now row row.amount debited ≡ ok after
    → (created : SettlementRow) × IsCreated row true db after created
completed_row-IsCreated now row db debited after fresh added done =
    let (paid, result, run, split, rows, books_after) =
      complete_parts now row.amount row debited after done in
    (
      settle_row now result row,
      record {
        rows =
            rows
            ∙ ap (update (has_settlement_id row.id) (settle_row now result)) added
            ∙ update-append_fresh (has_settlement_id row.id) (settle_row now result) db.settlements
                row fresh (==_refl row.id);
        same_id = refl;
        same_method = refl;
        unpaid = λ c. cc;
      },
    )

paid_or_open-IsCreated :
    (now : ℕ) (wallet : Bool) (row : SettlementRow) (db inserted paid : SettlementDb)
    → any (has_settlement_id row.id) db.settlements ≡ false
    → inserted.settlements ≡ db.settlements ++ row ∷ []
    → (if wallet then pay_from_wallet now row inserted else ok inserted) ≡ ok paid
    → (created : SettlementRow) × IsCreated row wallet db paid created
unfolding pay_from_wallet
paid_or_open-IsCreated now true row db inserted paid fresh rows h =
    let (debited, _, done) = >>=-eq-ok _ _ h in
    completed_row-IsCreated now row db (record inserted { finance = debited }) paid fresh rows done
paid_or_open-IsCreated now false row db inserted paid fresh rows h = (
  row,
  record {
    rows = ap (λ (d : SettlementDb). d.settlements) (sym (ok-value h)) ∙ rows;
    same_id = refl;
    same_method = refl;
    unpaid = λ _. refl;
  },
)

card_or_wallet :
    (method : String) → str_eq method "wallet" ≡ true → str_eq method "stripe" ≡ true → ⊥
card_or_wallet method h k = let e = (eq_iff method "wallet").0 h in cc (rw e at k)

-- What a creation returns, where it is a card payment, is open.
created_open :
    (row created answer : SettlementRow) (db paid after : SettlementDb)
    → row.status ≡ status_for row.method
    → any (has_settlement_id row.id) db.settlements ≡ false
    → IsCreated row (str_eq row.method "wallet") db paid created
    → find (has_settlement_id row.id) paid.settlements ≡ some answer
    → str_eq answer.method "stripe" ≡ true
    → is_open answer.status ≡ true
created_open row created answer db paid after status fresh c found card =
    let there : find (has_settlement_id row.id) paid.settlements ≡ some created =
      ap (find (has_settlement_id row.id)) c.rows
      ∙ find-append-none (has_settlement_id row.id) db.settlements created
          (find-any (has_settlement_id row.id) db.settlements fresh)
          (ap (λ i. i == row.id) c.same_id ∙ ==_refl row.id) in
    let one : answer ≡ created = some-value (sym found ∙ there) in
    let by_card : str_eq row.method "stripe" ≡ true =
      ap (λ m. str_eq m "stripe") (sym (ap (λ (x : SettlementRow). x.method) one ∙ c.same_method))
      ∙ card in
    elim (Bool-cases (str_eq row.method "wallet")) [
      | inl wallet ↦ absurd (card_or_wallet row.method wallet by_card)
      | inr other ↦
          let pending : status_for row.method ≡ pending_payment = rw (other, by_card) refl in
          ap (λ (x : SettlementRow). is_open x.status) (one ∙ c.unpaid other)
          ∙ ap is_open (status ∙ pending)
    ]

create_transaction-Follows :
    (id now tasker : ℕ) (input : SettlementInput) (key : String) (db after : SettlementDb)
    (row : SettlementRow)
    → create_transaction id now tasker input key db ≡ ok (after, row)
    → Follows db after
      × (find (has_settlement_id row.id) after.settlements ≡ some row)
      × (str_eq row.method "stripe" ≡ true → is_open row.status ≡ true)
unfolding create_transaction
create_transaction-Follows id now tasker input key db after row done =
    let ((amount, currency), checked, h₁) = >>=-eq-ok _ _ done in
    let (inserted, insertion, h₂) = >>=-eq-ok _ _ h₁ in
    let (paid, payment, h₃) = >>=-eq-ok _ _ h₂ in
    let (found, finding, h₄) = >>=-eq-ok _ _ h₃ in
    let new = new_settlement id tasker input key amount currency in
    let (fresh, added) = insert_settlement_rows new db inserted insertion in
    let rows = ap (λ (d : SettlementDb). d.settlements) added in
    let (created, c) =
      paid_or_open-IsCreated now (str_eq input.method "wallet") new db inserted paid fresh rows
        payment in
    let (last, answer) = ok-injective h₄ in
    (
      Follows-trans db paid after (append-Follows db paid created c.rows)
          (same_rows-Follows paid after (ap (λ (d : SettlementDb). d.settlements) (sym last))),
      found_own id _ after found row (or_throw-eq-ok _ _ finding) last answer,
      created_open new created row db paid after refl fresh c
          (or_throw-eq-ok _ _ finding ∙ ap some answer),
    )

attach_intent-Follows :
    (reply : StripeReply) (row : SettlementRow) (db : SettlementDb)
    → find (has_settlement_id row.id) db.settlements ≡ some row
    → is_open row.status ≡ true
    → Follows db (attach_intent reply row db).0
unfolding attach_intent
attach_intent-Follows (intent_created intent) row db found unpaid =
    change-Follows db (attach_intent (intent_created intent) row db).0 row.id
      (λ r. record r { provider_reference = some intent }) row found (λ x. refl) refl stays
attach_intent-Follows (intent_refused message) row db found unpaid =
    change-Follows db (attach_intent (intent_refused message) row db).0 row.id
      (λ r. record r { status = cancelled; failure_reason = some message }) row found (λ x. refl)
      refl (cancels unpaid)

pub create-Follows :
    (id now tasker : ℕ) (input : SettlementInput) (value : String) (reply : StripeReply)
    (db : SettlementDb)
    → Follows db (create id now tasker input value reply db).0
create-Follows id now tasker input value reply db =
    create-keeps (Follows db) id now tasker input value reply db (same_rows-Follows db db refl)
      (λ key after row done.
        let (kept, found, unpaid) =
          create_transaction-Follows id now tasker input key db after row done in
        (
          kept,
          λ card.
              Follows-trans db after (attach_intent reply row after).0 kept
                (attach_intent-Follows reply row after found (unpaid card)),
        ))

pub cancel-Follows :
    (tasker id : ℕ) (intent : IntentStatus) (db after : SettlementDb)
    → cancel tasker id intent db ≡ ok after
    → Follows db after
unfolding cancel cancel_locked
cancel-Follows tasker id intent db after h =
    let (row, _, h₁) = >>=-eq-ok _ _ h in
    let (_, _, h₂) = >>=-eq-ok _ _ h₁ in
    let (_, _, h₃) = >>=-eq-ok _ _ h₂ in
    let (_, _, h₄) = >>=-eq-ok _ _ h₃ in
    let (locked, finding, h₅) = >>=-eq-ok _ _ h₄ in
    let (_, unpaid, h₆) = >>=-eq-ok _ _ h₅ in
    change-Follows db after id (λ r. record r { status = cancelled }) locked
      (or_throw-eq-ok _ _ finding) (λ x. refl)
      (ap (λ (d : SettlementDb). d.settlements) (sym (ok-value h₆)))
      (cancels (not-false _ (throw_if-eq_ok _ _ unpaid)))
