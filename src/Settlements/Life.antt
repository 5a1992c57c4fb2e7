-- ===== src/Settlements/Life.antt =====
-- The life of a settlement, as an abstract machine on its status, and how the rows of
-- src/modules/tasker-finance/platform-payable-settlements.service.ts follow it.
pub mod Requests
pub mod Reviews
pub mod Runs
use mathlib.Core.Path.{subst}
use latache_backend.Settlements.{
  SettlementDb, SettlementRow, SettlementStatus, has_settlement_id, is_open, is_completed,
  is_pending_review, rejected, cancelled, completed,
}
use latache_backend.Prelude.{
  ◌≡◌, ℕ, false, ap, ◌++◌, true, some, arith, ◌∙◌, ◌∷◌, [], Bool-cases, ◌==◌, inl, ==_iff, sym,
  some-value, inr, ◌≢◌,
}
use latache_backend.Prelude.Rows.{
  find, update, find-append-some, find-holds, find-update, find-update-other,
}

-- One move: an open settlement may be cancelled, one in review be rejected, and each that is not
-- completed may be completed, since money that Stripe took is honoured. A completed one stays.
pub data Move : SettlementStatus → SettlementStatus → Type 0 where
  stays : {s : SettlementStatus} → Move s s
  completes : {s : SettlementStatus} → is_completed s ≡ false → Move s completed
  rejects : {s : SettlementStatus} → is_pending_review s ≡ true → Move s rejected
  cancels : {s : SettlementStatus} → is_open s ≡ true → Move s cancelled

-- Moves one after another.
pub data Course : SettlementStatus → SettlementStatus → Type 0 where
  rests : {s : SettlementStatus} → Course s s
  moves : {s t u : SettlementStatus} → Move s t → Course t u → Course s u

-- A completed settlement stays completed.
pub Course-completed :
    {s t : SettlementStatus} → Course s t → is_completed s ≡ true → is_completed t ≡ true
Course-completed rests h = h
Course-completed (moves stays c) h = Course-completed c h
Course-completed (moves (completes f) c) h = cc
Course-completed (moves (rejects f) c) h = ground arith
Course-completed (moves (cancels f) c) h = ground arith

pub joined : {s t u : SettlementStatus} → Course s t → Course t u → Course s u
joined rests d = d
joined (moves m c) d = moves m (joined c d)

-- No row is lost, and each row's status takes a course of the machine.
abbrev pub Follows : SettlementDb → SettlementDb → Type 0
Follows db after =
    (id : ℕ) (r : SettlementRow)
    → find (has_settlement_id id) db.settlements ≡ some r
    → (r' : SettlementRow) × (find (has_settlement_id id) after.settlements ≡ some r')
      × Course r.status r'.status

module _ (db after : SettlementDb) where
  pub same_rows-Follows : after.settlements ≡ db.settlements → Follows db after
  same_rows-Follows same id r h = (r, ap (find (has_settlement_id id)) same ∙ h, rests)

  pub append-Follows :
      (row : SettlementRow) → after.settlements ≡ db.settlements ++ row ∷ [] → Follows db after
  append-Follows row added id r h = (
    r,
    ap (find (has_settlement_id id)) added
        ∙ find-append-some (has_settlement_id id) db.settlements (row ∷ []) r h,
    rests,
  )

  -- One row changes by a move.
  pub change-Follows :
      (key : ℕ) (g : SettlementRow → SettlementRow) (row : SettlementRow)
      → find (has_settlement_id key) db.settlements ≡ some row
      → ((x : SettlementRow) → (g x).id ≡ x.id)
      → after.settlements ≡ update (has_settlement_id key) g db.settlements
      → Move row.status (g row).status
      → Follows db after
  change-Follows key g row found keeps changed move id r h = elim (Bool-cases (id == key)) [
    | inl own ↦
        let same = (==_iff id key).0 own in
        let at_key : find (has_settlement_id key) db.settlements ≡ some r =
          ap (λ i. find (has_settlement_id i) db.settlements) (sym same) ∙ h in
        let one : row ≡ r = some-value (sym found ∙ at_key) in
        let stays_there : has_settlement_id key (g row) ≡ true =
          ap (λ i. i == key) (keeps row) ∙ find-holds _ _ _ found in
        (
          g row,
          ap (find (has_settlement_id id)) changed
              ∙ ap
                  (λ i.
                    find (has_settlement_id i) (update (has_settlement_id key) g db.settlements))
                  same
              ∙ find-update (has_settlement_id key) g db.settlements row found stays_there,
          subst (λ (x : SettlementRow). Course x.status (g row).status) one (moves move rests),
        )
    | inr other ↦
        let row_id = (==_iff row.id key).0 (find-holds _ _ _ found) in
        let r_id = (==_iff r.id id).0 (find-holds _ _ _ h) in
        let differ : row ≢ r = λ e.
          let ids : id ≡ key = sym r_id ∙ ap (λ (x : SettlementRow). x.id) (sym e) ∙ row_id in
          cc (other, (==_iff id key).1 ids) in
        (
          r,
          ap (find (has_settlement_id id)) changed
              ∙ find-update-other (has_settlement_id key) (has_settlement_id id) g db.settlements
                  row r (λ x. ap (λ i. i == id) (keeps x)) found h differ,
          rests,
        )
  ]

pub Follows-trans :
    (db between after : SettlementDb)
    → Follows db between
    → Follows between after
    → Follows db after
Follows-trans db between after f g id r h =
    let (r', found, course) = f id r h in
    let (r'', found', course') = g id r' found in (r'', found', joined course course')
