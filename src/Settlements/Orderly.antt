-- ===== src/Settlements/Orderly.antt =====
-- The invariant of the settlements of
-- src/modules/tasker-finance/platform-payable-settlements.service.ts, and what keeps it.
pub mod Requests
pub mod Reviews
pub mod Runs
use latache_backend.Prelude.{
  ℕ, Bool, ◌≡◌, List, All, ◌≤◌, if◌then◌else◌, ◌++◌, sum_of, any, ◌∷◌, true, [], false, some, arith,
  ok, ◌⊎◌, refl, All-append, sum_of-append, ◌∙◌, inl, ap, inr, ◌==◌, sym, ==_refl, Bool-cases,
  ==_iff,
}
use latache_backend.Settlements.{
  SettlementDb, completed, SettlementRow, is_completed, is_open_of, has_settlement_id, settle_row,
  complete, is_open, change_row,
}
use latache_backend.Finance.Payables.{Settlement}
use latache_backend.Prelude.Int.{◌+ℤ◌, pos}
use latache_backend.Prelude.Rows.{
  find, update, update-All, sum_of-update, update-update, update-append_fresh,
}
use latache_backend.Settlements.Parts.{complete_parts}

-- A completed payment is split to the cent into what paid the debt and what was credited back.
abbrev pub IsAccounted : SettlementRow → Type 0
IsAccounted r =
    is_completed r.status ≡ true → r.applied_amount +ℤ pos r.overpayment_amount ≡ pos r.amount

abbrev pub open_mark : ℕ → SettlementRow → ℕ
open_mark tasker r = if is_open_of tasker r then 1 else 0

abbrev pub open_count : ℕ → List SettlementRow → ℕ
open_count tasker = sum_of (open_mark tasker)

-- Every completed payment is accounted for, and nobody has two open ones.
pub record IsOrderly (db : SettlementDb) : Type 0 where
  pub accounted : All IsAccounted db.settlements
  pub single : (tasker : ℕ) → open_count tasker db.settlements ≤ 1

pub same_rows-IsOrderly :
    (db after : SettlementDb) → after.settlements ≡ db.settlements → IsOrderly db → IsOrderly after
same_rows-IsOrderly db after same o = record {
  accounted = rw same o.accounted;
  single = λ t. rw same (o.single t);
}

-- A change of one row that opens nothing.
pub change-IsOrderly :
    (id : ℕ) (g : SettlementRow → SettlementRow) (db after : SettlementDb) (r : SettlementRow)
    → find (has_settlement_id id) db.settlements ≡ some r
    → after.settlements ≡ update (has_settlement_id id) g db.settlements
    → IsAccounted (g r)
    → ((tasker : ℕ) → open_mark tasker (g r) ≤ open_mark tasker r)
    → IsOrderly db
    → IsOrderly after
change-IsOrderly id g db after r found changed accounted closed o = record {
  accounted = rw changed (
      update-All IsAccounted (has_settlement_id id) g db.settlements r found accounted o.accounted);
  single = λ t.
      let sums = sum_of-update (open_mark t) (has_settlement_id id) g db.settlements r found in
      rw changed (omega (arith, sums, closed t, o.single t));
}

open_count-none :
    (tasker : ℕ) (rows : List SettlementRow)
    → any (is_open_of tasker) rows ≡ false
    → open_count tasker rows ≡ 0
open_count-none tasker [] h = refl
open_count-none tasker (r ∷ rs) h = ground (arith, open_count-none tasker rs)

-- A new row, which is closed or whose Tasker had no open one.
pub append-IsOrderly :
    (db after : SettlementDb) (r : SettlementRow)
    → after.settlements ≡ db.settlements ++ r ∷ []
    → IsAccounted r
    → (is_open r.status ≡ false) ⊎ (any (is_open_of r.tasker_id) db.settlements ≡ false)
    → IsOrderly db
    → IsOrderly after
append-IsOrderly db after r added accounted fits o = record {
  accounted = rw added (All-append IsAccounted db.settlements (r ∷ []) o.accounted (accounted, tt));
  single = λ t.
      let sums = sum_of-append (open_mark t) db.settlements (r ∷ []) in
      rw added (elim fits [
        | inl closed ↦
            let nothing : open_mark t r ≡ 0 = ground arith in
            omega (arith, sums, nothing, o.single t)
        | inr none_open ↦ elim (Bool-cases (r.tasker_id == t)) [
          | inl own ↦
              let same : r.tasker_id ≡ t = (==_iff r.tasker_id t).0 own in
              let empty : open_count t db.settlements ≡ 0 =
                rw (← same) (open_count-none r.tasker_id db.settlements none_open) in
              ground (arith, sums, empty)
          | inr other ↦
              let nothing : open_mark t r ≡ 0 = ground arith in
              omega (arith, sums, nothing, o.single t)
        ]
      ]);
}

settle_row-IsAccounted :
    (now : ℕ) (result : Settlement) (r : SettlementRow)
    → result.applied +ℤ pos result.overpayment ≡ pos r.amount
    → IsAccounted (settle_row now result r)
settle_row-IsAccounted now result r h = λ _. h

-- A row that is marked as paid and completed in one transaction.
pub paid_row-IsOrderly :
    (now amount : ℕ) (g : SettlementRow → SettlementRow) (locked : SettlementRow)
    (db after : SettlementDb)
    → find (has_settlement_id locked.id) db.settlements ≡ some locked
    → ((r : SettlementRow) → (g r).id ≡ r.id)
    → (g locked).amount ≡ amount
    → (g locked).status ≡ completed
    → complete now (record locked { amount = amount }) amount (change_row locked.id g db) ≡ ok after
    → IsOrderly db
    → IsOrderly after
paid_row-IsOrderly now amount g locked db after found keeps priced closes done o =
    let (paid, result, run, split, rows, books_after) =
      complete_parts now amount (record locked { amount = amount }) (change_row locked.id g db)
        after done in
    let both =
      update-update (has_settlement_id locked.id) g (settle_row now result) db.settlements
        (λ r. ap (λ i. i == locked.id) (keeps r)) in
    change-IsOrderly locked.id (λ r. settle_row now result (g r)) db after locked found
      (rows ∙ both) (settle_row-IsAccounted now result (g locked) (split ∙ ap pos (sym priced)))
      (λ t. ground arith) o

-- A new row that is completed in the transaction that inserts it.
pub new_row-IsOrderly :
    (now : ℕ) (row : SettlementRow) (db debited after : SettlementDb)
    → row.status ≡ completed
    → any (has_settlement_id row.id) db.settlements ≡ false
    → debited.settlements ≡ db.settlements ++ row ∷ []
    → complete now row row.amount debited ≡ ok after
    → IsOrderly db
    → IsOrderly after
new_row-IsOrderly now row db debited after closes fresh added done o =
    let (paid, result, run, split, rows, books_after) =
      complete_parts now row.amount row debited after done in
    append-IsOrderly db after (settle_row now result row)
      (rows
        ∙ ap (update (has_settlement_id row.id) (settle_row now result)) added
        ∙ update-append_fresh (has_settlement_id row.id) (settle_row now result) db.settlements row
            fresh (==_refl row.id))
      (settle_row-IsAccounted now result row split) (inl (ap is_open closes)) o
