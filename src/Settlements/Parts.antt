-- ===== src/Settlements/Parts.antt =====
-- What a completed payment of src/modules/tasker-finance/platform-payable-settlements.service.ts did.
use latache_backend.Prelude.{ℕ, Result, ◌≡◌, ok, ap, ok-value, err, arith, >>=-eq-ok, sym}
use latache_backend.Settlements.{
  SettlementDb, SettlementRow, complete, Error, lift, Settlement, update, has_settlement_id,
  settle_row, notify,
}
use latache_backend.Finance.Payables.Settling.{settlement_parts}
use latache_backend.Prelude.Int.{◌+ℤ◌, ◌-ℤ◌, ℤ, pos, pos_part}
use latache_backend.Finance.{Error, Db}
use latache_backend.Finance.Entries.{min_ℤ, account_or_new}
use latache_backend.Finance.Payables.{Settlement, apply_payable_settlement}
use latache_backend.Prelude.Rows.{update}

-- A payment splits into what pays the debt and what is credited back.
split_payment :
    (n : ℕ) (debt : ℤ) → min_ℤ (pos n) debt +ℤ pos (pos_part (pos n -ℤ min_ℤ (pos n) debt)) ≡ pos n
unfolding ◌+ℤ◌ ◌-ℤ◌
split_payment n debt = ground arith

pub lift-eq_ok {ℓ} : {A : Type ℓ} (m : Result Error A) {a : A} → lift m ≡ ok a → m ≡ ok a
lift-eq_ok (ok a) h = ap ok (ok-value h)
lift-eq_ok (err e) h = cc

module _ (now amount : ℕ) (row : SettlementRow) (db after : SettlementDb)
    (done : complete now row amount db ≡ ok after) where
  pub complete_parts :
      (paid : Db) × (result : Settlement) × (apply_payable_settlement now row.tasker_id row.id
          amount row.currency db.finance
        ≡ ok (paid, result))
      × (result.applied +ℤ pos result.overpayment ≡ pos amount)
      × (after.settlements
          ≡ update (has_settlement_id row.id) (settle_row now result) db.settlements)
      × (after.finance ≡ notify row.tasker_id "platform_payable_settlement_completed" row.id paid)
  unfolding complete
  complete_parts =
      let ((paid, result), settled, h₁) = >>=-eq-ok _ _ done in
      let run = lift-eq_ok _ settled in
      let last = ok-value h₁ in
      let parts =
        settlement_parts now row.tasker_id row.id amount row.currency db.finance paid result run in
      (
        paid,
        result,
        run,
        rw (parts.1, parts.2)
            (split_payment amount
              (account_or_new row.currency
                (db.finance.accounts row.tasker_id)).outstanding_payable),
        ap (λ (d : SettlementDb). d.settlements) (sym last),
        ap (λ (d : SettlementDb). d.finance) (sym last),
      )
