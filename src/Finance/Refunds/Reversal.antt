-- ===== src/Finance/Refunds/Reversal.antt =====
-- What a refund of cash reverses of the Tasker's debt:
-- applyConfirmedCashRefundReceivableReversal.
use latache_backend.Prelude.{
  ℕ, ◌+◌, ◌-◌, ◌≤◌, ◌≡◌, ok, none, some, String, min, Bool, arith, ◌>>=◌, ◌==◌,
}
use latache_backend.Prelude.Int.{pos, ◌+ℤ◌}
use latache_backend.Prelude.Rows.{find}
use latache_backend.Finance.{Db, Receivable, same_platform_key, receivable_reversal}
use latache_backend.Finance.Ledger.{IsConsistent, IsSound, open_total}
use latache_backend.Finance.Refunds.{
  reverse_receivable, lower_payable, reimburse, reverse_cash_receivable, reversal_of, Reversed,
}
use latache_backend.Finance.Entries.{add_wallet_entry}
use latache_backend.Finance.Earnings.{owed_by_booking}
use latache_backend.Finance.Coverage.{available_of, pending_of}
use latache_backend.Finance.Refunds.Reimbursement.{given_back}

abbrev pub has_receivable_id : ℕ → Receivable → Bool
has_receivable_id id row = row.id == id

module _ (reversal : ℕ) (r : Receivable) (s : IsSound r)
    (within : reversal ≤ r.original_payable_amount - r.reversed_amount) where
  abbrev reversed_row : Receivable
  reversed_row = reverse_receivable reversal (min r.outstanding_amount reversal) r

pub lower_receivables :
    (r : Receivable) (amount : ℕ) (db after : Db)
    → lower_payable r amount db ≡ ok after
    → after.receivables ≡ db.receivables
unfolding lower_payable ◌>>=◌
lower_receivables r amount db after h = ground arith

pub reimburse_parts :
    (r : Receivable) (amount : ℕ) (reference : String) (db after : Db)
    → reimburse r amount reference db ≡ ok after
    → (after.accounts ≡ db.accounts) × (after.receivables ≡ db.receivables)
unfolding reimburse ◌>>=◌ add_wallet_entry
reimburse_parts r amount reference db after h = (ground arith, ground arith)

-- The amount that is reversed, the part of it that is given back to the Tasker, the wallet and the
-- debt.
pub record IsReversed (reference : String) (out : Reversed) (r : Receivable) (db after : Db)
    : Type 0 where
  pub within_payable : out.reversal_amount ≤ r.original_payable_amount - r.reversed_amount
  pub shared :
      open_total r.tasker_id after.receivables + out.reversal_amount
      ≡ open_total r.tasker_id db.receivables + out.reimbursement_amount
  pub settled_part : out.reimbursement_amount ≡ out.reversal_amount - r.outstanding_amount
  pub credited :
      available_of (after.wallets r.tasker_id)
      ≡ available_of (db.wallets r.tasker_id)
        +ℤ pos (given_back reference out.reimbursement_amount db)
  pub pending_kept : pending_of (after.wallets r.tasker_id) ≡ pending_of (db.wallets r.tasker_id)
  pub consistent : IsConsistent r.tasker_id after

module _ (prorate : ℕ → ℕ → ℕ → ℕ) (booking amount : ℕ) (reference : String) (db after : Db)
    (r : Receivable) (out : Reversed)
    (found : find (owed_by_booking booking) db.receivables ≡ some r)
    (keyed : find (has_receivable_id r.id) db.receivables ≡ some r)
    (fresh : find
        (λ e. same_platform_key e.idempotency_key (receivable_reversal reference))
        db.platform_ledger
      ≡ none)
    (c : IsConsistent r.tasker_id db)
    (done : reverse_cash_receivable prorate booking reference amount db ≡ ok (after, out)) where
  abbrev reversal : ℕ
  reversal = reversal_of prorate amount r
