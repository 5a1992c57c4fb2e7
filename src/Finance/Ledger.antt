-- ===== src/Finance/Ledger.antt =====
-- The invariants of the receivables and platform accounts of
-- src/modules/tasker-finance/tasker-finance.service.ts.
use latache_backend.Prelude.{ℕ, ◌+◌, ◌≤◌, ◌≡◌, false, List, sum_of, All, if◌then◌else◌}
use latache_backend.Prelude.Int.{pos}
use latache_backend.Finance.{Db, Receivable}
use latache_backend.Finance.Restriction.{outstanding_of}
use latache_backend.Finance.Payables.{is_open, is_selected}

-- A receivable is never reversed or paid beyond its original amount, every cent of it is still
-- owed, paid or reversed, and nothing is owed on a closed one.
pub record IsSound (r : Receivable) : Type 0 where
  pub within_original : r.outstanding_amount + r.reversed_amount ≤ r.original_payable_amount
  pub paid_within : r.outstanding_amount + r.settled_amount ≤ r.original_payable_amount
  pub accounted :
      r.original_payable_amount ≤ r.outstanding_amount + r.settled_amount + r.reversed_amount
  pub closed_empty : is_open r.status ≡ false → r.outstanding_amount ≡ 0

-- What a row adds to the debt that the loops can pay for a Tasker.
abbrev pub open_amount : ℕ → Receivable → ℕ
open_amount tasker r = if is_selected tasker r then r.outstanding_amount else 0

abbrev pub open_total : ℕ → List Receivable → ℕ
open_total tasker = sum_of (open_amount tasker)

-- Every receivable is sound, and the balance of the Tasker's account is the sum of what is owed on
-- the receivables.
pub record IsConsistent (tasker : ℕ) (db : Db) : Type 0 where
  pub sound : All IsSound db.receivables
  pub totalled : outstanding_of (db.accounts tasker) ≡ pos (open_total tasker db.receivables)
