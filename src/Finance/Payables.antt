-- ===== src/Finance/Payables.antt =====
-- Paying down a Tasker's debt to the platform, oldest receivable first: the loops over the open
-- receivables in releaseMatureEarning and applyPayableSettlement, and applyPayableSettlement
-- (src/modules/tasker-finance/tasker-finance.service.ts).
pub mod Laws
pub mod Order
pub mod Settling
pub mod Errors
use latache_backend.Prelude.{
  ℕ, ◌-◌, ◌+◌, Bool, true, false, ◌&&◌, Option, none, some, List, [], ◌∷◌, ◌++◌, ltb, ◌==◌, not,
  if◌then◌else◌, Result, ok, err, ◌>>=◌, ◌>>◌, throw_if, String, min, str_eq,
}
use latache_backend.Prelude.Int.{ℤ, pos, pos_part, ◌-ℤ◌, ◌+ℤ◌}
use latache_backend.Prelude.Rows.{put}
use latache_backend.Finance.{
  Db, Receivable, ReceivableStatus, outstanding, partially_settled, settled, PlatformEntry, Error,
  account_currency_mismatch, aggregate_inconsistent, amount_not_positive, settlement_payment,
  settlement_overpayment,
}
use latache_backend.Finance.Entries.{
  wallet_or_new, account_or_new, add_platform_entries, add_wallet_entry_if, min_ℤ,
}
use latache_backend.Finance.Restriction.{apply_restriction_policy}

abbrev pub is_open : ReceivableStatus → Bool
is_open outstanding = true
is_open partially_settled = true
is_open settled = false
is_open ReceivableStatus.partially_reversed = true
is_open ReceivableStatus.reversed = false

-- The `where` of the two queries.
abbrev pub is_selected : ℕ → Receivable → Bool
is_selected tasker r = r.tasker_id == tasker && (ltb 0 r.outstanding_amount && is_open r.status)

-- What one round of the loop pays; nothing once `remaining <= 0`, where the loop breaks.
abbrev pub portion_of : ℕ → ℕ → Receivable → ℕ
portion_of tasker remaining r =
    if is_selected tasker r then min remaining r.outstanding_amount else 0

-- The update of the row in that round.
abbrev pub pay_receivable : ℕ → ℕ → Receivable → Receivable
pay_receivable now portion r =
    let left = r.outstanding_amount - portion in
    if portion == 0 then r else record r {
      outstanding_amount = left;
      settled_amount = r.settled_amount + portion;
      status = if left == 0 then settled else partially_settled;
      settled_at = if left == 0 then some now else none;
    }

-- The loop: the rows after it, the ledger rows that it creates, and what remains unpaid.
module _ (now tasker : ℕ) (entry : Receivable → ℕ → PlatformEntry) where
  unfoldable pub pay_loop : ℕ → List Receivable → List Receivable × List PlatformEntry × ℕ
  pay_loop remaining [] = ([], [], remaining)
  pay_loop remaining (r ∷ rs) =
      let portion = portion_of tasker remaining r in
      let (rows, entries, rest) = pay_loop (remaining - portion) rs in
      (
        pay_receivable now portion r ∷ rows,
        if portion == 0 then entries else entry r portion ∷ entries,
        rest,
      )

abbrev pub settlement_entry : ℕ → ℕ → String → Receivable → ℕ → PlatformEntry
settlement_entry tasker settlement currency r portion = record {
  tasker_id = tasker;
  booking_id = r.booking_id;
  receivable_id = r.id;
  earning_id = none;
  kind = "settlement_payment";
  amount = portion;
  payable_delta = pos 0 -ℤ pos portion;
  currency = currency;
  idempotency_key = settlement_payment settlement r.id;
}

pub record Settlement : Type 0 where
  pub applied : ℤ
  pub overpayment : ℕ
  pub outstanding_after : ℤ

-- Where nothing is due the loop and the decrement change nothing, as the code that it skips.
unfoldable pub apply_payable_settlement :
    ℕ → ℕ → ℕ → ℕ → String → Db → Result Error (Db × Settlement)
unfolding add_wallet_entry_if
apply_payable_settlement now tasker settlement amount currency db = do
  throw_if (amount == 0) amount_not_positive
  let wallet = wallet_or_new currency (db.wallets tasker)
  let account = account_or_new currency (db.accounts tasker)
  throw_if (not (str_eq account.currency currency)) account_currency_mismatch
  let applied = min_ℤ (pos amount) account.outstanding_payable
  let due = pos_part applied
  let paid = pay_loop now tasker (settlement_entry tasker settlement currency) due db.receivables
  platform_ledger ← add_platform_entries paid.1 db.platform_ledger
  throw_if (ltb 0 paid.2) aggregate_inconsistent
  let overpayment = pos_part (pos amount -ℤ applied)
  wallet_ledger ←
      add_wallet_entry_if (ltb 0 overpayment)
        (record {
          tasker_id = tasker;
          booking_id = none;
          earning_id = none;
          kind = "platform_payable_overpayment";
          amount = overpayment;
          available_delta = pos overpayment;
          pending_delta = pos 0;
          currency = currency;
          idempotency_key = settlement_overpayment settlement;
        })
        db.wallet_ledger
  let credited = record wallet { available_balance = wallet.available_balance +ℤ pos overpayment }
  let charged = record account { outstanding_payable = account.outstanding_payable -ℤ pos due }
  let outstanding_after = account.outstanding_payable -ℤ applied
  after ←
      apply_restriction_policy now tasker outstanding_after
        db.policy.maximum_outstanding_platform_debt db.policy.block_cash_bookings_at_debt_limit
        (record db {
          wallets = put tasker credited db.wallets;
          accounts = put tasker charged db.accounts;
          receivables = paid.0;
          platform_ledger = platform_ledger;
          wallet_ledger = wallet_ledger;
        })
  ok (
    after,
    record { applied = applied; overpayment = overpayment; outstanding_after = outstanding_after },
  )
