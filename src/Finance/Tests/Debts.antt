-- ===== src/Finance/Tests/Debts.antt =====
-- Runs of the payments of a Tasker's debt, of refunds and of the restriction on the sample rows.
use latache_backend.Prelude.{
  ◌≡◌, refl, ok, err, true, ◌++◌, arith, ◌>>=◌, [], ◌∷◌, ◌↔◌, ◌≢◌, if◌then◌else◌, ◌==◌, some, none,
}
use latache_backend.Prelude.Int.{pos, ◌-ℤ◌, ◌+ℤ◌}
use latache_backend.Finance.{
  Db, Receivable, cash_restricted, aggregate_inconsistent, partially_settled,
}
use latache_backend.Finance.Payables.{
  pay_loop, Settlement, apply_payable_settlement, settlement_entry,
}
use latache_backend.Finance.Tests.{
  sample_receivable, db_of, books, part_of, books-IsConsistent, earned_booking, sample_earning,
  books-IsCovered, sample_account,
}
use latache_backend.Finance.Refunds.{
  apply_refund_adjustment, clawback_of, Reversed, reverse_cash_receivable, take_back, reversal_of,
  reverse_locked, lower_payable, reimburse,
}
use latache_backend.Finance.Ledger.{open_total, IsConsistent}
use latache_backend.Finance.Restriction.Laws.{flag_of, reconcile_account_agrees}
use latache_backend.Finance.Restriction.{
  reconcile_account, assert_cash_booking_allowed, apply_restriction_policy,
}
use latache_backend.Finance.Entries.{add_platform_entries, add_wallet_entry, add_wallet_entry_if}
use latache_backend.Finance.Refunds.Clawback.{IsTakenBack, apply_refund_adjustment_bounds}
use latache_backend.Finance.Payables.Order.{pay_loop_oldest_first}
use latache_backend.Finance.Payables.Settling.{apply_payable_settlement_splits}
use latache_backend.Prelude.Rows.{find, update}
use latache_backend.Finance.Payables.Errors.{apply_payable_settlement_adds_up}
use latache_backend.Finance.Coverage.{available_of, pending_of}
use latache_backend.Finance.Refunds.Replay.{reverse_cash_receivable_once}

abbrev receipt : Settlement
receipt = record { applied = pos 1200; overpayment = 300; outstanding_after = pos 0 }

abbrev settled_books : Db
settled_books = db_of books (apply_payable_settlement 60 1 9 1500 "eur" books)

settlement_runs : apply_payable_settlement 60 1 9 1500 "eur" books ≡ ok (settled_books, receipt)
unfolding apply_payable_settlement add_platform_entries add_wallet_entry add_wallet_entry_if
    apply_restriction_policy pay_loop ◌>>=◌ find update ◌-ℤ◌
settlement_runs = refl

apply_payable_settlement_splits_example :
    (receipt.applied ≡ pos 1200)
    × (receipt.overpayment ≡ 300)
    × (available_of (settled_books.wallets 1) ≡ pos 600)
    × (pending_of (settled_books.wallets 1) ≡ pos 5000)
    × (open_total 1 settled_books.receivables ≡ 0)
    × IsConsistent 1 settled_books
unfolding ◌+ℤ◌
apply_payable_settlement_splits_example =
    apply_payable_settlement_splits 60 1 9 1500 "eur" books settled_books receipt books-IsConsistent
      settlement_runs

abbrev later_receivable : Receivable
later_receivable = record sample_receivable { id = 21; booking_id = 103; confirmed_at = 30 }

pay_loop_oldest_first_example :
    (pay_loop 60 1 (settlement_entry 1 9 "eur") 700 (sample_receivable ∷ later_receivable ∷ [])).0
    ≡ (pay_loop 60 1 (settlement_entry 1 9 "eur") 700 (sample_receivable ∷ [])).0
      ++ later_receivable ∷ []
pay_loop_oldest_first_example =
    pay_loop_oldest_first 60 1 (settlement_entry 1 9 "eur") 700 (sample_receivable ∷ [])
      (later_receivable ∷ []) (omega arith)

abbrev refunded_books : Db
refunded_books = db_of books (apply_refund_adjustment part_of 60 earned_booking 8 3000 books)

refund_runs :
    apply_refund_adjustment part_of 60 earned_booking 8 3000 books ≡ ok (refunded_books, true)
unfolding apply_refund_adjustment clawback_of take_back add_wallet_entry ◌>>=◌ find update
refund_runs = refl

apply_refund_adjustment_bounds_example :
    IsTakenBack 2500 earned_booking sample_earning books refunded_books
unfolding find clawback_of
apply_refund_adjustment_bounds_example =
    apply_refund_adjustment_bounds part_of 60 8 3000 earned_booking sample_earning books
      refunded_books refl refl refl books-IsCovered refund_runs

-- Of the debt of 12.00 the Tasker has paid 9.00.
abbrev paid_receivable : Receivable
paid_receivable = record sample_receivable {
  outstanding_amount = 300;
  settled_amount = 900;
  status = partially_settled;
}

abbrev paid_books : Db
paid_books = record books {
  receivables = paid_receivable ∷ [];
  accounts =
      λ t. if t == 1 then some (record sample_account { outstanding_payable = pos 300 }) else none;
}

abbrev reversed_books : Db
reversed_books = db_of paid_books (reverse_cash_receivable part_of 101 "r1" 3000 paid_books)

-- Half of the payable: 3.00 are no longer owed, and 3.00 are given back.
abbrev half_reversed : Reversed
half_reversed = record { reversal_amount = 600; reimbursement_amount = 300 }

reversal_runs :
    reverse_cash_receivable part_of 101 "r1" 3000 paid_books ≡ ok (reversed_books, half_reversed)
unfolding reverse_cash_receivable reversal_of reverse_locked lower_payable reimburse
    add_platform_entries add_wallet_entry ◌>>=◌ find update
reversal_runs = refl

reverse_cash_receivable_once_example :
    reverse_cash_receivable part_of 101 "r1" 3000 reversed_books
    ≡ ok (reversed_books, half_reversed)
reverse_cash_receivable_once_example =
    reverse_cash_receivable_once part_of 101 3000 "r1" paid_books reversed_books half_reversed
      reversal_runs

abbrev reconciled_books : Db
reconciled_books = db_of books (reconcile_account 60 1 books)

reconcile_runs : reconcile_account 60 1 books ≡ ok (reconciled_books, 1)
unfolding reconcile_account apply_restriction_policy ◌>>=◌ find update
reconcile_runs = refl

reconcile_account_agrees_example :
    (flag_of (reconciled_books.accounts 1) ≡ true)
    ↔ (assert_cash_booking_allowed 1 reconciled_books ≡ err cash_restricted)
reconcile_account_agrees_example =
    reconcile_account_agrees 60 1 1 books reconciled_books reconcile_runs

apply_payable_settlement_adds_up_example :
    apply_payable_settlement 60 1 9 1500 "eur" books ≢ err aggregate_inconsistent
apply_payable_settlement_adds_up_example =
    apply_payable_settlement_adds_up 60 1 9 1500 "eur" books books-IsConsistent
