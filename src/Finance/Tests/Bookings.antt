-- ===== src/Finance/Tests/Bookings.antt =====
-- Runs of createPendingEarning and confirmCashCollection on the sample rows.
use latache_backend.Prelude.Text.{is_blank}
use latache_backend.Prelude.{◌≡◌, refl, ok, ◌+◌, ◌>>=◌, ap, sym, some-value}
use latache_backend.Prelude.Int.{pos, ◌+ℤ◌}
use latache_backend.Finance.{Db, Booking}
use latache_backend.Finance.Earnings.{create_pending_earning, record_earning}
use latache_backend.Finance.Cash.{
  record_cash, payable_of, economic_earning, mark_mature_cash_receivables_cleared,
  confirm_cash_collection,
}
use latache_backend.Finance.Ledger.{open_total, IsConsistent}
use latache_backend.Finance.Coverage.{IsCovered, available_of}
use latache_backend.Finance.Tests.{
  db_after, books, sample_booking, books-IsCovered, books-IsConsistent,
}
use latache_backend.Finance.Entries.{add_platform_entries, add_wallet_entry_if, add_wallet_entry}
use latache_backend.Finance.Earnings.Creation.{
  create_pending_earning-IsCovered, create_pending_earning_once,
}
use latache_backend.Finance.Restriction.{apply_restriction_policy}
use latache_backend.Finance.Cash.Laws.{record_cash_keeps}
use latache_backend.Prelude.Rows.{find, update}
use latache_backend.Finance.Cash.Clearing.{mark_mature_cash_receivables_cleared_once}
use latache_backend.Finance.Cash.Again.{confirm_cash_collection_once}

abbrev earned_books : Db
earned_books = db_after books (create_pending_earning 11 5000 60 "pi_2" sample_booking books)

creation_runs : create_pending_earning 11 5000 60 "pi_2" sample_booking books ≡ ok earned_books
unfolding create_pending_earning record_earning add_wallet_entry_if add_wallet_entry ◌>>=◌ find
    update
creation_runs = refl

create_pending_earning_once_example :
    create_pending_earning 12 5000 61 "pi_2" sample_booking earned_books ≡ ok earned_books
create_pending_earning_once_example =
    create_pending_earning_once 11 12 5000 60 61 "pi_2" sample_booking books earned_books
      creation_runs

create_pending_earning-IsCovered_example :
    IsCovered 1 earned_books
    × (available_of (earned_books.wallets 1) ≡ available_of (books.wallets 1))
create_pending_earning-IsCovered_example =
    create_pending_earning-IsCovered 11 5000 60 "pi_2" sample_booking books earned_books
      books-IsCovered creation_runs

abbrev confirmed_books : Db
confirmed_books = db_after books (record_cash 22 30 60 1 5000 "k2" sample_booking books)

cash_runs : record_cash 22 30 60 1 5000 "k2" sample_booking books ≡ ok confirmed_books
unfolding record_cash add_platform_entries apply_restriction_policy ◌>>=◌ find update
cash_runs = refl

record_cash_keeps_example :
    (open_total 1 confirmed_books.receivables
      ≡ open_total 1 books.receivables + payable_of 5000 sample_booking)
    × (economic_earning sample_booking +ℤ pos (payable_of 5000 sample_booking) ≡ pos 5000)
    × IsConsistent 1 confirmed_books
record_cash_keeps_example =
    record_cash_keeps 22 30 60 1 "k2" sample_booking books confirmed_books 5000 books-IsConsistent
      cash_runs

mark_mature_cash_receivables_cleared_once_example :
    mark_mature_cash_receivables_cleared 95 (mark_mature_cash_receivables_cleared 95 books).0
    ≡ ((mark_mature_cash_receivables_cleared 95 books).0, 0)
mark_mature_cash_receivables_cleared_once_example =
    mark_mature_cash_receivables_cleared_once 95 books

abbrev paid_books : Db
paid_books = db_after books (confirm_cash_collection 22 30 60 1 102 5000 "k2" books)

confirmation_runs : confirm_cash_collection 22 30 60 1 102 5000 "k2" books ≡ ok paid_books
unfolding confirm_cash_collection is_blank record_cash add_platform_entries apply_restriction_policy
    ◌>>=◌ find
confirmation_runs = refl

confirm_cash_collection_once_example :
    confirm_cash_collection 23 31 70 1 102 5000 "k2" paid_books ≡ ok paid_books
confirm_cash_collection_once_example =
    confirm_cash_collection_once 22 23 30 31 60 70 1 102 5000 "k2" books paid_books
      (λ b h. ap (λ (x : Booking). x.id) (sym (some-value h))) confirmation_runs
