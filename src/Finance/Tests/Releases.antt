-- ===== src/Finance/Tests/Releases.antt =====
-- Runs of releaseMatureEarning and of the holds on the sample rows.
use latache_backend.Prelude.{
  if◌then◌else◌, ◌≡◌, refl, ok, some, true, false, ◌-◌, arith, ◌>>=◌, err, ◌==◌, none,
}
use latache_backend.Prelude.Int.{pos, ◌+ℤ◌, ◌-ℤ◌}
use latache_backend.Finance.{Db, same_wallet_key, currency_mismatch}
use latache_backend.Finance.Tests.{
  db_of, db_after, books, share_of, sample_earning, books-IsCovered, books-IsConsistent,
  sample_account,
}
use latache_backend.Finance.Release.Guards.{IsReleasable}
use latache_backend.Finance.Coverage.{IsCovered, pending_of}
use latache_backend.Finance.Earnings.{
  earning_action, hold_action, extend_clearance, block_for_dispute,
}
use latache_backend.Finance.Release.Balances.{worth, release_moves}
use latache_backend.Finance.Release.{
  release_mature_earning, is_mature, release_cleared, credit_plan_revenue_share,
}
use latache_backend.Finance.Release.Parts.{shared_amount}
use latache_backend.Finance.Release.Covering.{release-IsCovered}
use latache_backend.Finance.Earnings.Holds.{extend_clearance_holds, block_for_dispute_holds}
use latache_backend.Finance.Release.Once.{release_once, release_ready}
use latache_backend.Finance.Entries.{add_platform_entries, add_wallet_entry}
use latache_backend.Finance.Ledger.{open_total, IsConsistent}
use latache_backend.Finance.Restriction.{apply_restriction_policy}
use latache_backend.Finance.Payables.{pay_loop}
use latache_backend.Prelude.Rows.{find, update}
use latache_backend.Finance.Release.Errors.{IsAside, release_mature_earning_errors}

abbrev released_books : Db
released_books = db_of books (release_mature_earning share_of 100 10 books)

release_runs : release_mature_earning share_of 100 10 books ≡ ok (released_books, true)
unfolding release_mature_earning is_mature release_cleared add_platform_entries add_wallet_entry
    credit_plan_revenue_share apply_restriction_policy pay_loop ◌>>=◌ find update same_wallet_key
release_runs = refl

release_moves_example :
    (worth 1 released_books
      ≡ worth 1 books
        +ℤ pos (shared_amount share_of sample_earning (books.subscriptions 1) books.wallet_ledger))
    × (pending_of (released_books.wallets 1) ≡ pending_of (books.wallets 1) -ℤ pos 5000)
    × (open_total 1 released_books.receivables ≡ open_total 1 books.receivables - 5000)
    × IsConsistent 1 released_books
unfolding find
release_moves_example =
    release_moves share_of 100 10 books released_books sample_earning refl release_runs
      books-IsConsistent

release_once_example :
    release_mature_earning share_of 200 10 released_books ≡ ok (released_books, false)
unfolding find
release_once_example =
    release_once share_of 100 10 books released_books sample_earning refl release_runs 200

release_ready_example : IsReleasable 100 books sample_earning
unfolding find
release_ready_example =
    release_ready share_of 100 10 books released_books sample_earning refl release_runs

release-IsCovered_example : IsCovered 1 released_books
unfolding find
release-IsCovered_example =
    release-IsCovered share_of 100 10 books released_books sample_earning refl release_runs
      books-IsCovered

-- The same books with an account in another currency.
abbrev foreign_books : Db
foreign_books = record books {
  accounts = λ t. if t == 1 then some (record sample_account { currency = "usd" }) else none;
}

foreign_fails : release_mature_earning share_of 100 10 foreign_books ≡ err currency_mismatch
unfolding release_mature_earning is_mature release_cleared ◌>>=◌ find
foreign_fails = refl

foreign-IsConsistent : IsConsistent 1 foreign_books
foreign-IsConsistent = record { sound = books-IsConsistent.sound; totalled = refl }

foreign-IsCovered : IsCovered 1 foreign_books
foreign-IsCovered = record { sound = books-IsCovered.sound; covered = refl }

release_mature_earning_errors_example : IsAside currency_mismatch
unfolding find
release_mature_earning_errors_example =
    release_mature_earning_errors share_of 100 10 foreign_books sample_earning currency_mismatch
      refl foreign-IsConsistent foreign-IsCovered foreign_fails

block_for_dispute_holds_example :
    release_mature_earning share_of 100 10 (block_for_dispute 40 100 "damage" books)
    ≡ ok (block_for_dispute 40 100 "damage" books, false)
unfolding find
block_for_dispute_holds_example =
    block_for_dispute_holds 40 100 "damage" books sample_earning refl refl refl share_of 100

abbrev extended_books : Db
extended_books =
    db_after books (earning_action 40 3 10 (extend_clearance (some 120)) "review" books)

extension_runs :
    earning_action 40 3 10 (extend_clearance (some 120)) "review" books ≡ ok extended_books
unfolding earning_action hold_action ◌>>=◌ find update
extension_runs = refl

extend_clearance_holds_example :
    release_mature_earning share_of 100 10 extended_books ≡ ok (extended_books, false)
extend_clearance_holds_example =
    extend_clearance_holds share_of 40 3 10 120 "review" books extended_books extension_runs 100
      (omega arith)
