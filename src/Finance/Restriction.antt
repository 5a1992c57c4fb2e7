-- ===== src/Finance/Restriction.antt =====
-- The restriction of cash bookings by debt: applyRestrictionPolicy, assertCashBookingAllowed and
-- reconcileCashRestrictions of tasker-finance.service.ts. A threshold of whole cents is reached
-- at `threshold - 0.005` exactly when it is reached.
pub mod Laws
use latache_backend.Prelude.{
  ℕ, suc, ◌-◌, ◌+◌, Bool, true, false, ◌&&◌, ◌||◌, Option, none, some, List, [], ◌∷◌, ◌++◌, ltb,
  ◌==◌, if◌then◌else◌, Result, ok, err, ◌>>=◌, ◌>>◌, or_throw, throw_if,
}
use latache_backend.Prelude.Int.{ℤ, pos, leb_ℤ}
use latache_backend.Prelude.Rows.{put}
use latache_backend.Finance.{Account, Notification, Db, Error, row_not_found, cash_restricted}

abbrev pub same_bool : Bool → Bool → Bool
same_bool true b = b
same_bool false true = false
same_bool false false = true

abbrev pub should_restrict : Bool → ℕ → ℤ → Bool
should_restrict enabled threshold outstanding =
    enabled && (ltb 0 threshold && leb_ℤ (pos threshold) outstanding)

-- What the update writes into the account's row.
abbrev pub set_restriction : ℕ → Bool → Account → Account
set_restriction now wanted account = record account {
  cash_bookings_restricted = wanted;
  restriction_updated_at = some now;
}

abbrev pub restriction_notice : ℕ → Bool → Notification
restriction_notice tasker wanted = record {
  user_id = tasker;
  type = if wanted then "cash_bookings_restricted" else "cash_bookings_unrestricted";
  entity_type = "tasker_platform_account";
  entity_id = tasker;
}

unfoldable pub apply_restriction_policy : ℕ → ℕ → ℤ → ℕ → Bool → Db → Result Error Db
apply_restriction_policy now tasker outstanding threshold enabled db = do
  account ← or_throw (db.accounts tasker) row_not_found
  let wanted = should_restrict enabled threshold outstanding
  ok (
      if same_bool account.cash_bookings_restricted wanted then db else record db {
        accounts = put tasker (set_restriction now wanted account) db.accounts;
        notifications = db.notifications ++ restriction_notice tasker wanted ∷ [];
      })

-- A Tasker with no account owes nothing.
abbrev pub outstanding_of : Option Account → ℤ
outstanding_of none = pos 0
outstanding_of (some account) = account.outstanding_payable

unfoldable pub assert_cash_booking_allowed : ℕ → Db → Result Error (Unit {0})
assert_cash_booking_allowed tasker db =
    throw_if
      (should_restrict db.policy.block_cash_bookings_at_debt_limit
        db.policy.maximum_outstanding_platform_debt (outstanding_of (db.accounts tasker)))
      cash_restricted

-- The `where` of the query for accounts to reconcile.
unfoldable pub needs_reconcile : ℕ → Db → Bool
needs_reconcile tasker db = elim (db.accounts tasker) [
  | none ↦ false
  | some account ↦
      account.cash_bookings_restricted
      || should_restrict db.policy.block_cash_bookings_at_debt_limit
          db.policy.maximum_outstanding_platform_debt account.outstanding_payable
]

-- One transaction of the reconciliation; the number says whether the flag was wrong before.
unfoldable pub reconcile_account : ℕ → ℕ → Db → Result Error (Db × ℕ)
unfolding apply_restriction_policy
reconcile_account now tasker db = do
  current ← or_throw (db.accounts tasker) row_not_found
  after ←
      apply_restriction_policy now tasker current.outstanding_payable
        db.policy.maximum_outstanding_platform_debt db.policy.block_cash_bookings_at_debt_limit db
  let expected =
      should_restrict db.policy.block_cash_bookings_at_debt_limit
        db.policy.maximum_outstanding_platform_debt current.outstanding_payable
  ok (after, if same_bool current.cash_bookings_restricted expected then 0 else 1)

-- The rows that the query selects among the Taskers with an account, at most `room` of them.
unfoldable pub select_accounts : ℕ → Db → List ℕ → List ℕ
select_accounts room db [] = []
select_accounts room db (tasker ∷ rest) =
    if ltb 0 room && needs_reconcile tasker db
    then tasker ∷ select_accounts (room - 1) db rest
    else select_accounts room db rest

unfoldable pub reconcile_all : ℕ → List ℕ → Db → ℕ → Result Error (Db × ℕ)
reconcile_all now [] db changed = ok (db, changed)
reconcile_all now (tasker ∷ rest) db changed = do
  (after, one) ← reconcile_account now tasker db
  reconcile_all now rest after (changed + one)

unfoldable pub reconcile_cash_restrictions : ℕ → List ℕ → Db → Result Error (Db × ℕ)
unfolding reconcile_all select_accounts
reconcile_cash_restrictions now taskers db = reconcile_all now (select_accounts 500 db taskers) db 0
