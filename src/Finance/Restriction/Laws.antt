-- ===== src/Finance/Restriction/Laws.antt =====
-- What the restriction of cash bookings by debt guarantees.
use latache_backend.Prelude.{
  ℕ, ◌≡◌, refl, Bool, true, false, Option, none, some, ok, err, ◌↔◌, arith, ◌≢◌, ==_refl, ◌>>=◌,
}
use latache_backend.Prelude.Int.{ℤ}
use latache_backend.Finance.{Account, Db, cash_restricted}
use latache_backend.Finance.Restriction.{
  should_restrict, apply_restriction_policy, assert_cash_booking_allowed, reconcile_account,
  outstanding_of,
}

abbrev pub flag_of : Option Account → Bool
flag_of none = false
flag_of (some account) = account.cash_bookings_restricted

-- With an account the policy cannot fail.
pub apply_restriction_policy_total :
    (now tasker : ℕ) (owed : ℤ) (threshold : ℕ) (enabled : Bool) (db : Db) (account : Account)
    → db.accounts tasker ≡ some account
    → (after : Db) × (apply_restriction_policy now tasker owed threshold enabled db ≡ ok after)
unfolding apply_restriction_policy ◌>>=◌
apply_restriction_policy_total now tasker owed threshold enabled db account h = rw h (_, refl)

module _ (now tasker : ℕ) (owed : ℤ) (threshold : ℕ) (enabled : Bool) (db after : Db)
    (done : apply_restriction_policy now tasker owed threshold enabled db ≡ ok after) where
  pub apply_restriction_policy_flag :
      (flag_of (after.accounts tasker) ≡ should_restrict enabled threshold owed)
      × (outstanding_of (after.accounts tasker) ≡ outstanding_of (db.accounts tasker))
  unfolding apply_restriction_policy ◌>>=◌
  apply_restriction_policy_flag = ground arith

  pub apply_restriction_policy_others :
      (other : ℕ) → other ≢ tasker → after.accounts other ≡ db.accounts other
  unfolding apply_restriction_policy ◌>>=◌
  apply_restriction_policy_others other h = ground arith

  pub apply_restriction_policy_frame :
      (after.wallets ≡ db.wallets)
      × (after.earnings ≡ db.earnings)
      × (after.receivables ≡ db.receivables)
      × (after.wallet_ledger ≡ db.wallet_ledger)
      × (after.platform_ledger ≡ db.platform_ledger)
  unfolding apply_restriction_policy ◌>>=◌
  apply_restriction_policy_frame = ground arith

  pub apply_restriction_policy_bookings : after.bookings ≡ db.bookings
  unfolding apply_restriction_policy ◌>>=◌
  apply_restriction_policy_bookings = ground arith

  pub apply_restriction_policy_policy : after.policy ≡ db.policy
  unfolding apply_restriction_policy ◌>>=◌
  apply_restriction_policy_policy = ground arith

-- After a reconciliation of an account its flag is set exactly when the service refuses another
-- cash booking to the Tasker.
pub reconcile_account_agrees :
    (now tasker changed : ℕ) (db after : Db)
    → reconcile_account now tasker db ≡ ok (after, changed)
    → (flag_of (after.accounts tasker) ≡ true)
      ↔ (assert_cash_booking_allowed tasker after ≡ err cash_restricted)
unfolding reconcile_account assert_cash_booking_allowed ◌>>=◌
reconcile_account_agrees now tasker changed db after h = ground arith

-- A second reconciliation of the same account finds nothing to change.
pub reconcile_account_idempotent :
    (now later tasker changed : ℕ) (db after : Db)
    → reconcile_account now tasker db ≡ ok (after, changed)
    → reconcile_account later tasker after ≡ ok (after, 0)
unfolding reconcile_account ◌>>=◌
reconcile_account_idempotent now later tasker changed db after h = ground (arith, ==_refl tasker)
