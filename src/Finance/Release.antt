-- ===== src/Finance/Release.antt =====
-- Releasing a matured earning: releaseMatureEarning and creditPlanRevenueShare of
-- src/modules/tasker-finance/tasker-finance.service.ts. `percent_of base percent` is the floating
-- point product `base * (percent / 100)` rounded to cents.
pub mod Guards
pub mod Parts
pub mod Balances
pub mod Once
pub mod Covering
pub mod Errors
use latache_backend.Prelude.{
  ℕ, ◌-◌, Bool, true, false, ◌&&◌, ◌||◌, Option, none, some, List, [], ◌∷◌, ◌++◌, ltb, ◌==◌, not,
  if◌then◌else◌, Result, ok, err, ◌>>=◌, ◌>>◌, throw_if, or_throw, str_eq, is_some,
}
use latache_backend.Prelude.Int.{ℤ, pos, pos_part, ◌-ℤ◌, ◌+ℤ◌, ltb_ℤ}
use latache_backend.Prelude.Rows.{put, find, update}
use latache_backend.Finance.{
  Db, Earning, Wallet, Account, Receivable, PlatformEntry, Notification, WalletEntry, EarningStatus,
  Error, currency_mismatch, pending_below_liability, aggregate_inconsistent, row_not_found,
  earning_offset, earning_release, plan_revenue_share, Subscription,
}
use latache_backend.Finance.Entries.{
  wallet_or_new, account_or_new, add_platform_entries, add_wallet_entry, has_wallet_key, min_ℤ,
  is_unsettled, notice,
}
use latache_backend.Finance.Restriction.{apply_restriction_policy}
use latache_backend.Finance.Payables.{pay_loop}

abbrev pub has_earning_id : ℕ → Earning → Bool
has_earning_id id e = e.id == id

-- `holdExtendedUntil && holdExtendedUntil > now`
abbrev pub is_held : ℕ → Option ℕ → Bool
is_held now none = false
is_held now (some until) = ltb now until

-- The guard behind which the earning is released.
unfoldable pub is_mature : ℕ → Earning → Bool
is_mature now e =
    is_unsettled e.status
    && (not e.is_blocked
        && (not (is_some e.released_at)
            && (not (ltb now e.clears_at) && not (is_held now e.hold_extended_until))))

abbrev pub has_active_dispute : ℕ → Db → Bool
has_active_dispute booking db =
    ltb 0 (db.active_complaints booking) || ltb 0 (db.active_chargebacks booking)

unfoldable pub block_for_review : ℕ → Earning → Db → Db
block_for_review now e db = record db {
  earnings =
      update (has_earning_id e.id)
        (λ row. record row {
          is_blocked = true;
          block_reason = some (
              if ltb 0 (db.active_chargebacks e.booking_id)
              then "Active Stripe chargeback review"
              else "Active booking dispute");
          blocked_at = some now;
        })
        db.earnings;
  notifications =
      db.notifications ++ notice e.tasker_id "booking_earning_blocked" "tasker_earning" e.id ∷ [];
}

abbrev pub offset_entry : Earning → Receivable → ℕ → PlatformEntry
offset_entry e r portion = record {
  tasker_id = e.tasker_id;
  booking_id = r.booking_id;
  receivable_id = r.id;
  earning_id = some e.id;
  kind = "earning_debt_offset";
  amount = portion;
  payable_delta = pos 0 -ℤ pos portion;
  currency = e.currency;
  idempotency_key = earning_offset e.id r.id;
}

abbrev pub released : ℕ → ℤ → ℤ → Earning → Earning
released now debt_offset available row = record row {
  status = EarningStatus.available;
  debt_offset_amount = debt_offset;
  released_to_available_amount = available;
  released_at = some now;
  is_blocked = false;
  block_reason = none;
  blocked_at = none;
}

-- Math.max(0, taskerNetAmount - reversedAmount)
abbrev pub releasable_of : Earning → ℕ
releasable_of e = e.tasker_net_amount - e.reversed_amount

abbrev pub release_entry : Earning → ℤ → WalletEntry
release_entry e available = record {
  tasker_id = e.tasker_id;
  booking_id = some e.booking_id;
  earning_id = some e.id;
  kind = "earning_release";
  amount = releasable_of e;
  available_delta = available;
  pending_delta = pos 0 -ℤ pos (releasable_of e);
  currency = e.currency;
  idempotency_key = earning_release e.id;
}

module _ (percent_of : ℕ → ℕ → ℕ) where
  -- The share that an active plan grants for the earning.
  abbrev pub share_amount : Option Subscription → Earning → ℕ
  share_amount none e = 0
  share_amount (some s) e =
      percent_of (e.service_amount - e.reversed_amount) s.revenue_share_percent

  unfoldable pub credit_plan_revenue_share : Earning → Db → Result Error Db
  credit_plan_revenue_share e db =
      let amount = share_amount (db.subscriptions e.tasker_id) e in
      if amount == 0 || has_wallet_key (plan_revenue_share e.id) db.wallet_ledger then ok db else do
        wallet ← or_throw (db.wallets e.tasker_id) row_not_found
        wallet_ledger ←
            add_wallet_entry
              (record {
                tasker_id = e.tasker_id;
                booking_id = some e.booking_id;
                earning_id = some e.id;
                kind = "plan_revenue_share";
                amount = amount;
                available_delta = pos amount;
                pending_delta = pos 0;
                currency = e.currency;
                idempotency_key = plan_revenue_share e.id;
              })
              db.wallet_ledger
        ok (record db {
          wallets =
              put e.tasker_id
                (record wallet { available_balance = wallet.available_balance +ℤ pos amount })
                db.wallets;
          wallet_ledger = wallet_ledger;
          notifications =
              db.notifications
              ++ notice e.tasker_id "tasker_plan_revenue_share" "booking" e.booking_id ∷ [];
        })

  -- The transaction behind the guards.
  unfoldable pub release_cleared : ℕ → Earning → Db → Result Error Db
  release_cleared now e db = do
    let wallet = wallet_or_new e.currency (db.wallets e.tasker_id)
    let account = account_or_new e.currency (db.accounts e.tasker_id)
    throw_if (not (str_eq wallet.currency e.currency) || not (str_eq account.currency e.currency))
        currency_mismatch
    let debt_offset = min_ℤ (pos (releasable_of e)) account.outstanding_payable
    let available = pos (releasable_of e) -ℤ debt_offset
    throw_if (ltb_ℤ wallet.pending_balance (pos (releasable_of e))) pending_below_liability
    let due = pos_part debt_offset
    let paid = pay_loop now e.tasker_id (offset_entry e) due db.receivables
    platform_ledger ← add_platform_entries paid.1 db.platform_ledger
    throw_if (ltb 0 paid.2) aggregate_inconsistent
    wallet_ledger ← add_wallet_entry (release_entry e available) db.wallet_ledger
    shared ← credit_plan_revenue_share e (record db {
      wallets =
          put e.tasker_id
            (record wallet {
              available_balance = wallet.available_balance +ℤ available;
              pending_balance = wallet.pending_balance -ℤ pos (releasable_of e);
            })
            db.wallets;
      accounts =
          put e.tasker_id
            (record account { outstanding_payable = account.outstanding_payable -ℤ pos due })
            db.accounts;
      receivables = paid.0;
      platform_ledger = platform_ledger;
      earnings = update (has_earning_id e.id) (released now debt_offset available) db.earnings;
      wallet_ledger = wallet_ledger;
    })
    after ←
        apply_restriction_policy now e.tasker_id (account.outstanding_payable -ℤ debt_offset)
          db.policy.maximum_outstanding_platform_debt db.policy.block_cash_bookings_at_debt_limit
          shared
    ok (record after {
      notifications =
          after.notifications
          ++ notice e.tasker_id "booking_earning_released" "tasker_earning" e.id
            ∷ (if ltb 0 due
                then notice e.tasker_id "cash_platform_payable_settled" "tasker_platform_account"
                    e.tasker_id
                  ∷ []
                else []);
    })

  unfoldable pub release_mature_earning : ℕ → ℕ → Db → Result Error (Db × Bool)
  release_mature_earning now id db = elim (find (has_earning_id id) db.earnings) [
    | none ↦ ok (db, false)
    | some e ↦
        if not (is_mature now e)
        then ok (db, false)
        else if has_active_dispute e.booking_id db
        then ok (block_for_review now e db, false)
        else (do after ← release_cleared now e db; ok (after, true))
  ]
