-- ===== src/Finance/Cash.antt =====
-- A Tasker confirms cash that a customer paid, and the confirmation clears: confirmCashCollection and
-- markMatureCashReceivablesCleared of
-- src/modules/tasker-finance/tasker-finance.service.ts.
pub mod Laws
pub mod Clearing
pub mod Again
use Prim.Native.Char.{code}
use latache_backend.Prelude.{
  ℕ, ◌+◌, ◌-◌, ◌*◌, Bool, true, false, ◌&&◌, ◌||◌, Option, none, some, List, [], ◌∷◌, ◌++◌, ltb,
  ◌==◌, not, if◌then◌else◌, Result, ok, err, ◌>>=◌, ◌>>◌, throw_if, or_throw, str_eq, String, any,
  leb, is_some, sum_of,
}
use Prim.Native.String
use latache_backend.Finance.{
  PaymentKind, Booking, Db, Receivable, PaymentSource, PaymentStatus, BookingStatus, Error,
  completed, PlatformEntry, cash_collection, on_hold_dispute, stripe, idempotency_key_required,
  cash_confirmed, wallet, outstanding, account_currency_mismatch, settled, payable_created,
  booking_not_found, negative_payable, not_completed_cash_booking, cash_blocked_by_dispute,
  amount_not_calculated, other, refund, cash, not_completed, unique_violation, amount_differs,
  confirmation_differs,
}
use latache_backend.Prelude.Int.{ℤ, pos, sub_ℕ, ◌+ℤ◌}
use latache_backend.Finance.Earnings.{included_tax, cents, earned_gross, day_ms, owed_by_booking}
use latache_backend.Finance.Entries.{account_or_new, add_platform_entries, notice}
use latache_backend.Prelude.Rows.{find, put, update_many}
use latache_backend.Finance.Restriction.{apply_restriction_policy}
use latache_backend.Prelude.Text.{is_blank}

-- `paymentSource !== 'cash' || status !== 'completed'`
abbrev pub pays_cash : Option PaymentSource → Bool
pays_cash none = false
pays_cash (some stripe) = false
pays_cash (some wallet) = false
pays_cash (some cash) = true

abbrev pub is_completed : BookingStatus → Bool
is_completed completed = true
is_completed not_completed = false

abbrev pub is_completed_cash : Booking → Bool
is_completed_cash b = pays_cash b.payment_source && is_completed b.status

abbrev pub is_cash_collection : PaymentKind → Bool
is_cash_collection cash_collection = true
is_cash_collection refund = false

abbrev pub is_on_hold : PaymentStatus → Bool
is_on_hold on_hold_dispute = true
is_on_hold cash_confirmed = false
is_on_hold other = false

-- What the Tasker keeps of the cash; an included tax can take it below zero.
abbrev pub economic_earning : Booking → ℤ
economic_earning b = sub_ℕ (earned_gross b) (included_tax b)

-- The cash less what the Tasker keeps, and whether that is negative.
abbrev pub payable_of : ℕ → Booking → ℕ
payable_of expected b = expected + included_tax b - earned_gross b

abbrev pub payable_is_negative : ℕ → Booking → Bool
payable_is_negative expected b = ltb (expected + included_tax b) (earned_gross b)

abbrev pub new_receivable : ℕ → ℕ → ℕ → ℕ → String → ℕ → Booking → Receivable
new_receivable id now tasker expected key disputes_clear_at b =
    let payable = payable_of expected b in
    record {
      id = id;
      booking_id = b.id;
      tasker_id = tasker;
      confirmed_by_id = tasker;
      confirmation_idempotency_key = key;
      cash_collected_amount = expected;
      service_amount = cents b.service_amount;
      platform_commission_amount = b.platform_fee_amount;
      tax_amount = b.tax_amount;
      service_surcharge_amount = b.service_surcharge_amount;
      tip_amount = b.tip_amount;
      donation_amount = b.donation_amount;
      tasker_economic_earning = economic_earning b;
      original_payable_amount = payable;
      outstanding_amount = payable;
      settled_amount = 0;
      reversed_amount = 0;
      currency = b.payment_currency;
      status = if ltb 0 payable then outstanding else settled;
      is_disputed = false;
      dispute_block_reason = none;
      dispute_blocked_at = none;
      dispute_clears_at = disputes_clear_at;
      confirmed_at = now;
      cleared_at = none;
      settled_at = if payable == 0 then some now else none;
    }

abbrev pub payable_entry : ℕ → ℕ → ℕ → Booking → PlatformEntry
payable_entry id tasker payable b = record {
  tasker_id = tasker;
  booking_id = b.id;
  receivable_id = id;
  earning_id = none;
  kind = "cash_payable_created";
  amount = payable;
  payable_delta = pos payable;
  currency = b.payment_currency;
  idempotency_key = payable_created b.id;
}

-- Where the cash was not confirmed before. `id` and `payment` are the identifiers of the new rows.
unfoldable pub record_cash : ℕ → ℕ → ℕ → ℕ → ℕ → String → Booking → Db → Result Error Db
record_cash id payment now tasker expected key b db = do
  let account = account_or_new b.payment_currency (db.accounts tasker)
  throw_if (not (str_eq account.currency b.payment_currency)) account_currency_mismatch
  throw_if (payable_is_negative expected b) negative_payable
  let clears = now + db.policy.cash_dispute_clearance_days * day_ms
  let r = new_receivable id now tasker expected key clears b
  throw_if (any (λ row. str_eq row.confirmation_idempotency_key key) db.receivables)
      unique_violation
  let payable = r.original_payable_amount
  platform_ledger ←
      add_platform_entries (if ltb 0 payable then payable_entry id tasker payable b ∷ [] else [])
        db.platform_ledger
  throw_if (any (λ p. is_cash_collection p.kind && p.booking_id == b.id) db.payments)
      unique_violation
  let owed = account.outstanding_payable +ℤ pos payable
  after ←
      apply_restriction_policy now tasker owed db.policy.maximum_outstanding_platform_debt
        db.policy.block_cash_bookings_at_debt_limit
        (record db {
          accounts = put tasker (record account { outstanding_payable = owed }) db.accounts;
          receivables = db.receivables ++ r ∷ [];
          platform_ledger = platform_ledger;
          bookings =
              put b.id (record b { payment_status = cash_confirmed; paid_at = some now })
                db.bookings;
          payments =
              db.payments
              ++ record {
                id = payment;
                booking_id = b.id;
                kind = cash_collection;
                amount = expected;
              }
                ∷ [];
        })
  ok (record after {
    notifications =
        after.notifications
        ++ notice tasker "cash_platform_payable_created" "platform_receivable" id
          ∷ notice b.customer_id "booking_cash_payment_confirmed" "booking" b.id
          ∷ [];
    booking_events = after.booking_events ++ b.id ∷ [];
  })

abbrev pub same_confirmation : ℕ → ℕ → String → Receivable → Bool
same_confirmation tasker collected key r =
    r.tasker_id == tasker
    && (r.cash_collected_amount == collected && str_eq r.confirmation_idempotency_key key)

unfoldable pub confirm_cash_collection : ℕ → ℕ → ℕ → ℕ → ℕ → ℕ → String → Db → Result Error Db
confirm_cash_collection id payment now tasker booking collected key db = do
  throw_if (is_blank key) idempotency_key_required
  b ← or_throw (db.bookings booking) booking_not_found
  throw_if (not (b.tasker_id == tasker)) booking_not_found
  throw_if (not (is_completed_cash b)) not_completed_cash_booking
  throw_if (is_on_hold b.payment_status) cash_blocked_by_dispute
  expected ← or_throw b.total_charged_amount amount_not_calculated
  throw_if (not (collected == expected)) amount_differs
  elim (find (owed_by_booking b.id) db.receivables) [
    | none ↦ record_cash id payment now tasker expected key b db
    | some r ↦ do
      throw_if (not (same_confirmation tasker collected key r)) confirmation_differs
      ok db
  ]

-- The `where` of markMatureCashReceivablesCleared.
unfoldable pub is_clearable : ℕ → Receivable → Bool
is_clearable now r =
    not (is_some r.cleared_at) && (not r.is_disputed && leb r.dispute_clears_at now)

abbrev pub clear_receivable : ℕ → Receivable → Receivable
clear_receivable now r = record r { cleared_at = some now }

-- The rows after the update and how many it wrote.
unfoldable pub mark_mature_cash_receivables_cleared : ℕ → Db → Db × ℕ
mark_mature_cash_receivables_cleared now db = (
  record db { receivables = update_many (is_clearable now) (clear_receivable now) db.receivables },
  sum_of (λ r. if is_clearable now r then 1 else 0) db.receivables,
)
