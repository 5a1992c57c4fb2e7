-- ===== src/Finance/Tests.antt =====
-- The sample rows on which the theorems about src/modules/tasker-finance/tasker-finance.service.ts
-- are tried: Tasker 1 has a matured earning (10, of booking 100) and owes for a cash booking (101).
mod Releases
mod Debts
mod Bookings
use latache_backend.Prelude.{
  ℕ, true, false, Option, none, some, [], ◌∷◌, ◌+◌, ◌*◌, ◌/◌, ◌==◌, if◌then◌else◌, Result, ok, err,
  arith, refl,
}
use latache_backend.Prelude.Int.{pos}
use latache_backend.Finance.{
  Db, Booking, Earning, Receivable, Wallet, Account, EarningStatus, outstanding, stripe, cash,
  completed, other, Error,
}
use latache_backend.Finance.Ledger.{IsConsistent}
use latache_backend.Finance.Coverage.{IsCovered}

abbrev pub share_of : ℕ → ℕ → ℕ
share_of base percent = (base * percent + 50) / 100

abbrev pub part_of : ℕ → ℕ → ℕ → ℕ
part_of part total amount = (2 * part * amount + total) / (2 * total)

abbrev pub sample_earning : Earning
sample_earning = record {
  id = 10;
  booking_id = 100;
  tasker_id = 1;
  payment_source = stripe;
  gross_customer_amount = 6000;
  service_amount = 5000;
  platform_commission_amount = 1000;
  tax_amount = 0;
  service_surcharge_amount = 0;
  tip_amount = 0;
  donation_amount = 0;
  tasker_net_amount = 5000;
  reversed_amount = 0;
  debt_offset_amount = pos 0;
  released_to_available_amount = pos 0;
  currency = "eur";
  status = EarningStatus.pending;
  is_blocked = false;
  block_reason = none;
  blocked_at = none;
  hold_extended_until = none;
  provider_settlement_reference = "pi_1";
  settled_at = 10;
  clears_at = 50;
  released_at = none;
  reversed_at = none;
}

abbrev pub sample_receivable : Receivable
sample_receivable = record {
  id = 20;
  booking_id = 101;
  tasker_id = 1;
  confirmed_by_id = 1;
  confirmation_idempotency_key = "k1";
  cash_collected_amount = 6000;
  service_amount = 4800;
  platform_commission_amount = 1200;
  tax_amount = 0;
  service_surcharge_amount = 0;
  tip_amount = 0;
  donation_amount = 0;
  tasker_economic_earning = pos 4800;
  original_payable_amount = 1200;
  outstanding_amount = 1200;
  settled_amount = 0;
  reversed_amount = 0;
  currency = "eur";
  status = outstanding;
  is_disputed = false;
  dispute_block_reason = none;
  dispute_blocked_at = none;
  dispute_clears_at = 90;
  confirmed_at = 20;
  cleared_at = none;
  settled_at = none;
}

abbrev pub sample_booking : Booking
sample_booking = record {
  id = 102;
  customer_id = 7;
  tasker_id = 1;
  status = completed;
  payment_source = some cash;
  payment_status = other;
  payment_currency = "eur";
  service_amount = some 4000;
  platform_fee_amount = 800;
  tax_amount = 200;
  tax_inclusive = true;
  service_surcharge_amount = 0;
  tip_amount = 100;
  donation_amount = 0;
  total_charged_amount = some 5000;
  paid_at = none;
}

-- The booking of the sample earning.
abbrev pub earned_booking : Booking
earned_booking = record sample_booking {
  id = 100;
  payment_source = some stripe;
  total_charged_amount = some 6000;
}

abbrev pub sample_wallet : Wallet
sample_wallet = record { currency = "eur"; available_balance = pos 300; pending_balance = pos 5000 }

abbrev pub sample_account : Account
sample_account = record {
  currency = "eur";
  outstanding_payable = pos 1200;
  cash_bookings_restricted = false;
  restriction_updated_at = none;
}

abbrev pub books : Db
books = record {
  policy = record {
    earning_clearance_days = 7;
    cash_dispute_clearance_days = 7;
    maximum_outstanding_platform_debt = 1000;
    block_cash_bookings_at_debt_limit = true;
  };
  bookings = λ b. if b == 102 then some sample_booking else none;
  wallets = λ t. if t == 1 then some sample_wallet else none;
  accounts = λ t. if t == 1 then some sample_account else none;
  earnings = sample_earning ∷ [];
  receivables = sample_receivable ∷ [];
  wallet_ledger = [];
  platform_ledger = [];
  payments = [];
  notifications = [];
  audits = [];
  booking_events = [];
  active_complaints = λ _. 0;
  active_chargebacks = λ _. 0;
  subscriptions = λ t. if t == 1 then some (record { id = 5; revenue_share_percent = 2 }) else none;
}

-- The database after a request, and the one before it where it failed.
abbrev pub db_after : Db → Result Error Db → Db
db_after before (ok after) = after
db_after before (err e) = before

abbrev pub db_of {ℓ} : {A : Type ℓ} → Db → Result Error (Db × A) → Db
db_of before (ok (after, a)) = after
db_of before (err e) = before

pub books-IsConsistent : IsConsistent 1 books
books-IsConsistent = record { sound = (ground arith, tt); totalled = refl }

pub books-IsCovered : IsCovered 1 books
books-IsCovered = record {
  sound = (
    record {
      within_net = omega arith;
      unpaid_offset = λ _. refl;
      unpaid_released = λ _. refl;
      paid_out = λ h. cc;
    },
    tt,
  );
  covered = refl;
}
