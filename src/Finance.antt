-- ===== src/Finance.antt =====
-- The tables that src/modules/tasker-finance/tasker-finance.service.ts reads and writes
-- (prisma/schema.prisma: TaskerWallet, TaskerEarning, TaskerPlatformAccount,
-- TaskerPlatformReceivable and the two ledgers), and its constants. Amounts are cents: the columns
-- are Decimal(14, 2), and `money` rounds to cents whatever is computed from them. A balance that a
-- decrement can take below zero is a signed number. Row identifiers are numbers.
pub mod Entries
pub mod Restriction
pub mod Payables
pub mod Ledger
pub mod Coverage
pub mod Release
pub mod Earnings
pub mod Cash
pub mod Refunds
pub mod Tests
use latache_backend.Prelude.{ℕ, Bool, false, Option, List, String, ◌==◌, str_eq, ◌&&◌}
use latache_backend.Prelude.Int.{ℤ}

pub data EarningStatus : Type 0 where
  pending available partially_reversed reversed : EarningStatus

pub data ReceivableStatus : Type 0 where
  outstanding partially_settled settled partially_reversed reversed : ReceivableStatus

pub data PaymentSource : Type 0 where
  stripe wallet cash : PaymentSource

pub data BookingStatus : Type 0 where
  completed not_completed : BookingStatus

pub data PaymentStatus : Type 0 where
  on_hold_dispute cash_confirmed other : PaymentStatus

-- The idempotency keys, with the parts that the code writes into the text of the key.
pub data WalletKey : Type 0 where
  pending_earning earning_release settlement_overpayment plan_revenue_share : ℕ → WalletKey
  settlement_debit : ℕ → WalletKey
  refund_clawback : ℕ → ℕ → WalletKey
  commission_reimbursement : String → WalletKey

pub data PlatformKey : Type 0 where
  payable_created : ℕ → PlatformKey
  earning_offset settlement_payment : ℕ → ℕ → PlatformKey
  receivable_reversal : String → PlatformKey

unfoldable pub same_wallet_key : WalletKey → WalletKey → Bool
same_wallet_key (pending_earning a) (pending_earning b) = a == b
same_wallet_key (earning_release a) (earning_release b) = a == b
same_wallet_key (settlement_overpayment a) (settlement_overpayment b) = a == b
same_wallet_key (plan_revenue_share a) (plan_revenue_share b) = a == b
same_wallet_key (settlement_debit a) (settlement_debit b) = a == b
same_wallet_key (refund_clawback a c) (refund_clawback b d) = a == b && c == d
same_wallet_key (commission_reimbursement a) (commission_reimbursement b) = str_eq a b
same_wallet_key _ _ = false

unfoldable pub same_platform_key : PlatformKey → PlatformKey → Bool
same_platform_key (payable_created a) (payable_created b) = a == b
same_platform_key (earning_offset a c) (earning_offset b d) = a == b && c == d
same_platform_key (settlement_payment a c) (settlement_payment b d) = a == b && c == d
same_platform_key (receivable_reversal a) (receivable_reversal b) = str_eq a b
same_platform_key _ _ = false

pub record Wallet : Type 0 where
  pub currency : String
  pub available_balance : ℤ
  pub pending_balance : ℤ

pub record Account : Type 0 where
  pub currency : String
  pub outstanding_payable : ℤ
  pub cash_bookings_restricted : Bool
  pub restriction_updated_at : Option ℕ

pub record Booking : Type 0 where
  pub id : ℕ
  pub customer_id : ℕ
  pub tasker_id : ℕ
  pub status : BookingStatus
  pub payment_source : Option PaymentSource
  pub payment_status : PaymentStatus
  pub payment_currency : String
  pub service_amount : Option ℕ
  pub platform_fee_amount : ℕ
  pub tax_amount : ℕ
  pub tax_inclusive : Bool
  pub service_surcharge_amount : ℕ
  pub tip_amount : ℕ
  pub donation_amount : ℕ
  pub total_charged_amount : Option ℕ
  pub paid_at : Option ℕ

pub record Earning : Type 0 where
  pub id : ℕ
  pub booking_id : ℕ
  pub tasker_id : ℕ
  pub payment_source : PaymentSource
  pub gross_customer_amount : ℕ
  pub service_amount : ℕ
  pub platform_commission_amount : ℕ
  pub tax_amount : ℕ
  pub service_surcharge_amount : ℕ
  pub tip_amount : ℕ
  pub donation_amount : ℕ
  pub tasker_net_amount : ℕ
  pub reversed_amount : ℕ
  pub debt_offset_amount : ℤ
  pub released_to_available_amount : ℤ
  pub currency : String
  pub status : EarningStatus
  pub is_blocked : Bool
  pub block_reason : Option String
  pub blocked_at : Option ℕ
  pub hold_extended_until : Option ℕ
  pub provider_settlement_reference : String
  pub settled_at : ℕ
  pub clears_at : ℕ
  pub released_at : Option ℕ
  pub reversed_at : Option ℕ

pub record Receivable : Type 0 where
  pub id : ℕ
  pub booking_id : ℕ
  pub tasker_id : ℕ
  pub confirmed_by_id : ℕ
  pub confirmation_idempotency_key : String
  pub cash_collected_amount : ℕ
  pub service_amount : ℕ
  pub platform_commission_amount : ℕ
  pub tax_amount : ℕ
  pub service_surcharge_amount : ℕ
  pub tip_amount : ℕ
  pub donation_amount : ℕ
  pub tasker_economic_earning : ℤ
  pub original_payable_amount : ℕ
  pub outstanding_amount : ℕ
  pub settled_amount : ℕ
  pub reversed_amount : ℕ
  pub currency : String
  pub status : ReceivableStatus
  pub is_disputed : Bool
  pub dispute_block_reason : Option String
  pub dispute_blocked_at : Option ℕ
  pub dispute_clears_at : ℕ
  pub confirmed_at : ℕ
  pub cleared_at : Option ℕ
  pub settled_at : Option ℕ

pub record WalletEntry : Type 0 where
  pub tasker_id : ℕ
  pub booking_id : Option ℕ
  pub earning_id : Option ℕ
  pub kind : String
  pub amount : ℕ
  pub available_delta : ℤ
  pub pending_delta : ℤ
  pub currency : String
  pub idempotency_key : WalletKey

pub record PlatformEntry : Type 0 where
  pub tasker_id : ℕ
  pub booking_id : ℕ
  pub receivable_id : ℕ
  pub earning_id : Option ℕ
  pub kind : String
  pub amount : ℕ
  pub payable_delta : ℤ
  pub currency : String
  pub idempotency_key : PlatformKey

-- The succeeded rows of PaymentTransactions that this service reads or writes.
pub data PaymentKind : Type 0 where
  refund cash_collection : PaymentKind

pub record Payment : Type 0 where
  pub id : ℕ
  pub booking_id : ℕ
  pub kind : PaymentKind
  pub amount : ℕ

-- A call of NotificationsService.create, without its texts.
pub record Notification : Type 0 where
  pub user_id : ℕ
  pub type : String
  pub entity_type : String
  pub entity_id : ℕ

pub record Audit : Type 0 where
  pub actor_id : ℕ
  pub target_user_id : ℕ
  pub action : String
  pub entity_id : ℕ
  pub reason : String

-- PlatformSettingsService.taskerFinancePolicy; days and cents.
pub record Policy : Type 0 where
  pub earning_clearance_days : ℕ
  pub cash_dispute_clearance_days : ℕ
  pub maximum_outstanding_platform_debt : ℕ
  pub block_cash_bookings_at_debt_limit : Bool

-- The active subscription of a Tasker: its id and the revenue share of its plan, in percent.
pub record Subscription : Type 0 where
  pub id : ℕ
  pub revenue_share_percent : ℕ

-- The database. Receivables stand in the order (confirmedAt, id) in which the service reads them;
-- a booking's open complaints and unfavourable card disputes are counted.
pub record Db : Type 0 where
  pub policy : Policy
  pub bookings : ℕ → Option Booking
  pub wallets : ℕ → Option Wallet
  pub accounts : ℕ → Option Account
  pub earnings : List Earning
  pub receivables : List Receivable
  pub wallet_ledger : List WalletEntry
  pub platform_ledger : List PlatformEntry
  pub payments : List Payment
  pub notifications : List Notification
  pub audits : List Audit
  pub booking_events : List ℕ
  pub active_complaints : ℕ → ℕ
  pub active_chargebacks : ℕ → ℕ
  pub subscriptions : ℕ → Option Subscription

pub data Error : Type 0 where
  no_payment_method negative_earning settlement_differs wallet_currency_mismatch : Error
  idempotency_key_required booking_not_found not_completed_cash_booking : Error
  cash_blocked_by_dispute amount_not_calculated amount_differs confirmation_differs : Error
  account_currency_mismatch negative_payable cash_restricted currency_mismatch : Error
  pending_below_liability aggregate_inconsistent amount_not_positive unique_violation : Error
  earning_not_found not_pending hold_not_later active_dispute active_chargeback row_not_found :
      Error
