-- ===== src/Finance/Entries.antt =====
-- What the operations of tasker-finance.service.ts share: the upserts of a Tasker's wallet and
-- platform account, and rows added to the two ledgers, whose idempotency key is unique in
-- prisma/schema.prisma (a second row with a key fails the whole transaction).
use latache_backend.Prelude.{
  ℕ, Bool, true, false, ◌≡◌, Option, none, some, List, [], ◌∷◌, ◌++◌, any, String, if◌then◌else◌,
  Result, ok, ◌>>=◌, ◌>>◌, throw_if, ◌||◌, any-append, arith,
}
use latache_backend.Prelude.Int.{ℤ, pos, leb_ℤ}
use latache_backend.Finance.{
  Wallet, Account, WalletEntry, WalletKey, PlatformEntry, PlatformKey, same_wallet_key,
  same_platform_key, Error, unique_violation, EarningStatus, pending, available, Notification,
}

abbrev pub wallet_or_new : String → Option Wallet → Wallet
wallet_or_new currency none = record {
  currency = currency;
  available_balance = pos 0;
  pending_balance = pos 0;
}
wallet_or_new currency (some wallet) = wallet

abbrev pub account_or_new : String → Option Account → Account
account_or_new currency none = record {
  currency = currency;
  outstanding_payable = pos 0;
  cash_bookings_restricted = false;
  restriction_updated_at = none;
}
account_or_new currency (some account) = account

abbrev pub has_wallet_key : WalletKey → List WalletEntry → Bool
has_wallet_key key = any (λ e. same_wallet_key e.idempotency_key key)

abbrev pub has_platform_key : PlatformKey → List PlatformEntry → Bool
has_platform_key key = any (λ e. same_platform_key e.idempotency_key key)

unfoldable pub add_wallet_entry : WalletEntry → List WalletEntry → Result Error (List WalletEntry)
add_wallet_entry e ledger = do
  throw_if (has_wallet_key e.idempotency_key ledger) unique_violation
  ok (ledger ++ e ∷ [])

-- A new row leaves the presence of every other key as it was.
pub add_wallet_entry-has_wallet_key :
    (key : WalletKey) (e : WalletEntry) (ledger after : List WalletEntry)
    → add_wallet_entry e ledger ≡ ok after
    → has_wallet_key key after
      ≡ (has_wallet_key key ledger || same_wallet_key e.idempotency_key key)
unfolding add_wallet_entry ◌>>=◌
add_wallet_entry-has_wallet_key key e ledger after h =
    let parts =
      any-append (λ (x : WalletEntry). same_wallet_key x.idempotency_key key) ledger (e ∷ []) in
    ground (arith, parts)

-- `if (amount > 0)` around the creation of a row
unfoldable pub add_wallet_entry_if :
    Bool → WalletEntry → List WalletEntry → Result Error (List WalletEntry)
unfolding add_wallet_entry
add_wallet_entry_if test e ledger = if test then add_wallet_entry e ledger else ok ledger

unfoldable pub add_platform_entries :
    List PlatformEntry → List PlatformEntry → Result Error (List PlatformEntry)
add_platform_entries [] ledger = ok ledger
add_platform_entries (e ∷ es) ledger = do
  throw_if (has_platform_key e.idempotency_key ledger) unique_violation
  add_platform_entries es (ledger ++ e ∷ [])

abbrev pub min_ℤ : ℤ → ℤ → ℤ
min_ℤ a b = if leb_ℤ a b then a else b

-- `[Pending, PartiallyReversed].includes(status)`
abbrev pub is_unsettled : EarningStatus → Bool
is_unsettled pending = true
is_unsettled available = false
is_unsettled EarningStatus.partially_reversed = true
is_unsettled EarningStatus.reversed = false

abbrev pub notice : ℕ → String → String → ℕ → Notification
notice user type entity_type entity = record {
  user_id = user;
  type = type;
  entity_type = entity_type;
  entity_id = entity;
}
