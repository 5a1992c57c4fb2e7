-- ===== src/Finance/Refunds.antt =====
-- What a refund to the customer takes back: applyRefundAdjustment and
-- applyConfirmedCashRefundReceivableReversal of
-- src/modules/tasker-finance/tasker-finance.service.ts. `prorate part total amount` is the floating
-- point value of `part / total * amount` rounded to cents.
pub mod Clawback
pub mod Reimbursement
pub mod Reversal
pub mod Replay
use latache_backend.Prelude.{
  ℕ, ◌+◌, ◌-◌, ◌*◌, Bool, true, false, ◌&&◌, ◌||◌, Option, none, some, List, [], ◌∷◌, ◌++◌, ltb,
  ◌==◌, not, if◌then◌else◌, Result, ok, err, ◌>>=◌, ◌>>◌, throw_if, or_throw, str_eq, String, any,
  min, leb, sum_of,
}
use latache_backend.Prelude.Int.{ℤ, pos, pos_part, ◌-ℤ◌, ◌+ℤ◌, neg_part}
use latache_backend.Finance.{
  Booking, Db, Receivable, Payment, PlatformEntry, Earning, Error, WalletEntry, ReceivableStatus,
  receivable_reversal, EarningStatus, refund_clawback, row_not_found, commission_reimbursement,
  same_platform_key,
}
use latache_backend.Finance.Cash.{is_cash_collection}
use latache_backend.Finance.Earnings.{cents, earned_by_booking, owed_by_booking}
use latache_backend.Finance.Entries.{
  wallet_or_new, add_wallet_entry, has_wallet_key, add_platform_entries, notice,
}
use latache_backend.Prelude.Rows.{find, update, put}
use latache_backend.Finance.Release.{has_earning_id}

-- Refunds of the booking that succeeded, this one included.
abbrev pub refunded_amount : ℕ → Payment → ℕ
refunded_amount booking p =
    if p.booking_id == booking && not (is_cash_collection p.kind) then p.amount else 0

-- What of the earning is still in the pending balance.
abbrev pub unreleased_of : Earning → ℕ
unreleased_of e = pos_part (
    pos e.tasker_net_amount
    -ℤ pos e.reversed_amount
    -ℤ e.debt_offset_amount
    -ℤ e.released_to_available_amount)

abbrev pub reverse_earning : ℕ → ℕ → Earning → Earning
reverse_earning now clawback e =
    let reversed_now = e.reversed_amount + clawback in
    let fully = leb e.tasker_net_amount reversed_now in
    record e {
      reversed_amount = reversed_now;
      status = if fully then EarningStatus.reversed else EarningStatus.partially_reversed;
      reversed_at = if fully then some now else none;
      is_blocked = if fully then false else e.is_blocked;
    }

abbrev pub clawback_entry : Booking → Earning → ℕ → ℕ → ℕ → WalletEntry
clawback_entry b e refund_id clawback pending_reversal = record {
  tasker_id = b.tasker_id;
  booking_id = some b.id;
  earning_id = some e.id;
  kind = if ltb 0 pending_reversal then "pending_reversal" else "refund";
  amount = clawback;
  available_delta = pos 0 -ℤ pos (clawback - pending_reversal);
  pending_delta = pos 0 -ℤ pos pending_reversal;
  currency = b.payment_currency;
  idempotency_key = refund_clawback b.id refund_id;
}

-- The writes, where something is taken back.
unfoldable pub take_back : ℕ → Booking → ℕ → ℕ → Earning → Db → Result Error Db
take_back now b refund_id clawback e db = do
  wallet ← or_throw (db.wallets b.tasker_id) row_not_found
  let pending_reversal = min clawback (unreleased_of e)
  let available_clawback = clawback - pending_reversal
  wallet_ledger ←
      add_wallet_entry (clawback_entry b e refund_id clawback pending_reversal) db.wallet_ledger
  ok (record db {
    wallets =
        put b.tasker_id
          (record wallet {
            pending_balance = wallet.pending_balance -ℤ pos pending_reversal;
            available_balance = wallet.available_balance -ℤ pos available_clawback;
          })
          db.wallets;
    earnings = update (has_earning_id e.id) (reverse_earning now clawback) db.earnings;
    wallet_ledger = wallet_ledger;
    notifications =
        db.notifications
        ++ notice b.tasker_id "booking_earning_reversed" "tasker_earning" e.id ∷ [];
  })

module _ (prorate : ℕ → ℕ → ℕ → ℕ) where
  -- How much of the earning a refund takes back.
  unfoldable pub clawback_of : Booking → ℕ → Earning → Db → ℕ
  clawback_of b amount e db =
      let charged = cents b.total_charged_amount in
      let refunded = sum_of (refunded_amount b.id) db.payments in
      let remaining = e.tasker_net_amount - e.reversed_amount in
      let full = ltb 0 charged && leb charged refunded in
      let proportional =
        if ltb 0 charged then prorate amount charged e.tasker_net_amount else amount in
      min (if full then remaining else proportional) remaining

  -- `false` where the booking has no earning.
  unfoldable pub apply_refund_adjustment : ℕ → Booking → ℕ → ℕ → Db → Result Error (Db × Bool)
  apply_refund_adjustment now b refund_id amount db =
      elim (find (earned_by_booking b.id) db.earnings) [
        | none ↦ ok (db, false)
        | some e ↦
            if has_wallet_key (refund_clawback b.id refund_id) db.wallet_ledger
              || clawback_of b amount e db == 0
            then ok (db, true)
            else (do
              after ← take_back now b refund_id (clawback_of b amount e db) e db
              ok (after, true))
      ]

abbrev pub reverse_receivable : ℕ → ℕ → Receivable → Receivable
reverse_receivable reversal outstanding_reversal r =
    let reversed_now = r.reversed_amount + reversal in
    record r {
      reversed_amount = reversed_now;
      outstanding_amount = r.outstanding_amount - outstanding_reversal;
      status =
          if leb r.original_payable_amount reversed_now
          then ReceivableStatus.reversed
          else ReceivableStatus.partially_reversed;
    }

abbrev pub reversal_entry : Receivable → ℕ → ℕ → String → PlatformEntry
reversal_entry r reversal outstanding_reversal reference = record {
  tasker_id = r.tasker_id;
  booking_id = r.booking_id;
  receivable_id = r.id;
  earning_id = none;
  kind = "receivable_reversal";
  amount = reversal;
  payable_delta = pos 0 -ℤ pos outstanding_reversal;
  currency = r.currency;
  idempotency_key = receivable_reversal reference;
}

-- The platform gives back the commission that was already settled.
unfoldable pub reimburse : Receivable → ℕ → String → Db → Result Error Db
reimburse r amount reference db =
    let wallet = wallet_or_new r.currency (db.wallets r.tasker_id) in
    if amount == 0
    then ok db
    else if has_wallet_key (commission_reimbursement reference) db.wallet_ledger
    then ok (record db { wallets = put r.tasker_id wallet db.wallets })
    else (do
      wallet_ledger ←
          add_wallet_entry
            (record {
              tasker_id = r.tasker_id;
              booking_id = some r.booking_id;
              earning_id = none;
              kind = "adjustment";
              amount = amount;
              available_delta = pos amount;
              pending_delta = pos 0;
              currency = r.currency;
              idempotency_key = commission_reimbursement reference;
            })
            db.wallet_ledger
      ok (record db {
        wallets =
            put r.tasker_id
              (record wallet { available_balance = wallet.available_balance +ℤ pos amount })
              db.wallets;
        wallet_ledger = wallet_ledger;
      }))

-- The account's row after the reversal; the update is made only for a positive amount.
unfoldable pub lower_payable : Receivable → ℕ → Db → Result Error Db
lower_payable r amount db = if amount == 0 then ok db else (do
  account ← or_throw (db.accounts r.tasker_id) row_not_found
  ok (record db {
    accounts =
        put r.tasker_id
          (record account { outstanding_payable = account.outstanding_payable -ℤ pos amount })
          db.accounts;
  }))

pub record Reversed : Type 0 where
  pub reversal_amount : ℕ
  pub reimbursement_amount : ℕ

abbrev pub nothing_reversed : Reversed
nothing_reversed = record { reversal_amount = 0; reimbursement_amount = 0 }

-- The amounts of a reversal that was made before, from its ledger row.
abbrev pub recorded_reversal : PlatformEntry → Reversed
recorded_reversal entry = record {
  reversal_amount = entry.amount;
  reimbursement_amount =
      entry.amount - (pos_part entry.payable_delta + neg_part entry.payable_delta);
}

unfoldable pub reverse_locked : Receivable → ℕ → String → Db → Result Error (Db × Reversed)
unfolding reimburse lower_payable
reverse_locked r reversal reference db = do
  let outstanding_reversal = min r.outstanding_amount reversal
  let reimbursement = reversal - outstanding_reversal
  lowered ← lower_payable r outstanding_reversal (record db {
    receivables =
        update (λ row. row.id == r.id) (reverse_receivable reversal outstanding_reversal)
          db.receivables;
  })
  paid ← reimburse r reimbursement reference lowered
  platform_ledger ←
      add_platform_entries (reversal_entry r reversal outstanding_reversal reference ∷ [])
        paid.platform_ledger
  ok (
    record paid { platform_ledger = platform_ledger },
    record { reversal_amount = reversal; reimbursement_amount = reimbursement },
  )

module _ (prorate : ℕ → ℕ → ℕ → ℕ) where
  -- The share of the payable that the refund reverses, up to what is not reversed yet.
  unfoldable pub reversal_of : ℕ → Receivable → ℕ
  reversal_of amount r =
      min (prorate amount r.cash_collected_amount r.original_payable_amount)
        (r.original_payable_amount - r.reversed_amount)

  unfoldable pub reverse_cash_receivable : ℕ → String → ℕ → Db → Result Error (Db × Reversed)
  reverse_cash_receivable booking reference amount db =
      elim (find (owed_by_booking booking) db.receivables) [
        | none ↦ ok (db, nothing_reversed)
        | some r ↦
            elim (find (λ e. same_platform_key e.idempotency_key (receivable_reversal reference))
              db.platform_ledger) [
                | some entry ↦ ok (db, recorded_reversal entry)
                | none ↦
                    if r.cash_collected_amount == 0 || reversal_of amount r == 0
                    then ok (db, nothing_reversed)
                    else reverse_locked r (reversal_of amount r) reference db
              ]
      ]
