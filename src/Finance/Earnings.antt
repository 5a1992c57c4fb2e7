-- ===== src/Finance/Earnings.antt =====
-- The life of an earning before its release: createPendingEarning, blockForDispute,
-- unblockAfterDispute and earningAction of src/modules/tasker-finance/tasker-finance.service.ts.
pub mod Creation
pub mod Holds
use latache_backend.Prelude.{
  ℕ, ◌+◌, ◌-◌, ◌*◌, Bool, true, false, ◌&&◌, ◌||◌, Option, none, some, List, [], ◌∷◌, ◌++◌, ltb,
  ◌==◌, not, if◌then◌else◌, Result, ok, err, ◌>>=◌, ◌>>◌, throw_if, or_throw, str_eq, is_some,
  String, leb,
}
use latache_backend.Prelude.Int.{ℤ, pos, ◌+ℤ◌}
use latache_backend.Prelude.Rows.{put, find, update, update_many}
use latache_backend.Finance.{
  Db, Booking, Earning, Receivable, PaymentSource, WalletEntry, EarningStatus, Error,
  no_payment_method, negative_earning, settlement_differs, wallet_currency_mismatch,
  pending_earning, Audit, hold_not_later, earning_not_found, not_pending, active_chargeback,
  active_dispute,
}
use latache_backend.Finance.Entries.{wallet_or_new, add_wallet_entry_if, is_unsettled, notice}
use latache_backend.Finance.Release.{has_earning_id, is_held, has_active_dispute}

abbrev pub day_ms : ℕ
day_ms = 24 * 60 * 60 * 1000

-- `money(null)` is 0.
abbrev pub cents : Option ℕ → ℕ
cents none = 0
cents (some n) = n

abbrev pub earned_by_booking : ℕ → Earning → Bool
earned_by_booking booking e = e.booking_id == booking

abbrev pub owed_by_booking : ℕ → Receivable → Bool
owed_by_booking booking r = r.booking_id == booking

-- What the service, less an included tax, and the tip come to; and the tax that is taken out.
abbrev pub earned_gross : Booking → ℕ
earned_gross b = cents b.service_amount + b.tip_amount

abbrev pub included_tax : Booking → ℕ
included_tax b = if b.tax_inclusive then b.tax_amount else 0

abbrev pub new_earning : ℕ → ℕ → ℕ → String → PaymentSource → Booking → ℕ → Earning
new_earning id gross settled_at reference source b clears_at = record {
  id = id;
  booking_id = b.id;
  tasker_id = b.tasker_id;
  payment_source = source;
  gross_customer_amount = gross;
  service_amount = cents b.service_amount;
  platform_commission_amount = b.platform_fee_amount;
  tax_amount = b.tax_amount;
  service_surcharge_amount = b.service_surcharge_amount;
  tip_amount = b.tip_amount;
  donation_amount = b.donation_amount;
  tasker_net_amount = earned_gross b - included_tax b;
  reversed_amount = 0;
  debt_offset_amount = pos 0;
  released_to_available_amount = pos 0;
  currency = b.payment_currency;
  status = EarningStatus.pending;
  is_blocked = false;
  block_reason = none;
  blocked_at = none;
  hold_extended_until = none;
  provider_settlement_reference = reference;
  settled_at = settled_at;
  clears_at = clears_at;
  released_at = none;
  reversed_at = none;
}

abbrev pub same_settlement : Booking → ℕ → String → Earning → Bool
same_settlement b gross reference e =
    e.tasker_id == b.tasker_id
    && (str_eq e.provider_settlement_reference reference
        && (e.tasker_net_amount == earned_gross b - included_tax b
            && e.gross_customer_amount == gross))

-- Where the earning does not exist yet. `id` is the identifier that the database gives to it.
unfoldable pub record_earning : ℕ → ℕ → ℕ → String → PaymentSource → Booking → Db → Result Error Db
unfolding add_wallet_entry_if
record_earning id gross settled_at reference source b db = do
  let wallet = wallet_or_new b.payment_currency (db.wallets b.tasker_id)
  throw_if (not (str_eq wallet.currency b.payment_currency)) wallet_currency_mismatch
  let clears_at = settled_at + db.policy.earning_clearance_days * day_ms
  let e = new_earning id gross settled_at reference source b clears_at
  let net = e.tasker_net_amount
  wallet_ledger ←
      add_wallet_entry_if (ltb 0 net)
        (record {
          tasker_id = b.tasker_id;
          booking_id = some b.id;
          earning_id = some id;
          kind = "pending_earning";
          amount = net;
          available_delta = pos 0;
          pending_delta = pos net;
          currency = b.payment_currency;
          idempotency_key = pending_earning b.id;
        })
        db.wallet_ledger
  ok (record db {
    wallets =
        put b.tasker_id (record wallet { pending_balance = wallet.pending_balance +ℤ pos net })
          db.wallets;
    earnings = db.earnings ++ e ∷ [];
    wallet_ledger = wallet_ledger;
    notifications =
        db.notifications ++ notice b.tasker_id "booking_earning_pending" "tasker_earning" id ∷ [];
  })

unfoldable pub create_pending_earning : ℕ → ℕ → ℕ → String → Booking → Db → Result Error Db
create_pending_earning id gross settled_at reference b db = do
  source ← or_throw b.payment_source no_payment_method
  throw_if (ltb (earned_gross b) (included_tax b)) negative_earning
  elim (find (earned_by_booking b.id) db.earnings) [
    | none ↦ record_earning id gross settled_at reference source b db
    | some e ↦ do throw_if (not (same_settlement b gross reference e)) settlement_differs; ok db
  ]

abbrev pub block_earning : ℕ → String → Earning → Earning
block_earning now reason e = record e {
  is_blocked = true;
  block_reason = some reason;
  blocked_at = some now;
}

abbrev pub unblock_earning : Earning → Earning
unblock_earning e = record e { is_blocked = false; block_reason = none; blocked_at = none }

-- The first half of blockForDispute: a dispute pauses an earning that is not released yet.
unfoldable pub pause_earning : ℕ → ℕ → String → Db → Db
pause_earning now booking reason db = elim (find (earned_by_booking booking) db.earnings) [
  | none ↦ db
  | some e ↦
      if is_unsettled e.status && not e.is_blocked
      then record db {
        earnings = update (has_earning_id e.id) (block_earning now reason) db.earnings;
        notifications =
            db.notifications
            ++ notice e.tasker_id "booking_earning_blocked" "tasker_earning" e.id ∷ [];
      }
      else db
]

-- Its second half marks the receivable of a cash booking.
unfoldable pub dispute_receivable : ℕ → ℕ → String → Db → Db
dispute_receivable now booking reason db = elim (find (owed_by_booking booking) db.receivables) [
  | none ↦ db
  | some r ↦ if r.is_disputed then db else record db {
    receivables =
        update (λ row. row.id == r.id)
          (λ row. record row {
            is_disputed = true;
            dispute_block_reason = some reason;
            dispute_blocked_at = some now;
          })
          db.receivables;
  }
]

unfoldable pub block_for_dispute : ℕ → ℕ → String → Db → Db
unfolding pause_earning dispute_receivable
block_for_dispute now booking reason db =
    dispute_receivable now booking reason (pause_earning now booking reason db)

unfoldable pub unblock_after_dispute : ℕ → ℕ → Db → Db
unblock_after_dispute now booking db = if has_active_dispute booking db then db else record db {
  earnings =
      update_many (λ e. earned_by_booking booking e && is_unsettled e.status) unblock_earning
        db.earnings;
  receivables =
      update_many (owed_by_booking booking)
        (λ r. record r {
          is_disputed = false;
          dispute_block_reason = none;
          dispute_blocked_at = none;
          cleared_at = some now;
        })
        db.receivables;
}

pub data HoldAction : Type 0 where
  block unblock : HoldAction
  extend_clearance : Option ℕ → HoldAction

-- The later of the clearance date and its extension.
abbrev pub effective_clearance : Earning → ℕ
effective_clearance e = later e.hold_extended_until
  where
    later : Option ℕ → ℕ
    later none = e.clears_at
    later (some until) = if ltb e.clears_at until then until else e.clears_at

-- The row that the action writes, or its refusal.
unfoldable pub hold_action : ℕ → HoldAction → String → Earning → Db → Result Error Earning
hold_action now (extend_clearance none) reason e db = err hold_not_later
hold_action now (extend_clearance (some until)) reason e db = do
  throw_if (leb until (effective_clearance e)) hold_not_later
  let extended = record e { hold_extended_until = some until }
  ok (
      if e.is_blocked
      then extended
      else record extended { block_reason = some reason; blocked_at = some now })
hold_action now block reason e db = ok (block_earning now reason e)
hold_action now unblock reason e db = do
  throw_if (ltb 0 (db.active_chargebacks e.booking_id)) active_chargeback
  throw_if (ltb 0 (db.active_complaints e.booking_id)) active_dispute
  ok (unblock_earning e)

abbrev pub action_name : HoldAction → String
action_name block = "tasker_earning_block"
action_name unblock = "tasker_earning_unblock"
action_name (extend_clearance until) = "tasker_earning_extend_clearance"

abbrev pub action_notice : HoldAction → String
action_notice block = "booking_earning_blocked"
action_notice unblock = "booking_earning_unblocked"
action_notice (extend_clearance until) = "booking_earning_blocked"

unfoldable pub earning_action : ℕ → ℕ → ℕ → HoldAction → String → Db → Result Error Db
unfolding hold_action
earning_action now actor id action reason db = do
  e ← or_throw (find (has_earning_id id) db.earnings) earning_not_found
  throw_if (not (is_unsettled e.status) || is_some e.released_at) not_pending
  row ← hold_action now action reason e db
  ok (record db {
    earnings = update (has_earning_id e.id) (λ _. row) db.earnings;
    audits =
        db.audits
        ++ record {
          actor_id = actor;
          target_user_id = e.tasker_id;
          action = action_name action;
          entity_id = e.id;
          reason = reason;
        }
          ∷ [];
    notifications =
        db.notifications ++ notice e.tasker_id (action_notice action) "tasker_earning" e.id ∷ [];
  })
