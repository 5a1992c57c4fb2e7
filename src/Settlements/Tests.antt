-- ===== src/Settlements/Tests.antt =====
-- Runs of the settlements of a Tasker who owes 12.00 and has 3.00 in the wallet, and the theorems
-- applied to them.
use latache_backend.Settlements.{
  SettlementDb, SettlementRow, pay_from_wallet, completed, pending_review, SettlementError,
  not_in_review, complete,
}
use latache_backend.Finance.Tests.{books, books-IsConsistent}
use latache_backend.Settlements.Orderly.Runs.{
  Request, run, run-IsOrderly, creates, approves, delivers,
}
use latache_backend.Settlements.Webhook.{
  Intent, handle_intent, payment_succeeded, handle_found, receive_payment,
}
use latache_backend.Prelude.{◌∷◌, List, Result, arith, some, [], none, ◌>>=◌, ◌≡◌, ok, refl, err}
use latache_backend.Prelude.Int.{pos, ◌≤ℤ◌, ◌-ℤ◌}
use latache_backend.Settlements.Orderly.{IsOrderly}
use latache_backend.Settlements.Once.{decide, rejection, approval, decide_once}
use latache_backend.Settlements.Reviews.{approve}
use latache_backend.Finance.Release.Balances.{worth}
use latache_backend.Settlements.Requests.{intent_created}
use latache_backend.Finance.Coverage.{pending_of}
use latache_backend.Settlements.Delivery.{handle_intent_once}
use latache_backend.Finance.Ledger.{open_total, IsConsistent}
use latache_backend.Settlements.Wallet.{pay_from_wallet_conserves}
use latache_backend.Finance.Entries.{add_wallet_entry, add_platform_entries}
use latache_backend.Prelude.Rows.{find}
use latache_backend.Finance.Payables.{apply_payable_settlement, pay_loop}
use latache_backend.Finance.Restriction.{apply_restriction_policy}
use latache_backend.Settlements.Life.{Follows}
use latache_backend.Settlements.Life.Runs.{run-Follows}

-- A bank transfer of 5.00 that waits for review.
abbrev transfer : SettlementRow
transfer = record {
  id = 7;
  tasker_id = 1;
  method = "bank_transfer";
  status = pending_review;
  amount = 500;
  applied_amount = pos 0;
  overpayment_amount = 0;
  currency = "eur";
  idempotency_key = "k7";
  external_reference = some "RF1";
  provider_reference = none;
  note = none;
  admin_note = none;
  failure_reason = none;
  created_by_id = 1;
  reviewed_by_id = none;
  reviewed_at = none;
  completed_at = none;
}

abbrev from_wallet : SettlementRow
from_wallet = record transfer {
  id = 8;
  method = "wallet";
  status = completed;
  amount = 300;
  idempotency_key = "k8";
  external_reference = none;
}

abbrev desk : SettlementDb
desk = record { finance = books; settlements = transfer ∷ []; audits = [] }

abbrev after_of : Result SettlementError SettlementDb → SettlementDb
after_of (ok after) = after
after_of (err e) = desk

desk-IsOrderly : IsOrderly desk
desk-IsOrderly = record { accounted = (λ c. cc, tt); single = λ t. ground arith }

-- The card payment of 7.00 is refused while the transfer is open, then made once that is approved.
abbrev day : List Request
day =
    creates 8 61 1
      (record { method = "stripe"; amount = some (pos 700); reference = none; note = none }) "k8"
      (intent_created "pi_8")
    ∷ approves 62 2 7 none none
    ∷ creates 8 63 1
        (record { method = "stripe"; amount = some (pos 700); reference = none; note = none }) "k9"
        (intent_created "pi_8")
    ∷ delivers 64
        (record {
          id = "pi_8";
          settlement_id = some 8;
          amount_received = 700;
          amount = 700;
          error_message = none;
        })
        payment_succeeded
    ∷ []

run-IsOrderly_example : IsOrderly (run day desk)
run-IsOrderly_example = run-IsOrderly day desk desk-IsOrderly

run-Follows_example : Follows desk (run day desk)
run-Follows_example = run-Follows day desk

abbrev wallet_desk : SettlementDb
wallet_desk = record desk { settlements = from_wallet ∷ [] }

abbrev wallet_paid : SettlementDb
wallet_paid = after_of (pay_from_wallet 60 from_wallet wallet_desk)

wallet_runs : pay_from_wallet 60 from_wallet wallet_desk ≡ ok wallet_paid
unfolding pay_from_wallet ◌>>=◌ add_wallet_entry apply_payable_settlement add_platform_entries
    pay_loop ◌-ℤ◌ apply_restriction_policy
wallet_runs = refl

pay_from_wallet_conserves_example :
    (pos 300 ≤ℤ pos 300)
    × (worth 1 wallet_paid.finance ≡ worth 1 books)
    × (pending_of (wallet_paid.finance.wallets 1) ≡ pos 5000)
    × (open_total 1 wallet_paid.finance.receivables ≡ 900)
    × IsConsistent 1 wallet_paid.finance
pay_from_wallet_conserves_example =
    pay_from_wallet_conserves 60 from_wallet wallet_desk wallet_paid wallet_runs books-IsConsistent

abbrev approved : SettlementDb
approved = after_of (decide (approval 60 2 (some (pos 450)) none) 7 desk)

approval_runs : decide (approval 60 2 (some (pos 450)) none) 7 desk ≡ ok approved
unfolding decide approve ◌>>=◌ find complete apply_payable_settlement add_platform_entries pay_loop
    ◌-ℤ◌ apply_restriction_policy
approval_runs = refl

decide_once_example : decide (rejection 61 3 "late") 7 approved ≡ err not_in_review
decide_once_example =
    decide_once (approval 60 2 (some (pos 450)) none) (rejection 61 3 "late") 7 desk approved
      approval_runs

abbrev by_card : Intent
by_card = record {
  id = "pi_7";
  settlement_id = some 7;
  amount_received = 1500;
  amount = 1500;
  error_message = none;
}

abbrev card_paid : SettlementDb
card_paid = after_of (handle_intent 60 by_card payment_succeeded desk)

card_runs : handle_intent 60 by_card payment_succeeded desk ≡ ok card_paid
unfolding handle_intent ◌>>=◌ find handle_found receive_payment complete apply_payable_settlement
    add_platform_entries pay_loop ◌-ℤ◌ apply_restriction_policy
card_runs = refl

handle_intent_once_example : handle_intent 70 by_card payment_succeeded card_paid ≡ ok card_paid
handle_intent_once_example = handle_intent_once 60 70 by_card desk card_paid card_runs
