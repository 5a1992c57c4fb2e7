-- ===== src/Finance/Refunds/Reimbursement.antt =====
-- What a reversal of a cash refund does to the wallet, in applyConfirmedCashRefundReceivableReversal
-- of src/modules/tasker-finance/tasker-finance.service.ts.
use latache_backend.Finance.{Db, Receivable, commission_reimbursement}
use latache_backend.Finance.Refunds.{reimburse, lower_payable}
use latache_backend.Finance.Payables.Settling.{wallet_or_new_balances}
use latache_backend.Prelude.{
  refl, ok, String, ℕ, ◌>>=◌, ◌≡◌, if◌then◌else◌, arith, Bool-cases, ◌==◌, inl, ==_iff, ap, ◌∙◌,
  ok-value, sym, inr, >>=-eq-ok,
}
use latache_backend.Finance.Entries.{has_wallet_key}
use latache_backend.Finance.Coverage.{available_of, pending_of}
use latache_backend.Prelude.Int.{◌+ℤ◌, pos, int_laws}
use latache_backend.Prelude.Rows.{put_self}

pub lower_wallet :
    (r : Receivable) (amount : ℕ) (db after : Db)
    → lower_payable r amount db ≡ ok after
    → (after.wallets ≡ db.wallets)
      × (after.wallet_ledger ≡ db.wallet_ledger)
      × (after.platform_ledger ≡ db.platform_ledger)
unfolding lower_payable ◌>>=◌
lower_wallet r amount db after h = (ground arith, ground arith, ground arith)

-- What the wallet gets of the part that is given back: all of it, unless the ledger of the wallet
-- shows that it was given back under the reference before.
abbrev pub given_back : String → ℕ → Db → ℕ
given_back reference amount db =
    if has_wallet_key (commission_reimbursement reference) db.wallet_ledger then 0 else amount

pub given_back-none : (reference : String) (db : Db) → given_back reference 0 db ≡ 0
given_back-none reference db = ground arith

pub reimburse_balances :
    (r : Receivable) (amount : ℕ) (reference : String) (db after : Db)
    → reimburse r amount reference db ≡ ok after
    → (available_of (after.wallets r.tasker_id)
        ≡ available_of (db.wallets r.tasker_id) +ℤ pos (given_back reference amount db))
      × (pending_of (after.wallets r.tasker_id) ≡ pending_of (db.wallets r.tasker_id))
unfolding reimburse
reimburse_balances r amount reference db after h =
    let (available_before, pending_before) =
      wallet_or_new_balances r.currency (db.wallets r.tasker_id) in
    elim (Bool-cases (amount == 0)) [
      | inl nothing ↦
          let zero_amount : amount ≡ 0 = (==_iff amount 0).0 nothing in
          let none_given =
            ap (λ a. given_back reference a db) zero_amount ∙ given_back-none reference db in
          let same = ok-value (rw nothing at h) in
          (
            ap (λ (d : Db). available_of (d.wallets r.tasker_id)) (sym same)
                ∙ rw none_given (omega int_laws),
            ap (λ (d : Db). pending_of (d.wallets r.tasker_id)) (sym same),
          )
      | inr some_amount ↦
          elim (Bool-cases (has_wallet_key (commission_reimbursement reference) db.wallet_ledger)) [
            | inl before ↦
                let stored = ok-value (rw (some_amount, before) at h) in
                let none_given : given_back reference amount db ≡ 0 = rw before refl in
                (
                  ap (λ (d : Db). available_of (d.wallets r.tasker_id)) (sym stored)
                      ∙ ap available_of (put_self r.tasker_id _ db.wallets)
                      ∙ available_before
                      ∙ rw none_given (omega int_laws),
                  ap (λ (d : Db). pending_of (d.wallets r.tasker_id)) (sym stored)
                      ∙ ap pending_of (put_self r.tasker_id _ db.wallets)
                      ∙ pending_before,
                )
            | inr new ↦
                let (ledger, _, stored) = >>=-eq-ok _ _ (rw (some_amount, new) at h) in
                let last = ok-value stored in
                let all_given : given_back reference amount db ≡ amount = rw new refl in
                (
                  ap (λ (d : Db). available_of (d.wallets r.tasker_id)) (sym last)
                      ∙ ap available_of (put_self r.tasker_id _ db.wallets)
                      ∙ rw (available_before, all_given) refl,
                  ap (λ (d : Db). pending_of (d.wallets r.tasker_id)) (sym last)
                      ∙ ap pending_of (put_self r.tasker_id _ db.wallets)
                      ∙ pending_before,
                )
          ]
    ]
