-- ===== src/Finance/Payables/Settling.antt =====
-- What a payment by the Tasker does to the debt and the wallet: applyPayableSettlement.
use latache_backend.Prelude.{
  ℕ, ◌≡◌, List, arith, String, ok, ==_refl, >>=-eq-ok, min, Option, ◌-◌, some, ◌∙◌, ap, none, refl,
}
use latache_backend.Prelude.Int.{ℤ, pos, pos_part, ◌-ℤ◌, ◌+ℤ◌}
use latache_backend.Finance.{Db, Receivable, PlatformEntry, Account, Wallet}
use latache_backend.Finance.Entries.{account_or_new, min_ℤ, wallet_or_new}
use latache_backend.Finance.Restriction.{outstanding_of}
use latache_backend.Finance.Payables.{
  Settlement, settlement_entry, pay_loop, apply_payable_settlement,
}
use latache_backend.Finance.Payables.Laws.{pay_loop_total, pay_loop-IsSound}
use latache_backend.Finance.Ledger.{IsConsistent, open_total}
use latache_backend.Finance.Restriction.Laws.{
  apply_restriction_policy_frame, apply_restriction_policy_flag,
}
use latache_backend.Finance.Coverage.{available_of, pending_of}

module _ (now tasker settlement amount : ℕ) (currency : String) (db : Db) where
  abbrev debt : ℤ
  debt = (account_or_new currency (db.accounts tasker)).outstanding_payable

  abbrev pub applied : ℤ
  applied = min_ℤ (pos amount) debt

  abbrev pub paid : List Receivable × List PlatformEntry × ℕ
  paid =
      pay_loop now tasker (settlement_entry tasker settlement currency) (pos_part applied)
        db.receivables

  -- The parts of a settlement that succeeds.
  pub settlement_parts :
      (after : Db) (s : Settlement)
      → apply_payable_settlement now tasker settlement amount currency db ≡ ok (after, s)
      → (paid.2 ≡ 0)
        × (s.applied ≡ applied)
        × (s.overpayment ≡ pos_part (pos amount -ℤ applied))
        × (after.receivables ≡ paid.0)
        × (outstanding_of (after.accounts tasker) ≡ debt -ℤ pos (pos_part applied))
  unfolding apply_payable_settlement
  settlement_parts after s h =
      let (_, positive, h₁) = >>=-eq-ok _ _ h in
      let (_, same, h₂) = >>=-eq-ok _ _ h₁ in
      let (ledger, added, h₃) = >>=-eq-ok _ _ h₂ in
      let (_, enough, h₄) = >>=-eq-ok _ _ h₃ in
      let (credits, credited, h₅) = >>=-eq-ok _ _ h₄ in
      let (last, restricted, h₆) = >>=-eq-ok _ _ h₅ in
      let frame = apply_restriction_policy_frame _ _ _ _ _ _ _ restricted in
      let flag = apply_restriction_policy_flag _ _ _ _ _ _ _ restricted in
      (
        ground (arith, enough),
        ground (arith, h₆),
        ground (arith, h₆),
        ground (arith, h₆, frame),
        ground (arith, h₆, flag, ==_refl tasker),
      )

  -- What the payment leaves in the wallet.
  pub settlement_balances :
      (after : Db) (s : Settlement)
      → apply_payable_settlement now tasker settlement amount currency db ≡ ok (after, s)
      → (available_of (after.wallets tasker)
          ≡ (wallet_or_new currency (db.wallets tasker)).available_balance +ℤ pos s.overpayment)
        × (pending_of (after.wallets tasker)
            ≡ (wallet_or_new currency (db.wallets tasker)).pending_balance)
  unfolding apply_payable_settlement
  settlement_balances after s h =
      let (_, positive, h₁) = >>=-eq-ok _ _ h in
      let (_, same, h₂) = >>=-eq-ok _ _ h₁ in
      let (ledger, added, h₃) = >>=-eq-ok _ _ h₂ in
      let (_, enough, h₄) = >>=-eq-ok _ _ h₃ in
      let (credits, credited, h₅) = >>=-eq-ok _ _ h₄ in
      let (last, restricted, h₆) = >>=-eq-ok _ _ h₅ in
      let frame = apply_restriction_policy_frame _ _ _ _ _ _ _ restricted in
      (ground (arith, h₆, frame, ==_refl tasker), ground (arith, h₆, frame, ==_refl tasker))

pub owed_of_account :
    (currency : String) (account : Option Account)
    → (account_or_new currency account).outstanding_payable ≡ outstanding_of account
owed_of_account currency none = refl
owed_of_account currency (some account) = refl

pub wallet_or_new_balances :
    (currency : String) (w : Option Wallet)
    → ((wallet_or_new currency w).available_balance ≡ available_of w)
      × ((wallet_or_new currency w).pending_balance ≡ pending_of w)
wallet_or_new_balances currency none = (refl, refl)
wallet_or_new_balances currency (some w) = (refl, refl)

-- While the books of the Tasker are in order, a payment that is accepted pays the debt as far as
-- the amount goes, adds exactly the rest to the available balance of the wallet, keeps the pending
-- balance, and leaves the books in order; the result names both parts.
pub apply_payable_settlement_splits :
    (now tasker settlement amount : ℕ) (currency : String) (db after : Db) (s : Settlement)
    → IsConsistent tasker db
    → apply_payable_settlement now tasker settlement amount currency db ≡ ok (after, s)
    → (s.applied ≡ pos (min amount (open_total tasker db.receivables)))
      × (s.overpayment ≡ amount - open_total tasker db.receivables)
      × (available_of (after.wallets tasker)
          ≡ available_of (db.wallets tasker) +ℤ pos (amount - open_total tasker db.receivables))
      × (pending_of (after.wallets tasker) ≡ pending_of (db.wallets tasker))
      × (open_total tasker after.receivables ≡ open_total tasker db.receivables - amount)
      × IsConsistent tasker after
unfolding ◌-ℤ◌
apply_payable_settlement_splits now tasker settlement amount currency db after s c h =
    let parts = settlement_parts now tasker settlement amount currency db after s h in
    let (wallet, pending_left) =
      settlement_balances now tasker settlement amount currency db after s h in
    let (available_before, pending_before) = wallet_or_new_balances currency (db.wallets tasker) in
    let owed = owed_of_account currency (db.accounts tasker) in
    let entry = settlement_entry tasker settlement currency in
    let total = open_total tasker db.receivables in
    let due : applied now tasker settlement amount currency db ≡ pos (min amount total) =
      ground (arith, owed, c.totalled) in
    let paid_total = pay_loop_total now tasker entry (min amount total) db.receivables in
    let rows : after.receivables ≡ (pay_loop now tasker entry (min amount total) db.receivables).0 =
      parts.3 ∙ ap (λ d. (pay_loop now tasker entry (pos_part d) db.receivables).0) due in
    let open_left : open_total tasker after.receivables ≡ total - amount =
      rw rows (omega (arith, paid_total)) in
    let rest : s.overpayment ≡ amount - total =
      parts.2 ∙ ap (λ d. pos_part (pos amount -ℤ d)) due ∙ ground arith in
    (
      parts.1 ∙ due,
      rest,
      rw (wallet, available_before, rest) refl,
      pending_left ∙ pending_before,
      open_left,
      record {
        sound =
            rw rows (pay_loop-IsSound now tasker entry (min amount total) db.receivables c.sound);
        totalled = ground (arith, parts.4, owed, due, open_left);
      },
    )
