-- ===== src/Settlements/Wallet.antt =====
-- Payments out of the wallet: payFromWallet of
-- src/modules/tasker-finance/platform-payable-settlements.service.ts.
use mathlib.Core.Path.{subst}
use latache_backend.Settlements.{SettlementDb, SettlementRow, pay_from_wallet, debit_wallet}
use latache_backend.Finance.Payables.{Settlement, apply_payable_settlement}
use latache_backend.Finance.{Db}
use latache_backend.Prelude.{
  ℕ, String, ◌≡◌, ok, >>=-eq-ok, ok-value, ap, sym, ◌∙◌, ◌-◌, false, throw_if-eq_ok, arith,
}
use latache_backend.Finance.Ledger.{IsConsistent, open_total}
use latache_backend.Finance.Coverage.{available_of, pending_of}
use latache_backend.Finance.Release.Balances.{worth}
use latache_backend.Prelude.Int.{◌-ℤ◌, pos, ◌+ℤ◌, ◌≤ℤ◌, int_laws, ℤ, ltb_ℤ}
use latache_backend.Finance.Payables.Settling.{
  apply_payable_settlement_splits, wallet_or_new_balances,
}
use latache_backend.Prelude.Rows.{put_self}
use latache_backend.Settlements.Parts.{complete_parts}
use latache_backend.Finance.Entries.{wallet_or_new}

-- An accepted payment raises what the Tasker is worth by its amount.
pub apply_payable_settlement_raises :
    (now tasker settlement amount : ℕ) (currency : String) (db after : Db) (s : Settlement)
    → IsConsistent tasker db
    → apply_payable_settlement now tasker settlement amount currency db ≡ ok (after, s)
    → worth tasker after ≡ worth tasker db +ℤ pos amount
apply_payable_settlement_raises now tasker settlement amount currency db after s c h =
    let (applied, over, wallet, pending_left, left, kept) =
      apply_payable_settlement_splits now tasker settlement amount currency db after s c h in
    rw (wallet, pending_left, kept.totalled, c.totalled, left) (omega int_laws)

ltb_ℤ-false : (a b : ℤ) → ltb_ℤ a b ≡ false → b ≤ℤ a
ltb_ℤ-false a b h = ground arith

module _ (row : SettlementRow) (db after : Db) (done : debit_wallet row db ≡ ok after) where
  pub debit_wallet_parts :
      (available_of (after.wallets row.tasker_id)
        ≡ available_of (db.wallets row.tasker_id) -ℤ pos row.amount)
      × (pending_of (after.wallets row.tasker_id) ≡ pending_of (db.wallets row.tasker_id))
      × (pos row.amount ≤ℤ available_of (db.wallets row.tasker_id))
      × (after.accounts ≡ db.accounts)
      × (after.receivables ≡ db.receivables)
  unfolding debit_wallet
  debit_wallet_parts =
      let (_, same, h₁) = >>=-eq-ok _ _ done in
      let (_, enough, h₂) = >>=-eq-ok _ _ h₁ in
      let (ledger, added, h₃) = >>=-eq-ok _ _ h₂ in
      let last = ok-value h₃ in
      let (available_before, pending_before) =
        wallet_or_new_balances row.currency (db.wallets row.tasker_id) in
      (
        ap (λ (d : Db). available_of (d.wallets row.tasker_id)) (sym last)
            ∙ ap available_of (put_self row.tasker_id _ db.wallets)
            ∙ ap (λ a. a -ℤ pos row.amount) available_before,
        ap (λ (d : Db). pending_of (d.wallets row.tasker_id)) (sym last)
            ∙ ap pending_of (put_self row.tasker_id _ db.wallets)
            ∙ pending_before,
        subst (λ a. pos row.amount ≤ℤ a) available_before
            (ltb_ℤ-false (wallet_or_new row.currency (db.wallets row.tasker_id)).available_balance
              (pos row.amount) (throw_if-eq_ok _ _ enough)),
        ap (λ (d : Db). d.accounts) (sym last),
        ap (λ (d : Db). d.receivables) (sym last),
      )

module _ (now : ℕ) (row : SettlementRow) (db after : SettlementDb)
    (done : pay_from_wallet now row db ≡ ok after) (c : IsConsistent row.tasker_id db.finance) where
  -- A payment out of the wallet that succeeds was covered by the available balance, leaves what the
  -- Tasker is worth and the pending balance as they were, lowers what is owed by its amount, and
  -- leaves the books in order.
  pub pay_from_wallet_conserves :
      (pos row.amount ≤ℤ available_of (db.finance.wallets row.tasker_id))
      × (worth row.tasker_id after.finance ≡ worth row.tasker_id db.finance)
      × (pending_of (after.finance.wallets row.tasker_id)
          ≡ pending_of (db.finance.wallets row.tasker_id))
      × (open_total row.tasker_id after.finance.receivables
          ≡ open_total row.tasker_id db.finance.receivables - row.amount)
      × IsConsistent row.tasker_id after.finance
  unfolding pay_from_wallet
  pay_from_wallet_conserves =
      let (debited, debit, paid) = >>=-eq-ok _ _ done in
      let (taken, pending_same, covered, accounts, receivables) =
        debit_wallet_parts row db.finance debited debit in
      let (books_after, result, settled, split, rows, finance) =
        complete_parts now row.amount row (record db { finance = debited }) after paid in
      let before : IsConsistent row.tasker_id debited = record {
        sound = rw receivables c.sound;
        totalled = rw (accounts, receivables) c.totalled;
      } in
      let owner = row.tasker_id in
      let raised =
        apply_payable_settlement_raises now owner row.id row.amount row.currency debited books_after
          result before settled in
      let (applied, over, wallet, pending_left, left, kept) =
        apply_payable_settlement_splits now owner row.id row.amount row.currency debited books_after
          result before settled in
      let worth_debited : worth owner debited ≡ worth owner db.finance -ℤ pos row.amount =
        rw (taken, pending_same, accounts) (omega int_laws) in
      (
        covered,
        ap (worth owner) finance
            ∙ raised
            ∙ ap (λ w. w +ℤ pos row.amount) worth_debited
            ∙ omega int_laws,
        ap (λ (d : Db). pending_of (d.wallets owner)) finance ∙ pending_left ∙ pending_same,
        ap (λ (d : Db). open_total owner d.receivables) finance
            ∙ left
            ∙ ap (λ l. open_total owner l - row.amount) receivables,
        rw finance (record { sound = kept.sound; totalled = kept.totalled }),
      )
