-- ===== src/Finance/Release/Parts.antt =====
-- The parts of a release: what releaseMatureEarning writes into each table once it succeeds.
use latache_backend.Prelude.{
  none, if◌then◌else◌, ℕ, ◌≡◌, ok, some, arith, ==_refl, ◌>>=◌, List, false, >>=-eq-ok, ok-value,
  Option, ap, sym, ◌∙◌, ◌||◌,
}
use latache_backend.Finance.{
  Db, Earning, Wallet, plan_revenue_share, Receivable, PlatformEntry, WalletEntry, Subscription,
  same_wallet_key,
}
use latache_backend.Prelude.Int.{ℤ, ◌+ℤ◌, pos, ltb_ℤ, ◌-ℤ◌, pos_part}
use latache_backend.Finance.Release.{
  credit_plan_revenue_share, share_amount, release_cleared, releasable_of, has_earning_id, released,
  offset_entry, release_entry,
}
use latache_backend.Finance.Entries.{
  add_wallet_entry, has_wallet_key, wallet_or_new, account_or_new, min_ℤ,
  add_wallet_entry-has_wallet_key,
}
use latache_backend.Finance.Restriction.Laws.{
  apply_restriction_policy_flag, apply_restriction_policy_frame,
}
use latache_backend.Prelude.Rows.{update, put_self}
use latache_backend.Finance.Payables.{pay_loop}
use latache_backend.Finance.Restriction.{outstanding_of}

module _ (percent_of : ℕ → ℕ → ℕ) where
  -- What the revenue share adds: nothing if it was credited before.
  unfoldable pub shared_amount : Earning → Option Subscription → List WalletEntry → ℕ
  shared_amount e subscription ledger =
      if has_wallet_key (plan_revenue_share e.id) ledger
      then 0
      else share_amount percent_of subscription e

  abbrev available_in : ℕ → Db → ℤ
  available_in tasker db = elim (db.wallets tasker) [ none ↦ pos 0 | some w ↦ w.available_balance ]

  abbrev pending_in : ℕ → Db → ℤ
  pending_in tasker db = elim (db.wallets tasker) [ none ↦ pos 0 | some w ↦ w.pending_balance ]

  share_parts :
      (e : Earning) (db after : Db) (w : Wallet)
      → db.wallets e.tasker_id ≡ some w
      → credit_plan_revenue_share percent_of e db ≡ ok after
      → (after.wallets e.tasker_id
          ≡ some (record w {
            available_balance =
                w.available_balance
                +ℤ pos (shared_amount e (db.subscriptions e.tasker_id) db.wallet_ledger);
          }))
        × (after.accounts ≡ db.accounts)
        × (after.receivables ≡ db.receivables)
        × (after.earnings ≡ db.earnings)
  unfolding credit_plan_revenue_share add_wallet_entry ◌>>=◌ shared_amount ◌+ℤ◌
  share_parts e db after w held h =
      (ground (arith, ==_refl e.tasker_id), ground arith, ground arith, ground arith)

  shared_amount-cong :
      (e : Earning) (ledger ledger' : List WalletEntry) (subscription : Option Subscription)
      → has_wallet_key (plan_revenue_share e.id) ledger'
        ≡ (has_wallet_key (plan_revenue_share e.id) ledger || false)
      → shared_amount e subscription ledger' ≡ shared_amount e subscription ledger
  unfolding shared_amount
  shared_amount-cong e ledger ledger' subscription h = ground (arith, h)

  module _ (now : ℕ) (e : Earning) (db : Db) where
    abbrev pub wallet_before : Wallet
    wallet_before = wallet_or_new e.currency (db.wallets e.tasker_id)

    abbrev pub debt_before : ℤ
    debt_before = (account_or_new e.currency (db.accounts e.tasker_id)).outstanding_payable

    abbrev pub debt_offset : ℤ
    debt_offset = min_ℤ (pos (releasable_of e)) debt_before

    abbrev pub made_available : ℤ
    made_available = pos (releasable_of e) -ℤ debt_offset

    abbrev pub paid : List Receivable × List PlatformEntry × ℕ
    paid = pay_loop now e.tasker_id (offset_entry e) (pos_part debt_offset) db.receivables

    -- The rows of the Tasker and of the earning after a release.
    pub record IsReleased (after : Db) : Type 0 where
      pub covered : ltb_ℤ wallet_before.pending_balance (pos (releasable_of e)) ≡ false
      pub receivables : after.receivables ≡ paid.0
      pub earnings :
          after.earnings
          ≡ update (has_earning_id e.id) (released now debt_offset made_available) db.earnings
      pub owed :
          outstanding_of (after.accounts e.tasker_id) ≡ debt_before -ℤ pos (pos_part debt_offset)
      pub wallet :
          after.wallets e.tasker_id
          ≡ some (record wallet_before {
            available_balance =
                wallet_before.available_balance
                +ℤ made_available
                +ℤ pos (shared_amount e (db.subscriptions e.tasker_id) db.wallet_ledger);
            pending_balance = wallet_before.pending_balance -ℤ pos (releasable_of e);
          })

    pub cleared_parts :
        (after : Db) → release_cleared percent_of now e db ≡ ok after → IsReleased after
    unfolding release_cleared same_wallet_key
    cleared_parts after h =
        let (_, same, h₁) = >>=-eq-ok _ _ h in
        let (_, covered, h₂) = >>=-eq-ok _ _ h₁ in
        let (platform, added, h₃) = >>=-eq-ok _ _ h₂ in
        let (_, enough, h₄) = >>=-eq-ok _ _ h₃ in
        let (ledger, logged, h₅) = >>=-eq-ok _ _ h₄ in
        let (shared, credited, h₆) = >>=-eq-ok _ _ h₅ in
        let (last, restricted, h₇) = >>=-eq-ok _ _ h₆ in
        let flag = apply_restriction_policy_flag _ _ _ _ _ _ _ restricted in
        let frame = apply_restriction_policy_frame _ _ _ _ _ _ _ restricted in
        let share = share_parts e _ shared _ (put_self e.tasker_id _ db.wallets) credited in
        let last_row = ok-value h₇ in
        let keys =
          add_wallet_entry-has_wallet_key (plan_revenue_share e.id) (release_entry e made_available)
            db.wallet_ledger ledger logged in
        let same_share =
          shared_amount-cong e db.wallet_ledger ledger (db.subscriptions e.tasker_id) keys in
        record {
          covered = ground (arith, covered);
          receivables = ap (λ d. d.receivables) (sym last_row) ∙ frame.2 ∙ share.2;
          earnings = ap (λ d. d.earnings) (sym last_row) ∙ frame.1 ∙ share.3;
          owed =
              ap (λ d. outstanding_of (d.accounts e.tasker_id)) (sym last_row)
              ∙ flag.1
              ∙ ap (λ f. outstanding_of (f e.tasker_id)) share.1
              ∙ ap outstanding_of (put_self e.tasker_id _ db.accounts);
          wallet =
              ap (λ d. d.wallets e.tasker_id) (sym last_row)
              ∙ ap (λ f. f e.tasker_id) frame.0
              ∙ share.0
              ∙ ap
                  (λ n. some (record wallet_before {
                    available_balance = wallet_before.available_balance +ℤ made_available +ℤ pos n;
                    pending_balance = wallet_before.pending_balance -ℤ pos (releasable_of e);
                  }))
                  same_share;
        }
