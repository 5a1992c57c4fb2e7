-- ===== src/Finance/Cash/Laws.antt =====
-- What the confirmation of a cash payment guarantees: confirmCashCollection.
use latache_backend.Prelude.{
  ℕ, ◌+◌, ◌-◌, ◌≡◌, sym, ap, ok, false, String, ◌*◌, ◌++◌, arith, ==_refl, sum_of-append, ◌∷◌, [],
  All-append, >>=-eq-ok, ok-value, ◌∙◌, ltb,
}
use latache_backend.Prelude.Int.{pos, ◌+ℤ◌, sub_ℕ, add_exact}
use latache_backend.Prelude.Rows.{put_self}
use latache_backend.Finance.{Db, Booking}
use latache_backend.Finance.Restriction.{outstanding_of}
use latache_backend.Finance.Ledger.{IsConsistent, IsSound, open_amount, open_total}
use latache_backend.Finance.Cash.{
  new_receivable, record_cash, payable_of, payable_is_negative, economic_earning,
}
use latache_backend.Finance.Earnings.{day_ms, earned_gross, included_tax}
use latache_backend.Finance.Restriction.Laws.{
  apply_restriction_policy_frame, apply_restriction_policy_flag,
}
use latache_backend.Finance.Payables.Settling.{owed_of_account}

new_receivable-IsSound :
    (id now tasker expected : ℕ) (key : String) (clears : ℕ) (b : Booking)
    → IsSound (new_receivable id now tasker expected key clears b)
new_receivable-IsSound id now tasker expected key clears b = ground arith

open_amount-new_receivable :
    (id now tasker expected : ℕ) (key : String) (clears : ℕ) (b : Booking)
    → open_amount tasker (new_receivable id now tasker expected key clears b)
      ≡ payable_of expected b
open_amount-new_receivable id now tasker expected key clears b = ground (arith, ==_refl tasker)

split_cash :
    (gross tax expected : ℕ)
    → ltb (expected + tax) gross ≡ false
    → sub_ℕ gross tax +ℤ pos (expected + tax - gross) ≡ pos expected
unfolding ◌+ℤ◌
split_cash gross tax expected h = ground arith

module _ (id payment now tasker : ℕ) (key : String) (b : Booking) (db after : Db) where
  pub record_cash_parts :
      (expected : ℕ)
      → record_cash id payment now tasker expected key b db ≡ ok after
      → (payable_is_negative expected b ≡ false)
        × (after.receivables
            ≡ db.receivables
              ++ new_receivable id now tasker expected key
                  (now + db.policy.cash_dispute_clearance_days * day_ms)
                  b
                ∷ [])
        × (outstanding_of (after.accounts tasker)
            ≡ outstanding_of (db.accounts tasker) +ℤ pos (payable_of expected b))
  unfolding record_cash
  record_cash_parts expected h =
      let (_, same, h₁) = >>=-eq-ok _ _ h in
      let (_, positive, h₂) = >>=-eq-ok _ _ h₁ in
      let (_, unused, h₃) = >>=-eq-ok _ _ h₂ in
      let (ledger, logged, h₄) = >>=-eq-ok _ _ h₃ in
      let (_, first, h₅) = >>=-eq-ok _ _ h₄ in
      let (restricted, r, h₆) = >>=-eq-ok _ _ h₅ in
      let last = ok-value h₆ in
      let frame = apply_restriction_policy_frame _ _ _ _ _ _ _ r in
      let flag = apply_restriction_policy_flag _ _ _ _ _ _ _ r in
      (
        ground (arith, positive),
        ap (λ d. d.receivables) (sym last) ∙ frame.2,
        ap (λ d. outstanding_of (d.accounts tasker)) (sym last)
            ∙ flag.1
            ∙ ap outstanding_of (put_self tasker _ db.accounts)
            ∙ ap (λ x. x +ℤ pos (payable_of expected b))
                (owed_of_account b.payment_currency (db.accounts tasker)),
      )

  -- Where the books of the Tasker are in order, a confirmation that is recorded adds exactly the
  -- payable to the debt, the payable is the cash less what the Tasker keeps of it, and the books of
  -- the Tasker stay in order.
  pub record_cash_keeps :
      (expected : ℕ)
      → IsConsistent tasker db
      → record_cash id payment now tasker expected key b db ≡ ok after
      → (open_total tasker after.receivables
          ≡ open_total tasker db.receivables + payable_of expected b)
        × (economic_earning b +ℤ pos (payable_of expected b) ≡ pos expected)
        × IsConsistent tasker after
  record_cash_keeps expected c h =
      let parts = record_cash_parts expected h in
      let clears = now + db.policy.cash_dispute_clearance_days * day_ms in
      let r = new_receivable id now tasker expected key clears b in
      let sums = sum_of-append (open_amount tasker) db.receivables (r ∷ []) in
      let mine = open_amount-new_receivable id now tasker expected key clears b in
      let total : open_total tasker after.receivables
          ≡ open_total tasker db.receivables + payable_of expected b =
        rw parts.1 (omega (arith, sums, mine)) in
      (
        total,
        split_cash (earned_gross b) (included_tax b) expected parts.0,
        record {
          sound = rw parts.1 (
              All-append IsSound db.receivables (r ∷ []) c.sound
                (new_receivable-IsSound id now tasker expected key clears b, tt));
          totalled = rw (parts.2, total, c.totalled) (add_exact _ _);
        },
      )
