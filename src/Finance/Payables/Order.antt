-- ===== src/Finance/Payables/Order.antt =====
-- The order in which the loop over the open receivables pays, and whose rows it touches.
use latache_backend.Prelude.{
  ℕ, ◌+◌, ◌-◌, ◌≤◌, ◌≡◌, ◌≢◌, refl, List, [], ◌∷◌, ◌++◌, arith, sum_of, ap,
}
use latache_backend.Finance.{Receivable, PlatformEntry}
use latache_backend.Finance.Payables.{portion_of, pay_receivable, pay_loop}
use latache_backend.Finance.Payables.Laws.{portion_of-eq}
use latache_backend.Finance.Ledger.{open_total}

module _ (now tasker : ℕ) (entry : Receivable → ℕ → PlatformEntry) where
  -- Once the amount is used up the loop changes no row and writes nothing.
  pub pay_loop-zero : (rs : List Receivable) → pay_loop now tasker entry 0 rs ≡ (rs, [], 0)
  unfolding pay_loop
  pay_loop-zero [] = refl
  pay_loop-zero (r ∷ rs) = ground (arith, pay_loop-zero rs)

  pay_loop-append :
      (remaining : ℕ) (xs ys : List Receivable)
      → (pay_loop now tasker entry remaining (xs ++ ys)).0
        ≡ (pay_loop now tasker entry remaining xs).0
          ++ (pay_loop now tasker entry (remaining - open_total tasker xs) ys).0
  unfolding pay_loop
  pay_loop-append remaining [] ys = ground arith
  pay_loop-append remaining (x ∷ xs) ys =
      rw (pay_loop-append (remaining - portion_of tasker remaining x) xs ys) (
        ap
          (λ n.
            pay_receivable now (portion_of tasker remaining x) x
            ∷ ((pay_loop now tasker entry (remaining - portion_of tasker remaining x) xs).0
                ++ (pay_loop now tasker entry n ys).0))
          (omega (arith, portion_of-eq tasker remaining x)))

  -- Oldest first: where the receivables in front take the whole amount, those behind them are left
  -- as they are.
  pub pay_loop_oldest_first :
      (remaining : ℕ) (xs ys : List Receivable)
      → remaining ≤ open_total tasker xs
      → (pay_loop now tasker entry remaining (xs ++ ys)).0
        ≡ (pay_loop now tasker entry remaining xs).0 ++ ys
  pay_loop_oldest_first remaining xs ys h =
      let none_left : remaining - open_total tasker xs ≡ 0 = omega arith in
      rw (pay_loop-append remaining xs ys, none_left, pay_loop-zero ys)

  -- What other Taskers owe is not touched.
  pub pay_loop_others :
      (other remaining : ℕ) (rs : List Receivable)
      → other ≢ tasker
      → open_total other (pay_loop now tasker entry remaining rs).0 ≡ open_total other rs
  unfolding pay_loop
  pay_loop_others other remaining [] h = refl
  pay_loop_others other remaining (r ∷ rs) h =
      ground (arith, pay_loop_others other (remaining - portion_of tasker remaining r) rs h)

  -- Where each ledger row is written with the portion that was paid, the rows and what remains
  -- unpaid add up to the amount.
  pub pay_loop_entries :
      ((r : Receivable) (portion : ℕ) → (entry r portion).amount ≡ portion)
      → (remaining : ℕ) (rs : List Receivable)
      → sum_of (λ e. e.amount) (pay_loop now tasker entry remaining rs).1
          + (pay_loop now tasker entry remaining rs).2
        ≡ remaining
  unfolding pay_loop
  pay_loop_entries written remaining [] = omega arith
  pay_loop_entries written remaining (r ∷ rs) = ground (
    arith,
    pay_loop_entries written (remaining - portion_of tasker remaining r) rs,
    written r (portion_of tasker remaining r),
    portion_of-eq tasker remaining r,
  )
