-- ===== src/Finance/Payables/Laws.antt =====
-- The loop over the open receivables: how much it pays, and what it keeps of each row.
use latache_backend.Prelude.{ℕ, ◌+◌, ◌-◌, ◌≡◌, List, [], ◌∷◌, min, arith, All}
use latache_backend.Finance.{Receivable, PlatformEntry}
use latache_backend.Finance.Payables.{portion_of, pay_receivable, pay_loop}
use latache_backend.Finance.Ledger.{IsSound, open_amount, open_total}

pub portion_of-eq :
    (tasker remaining : ℕ) (r : Receivable)
    → portion_of tasker remaining r ≡ min remaining (open_amount tasker r)
portion_of-eq tasker remaining r = ground arith

pub open_amount-pay :
    (now tasker remaining : ℕ) (r : Receivable)
    → open_amount tasker (pay_receivable now (portion_of tasker remaining r) r)
        + portion_of tasker remaining r
      ≡ open_amount tasker r
open_amount-pay now tasker remaining r = ground arith

pub pay_receivable-IsSound :
    (now tasker remaining : ℕ) (r : Receivable)
    → IsSound r
    → IsSound (pay_receivable now (portion_of tasker remaining r) r)
pay_receivable-IsSound now tasker remaining r s = ground arith

module _ (now tasker : ℕ) (entry : Receivable → ℕ → PlatformEntry) where
  -- The loop leaves of the debt what the amount does not cover, and of the amount what the debt
  -- does not need.
  pub pay_loop_rest :
      (remaining : ℕ) (rs : List Receivable)
      → (pay_loop now tasker entry remaining rs).2 ≡ remaining - open_total tasker rs
  unfolding pay_loop
  pay_loop_rest remaining [] = omega arith
  pay_loop_rest remaining (r ∷ rs) = omega (
    arith,
    pay_loop_rest (remaining - portion_of tasker remaining r) rs,
    portion_of-eq tasker remaining r,
  )

  pub pay_loop_total :
      (remaining : ℕ) (rs : List Receivable)
      → open_total tasker (pay_loop now tasker entry remaining rs).0
        ≡ open_total tasker rs - remaining
  unfolding pay_loop
  pay_loop_total remaining [] = omega arith
  pay_loop_total remaining (r ∷ rs) = omega (
    arith,
    pay_loop_total (remaining - portion_of tasker remaining r) rs,
    portion_of-eq tasker remaining r,
    open_amount-pay now tasker remaining r,
  )

  pub pay_loop-IsSound :
      (remaining : ℕ) (rs : List Receivable)
      → All IsSound rs
      → All IsSound (pay_loop now tasker entry remaining rs).0
  unfolding pay_loop
  pay_loop-IsSound remaining [] s = tt
  pay_loop-IsSound remaining (r ∷ rs) s = (
    pay_receivable-IsSound now tasker remaining r s.0,
    pay_loop-IsSound (remaining - portion_of tasker remaining r) rs s.1,
  )
