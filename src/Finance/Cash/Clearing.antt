-- ===== src/Finance/Cash/Clearing.antt =====
-- Clearing cash receivables after the time for disputes: markMatureCashReceivablesCleared.
use latache_backend.Prelude.{if◌then◌else◌, ℕ, ◌≡◌, refl, List, [], ◌∷◌, sum_of, ap, arith, false}
use latache_backend.Finance.{Receivable, Db}
use latache_backend.Finance.Cash.{
  mark_mature_cash_receivables_cleared, is_clearable, clear_receivable,
}
use latache_backend.Prelude.Rows.{update_many}

row-cleared :
    (now : ℕ) (r : Receivable)
    → is_clearable now (if is_clearable now r then clear_receivable now r else r) ≡ false
unfolding is_clearable
row-cleared now r = ground arith

cleared_rows :
    (now : ℕ) (rs : List Receivable)
    → (sum_of
          (λ r. if is_clearable now r then 1 else 0)
          (update_many (is_clearable now) (clear_receivable now) rs)
        ≡ 0)
      × (update_many
            (is_clearable now)
            (clear_receivable now)
            (update_many (is_clearable now) (clear_receivable now) rs)
          ≡ update_many (is_clearable now) (clear_receivable now) rs)
unfolding update_many
cleared_rows now [] = (refl, refl)
cleared_rows now (r ∷ rs) =
    let (none_left, same) = cleared_rows now rs in
    let row = row-cleared now r in
    (
      rw row (omega (arith, none_left)),
      rw row (ap (λ l. (if is_clearable now r then clear_receivable now r else r) ∷ l) same),
    )

-- A second clearing at the same time finds nothing to clear and changes nothing.
pub mark_mature_cash_receivables_cleared_once :
    (now : ℕ) (db : Db)
    → let after = (mark_mature_cash_receivables_cleared now db).0 in
      mark_mature_cash_receivables_cleared now after ≡ (after, 0)
unfolding mark_mature_cash_receivables_cleared
mark_mature_cash_receivables_cleared_once now db =
    let (none_left, same) = cleared_rows now db.receivables in rw (none_left, same) refl
