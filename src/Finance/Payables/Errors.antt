-- ===== src/Finance/Payables/Errors.antt =====
-- How a payment by the Tasker can fail: applyPayableSettlement.
use latache_backend.Prelude.{
  arith, ℕ, String, ◌>>=◌, List, Bool, ◌≡◌, ◌≢◌, err, ◌∷◌, Bool-cases, inl, inr, ◌++◌, ltb, [],
  false, >>=-eq-err,
}
use latache_backend.Finance.Payables.Settling.{applied, paid}
use latache_backend.Finance.{
  Db, Error, WalletEntry, PlatformEntry, unique_violation, aggregate_inconsistent, row_not_found,
}
use latache_backend.Finance.Entries.{
  add_platform_entries, add_wallet_entry_if, add_wallet_entry, has_platform_key,
}
use latache_backend.Finance.Payables.{apply_payable_settlement, settlement_entry}
use latache_backend.Finance.Restriction.{apply_restriction_policy}
use latache_backend.Finance.Ledger.{IsConsistent}
use latache_backend.Prelude.Int.{ℤ, pos_part}
use latache_backend.Finance.Payables.Settling.{owed_of_account}
use latache_backend.Finance.Payables.Laws.{pay_loop_rest}

pub add_platform_entries_fails :
    (es ledger : List PlatformEntry) (e : Error)
    → add_platform_entries es ledger ≡ err e
    → e ≡ unique_violation
unfolding add_platform_entries ◌>>=◌
add_platform_entries_fails [] ledger e h = cc
add_platform_entries_fails (x ∷ xs) ledger e h =
    elim (Bool-cases (has_platform_key x.idempotency_key ledger)) [
      | inl known ↦ let h₁ = rw (known, add_platform_entries) at h in cc
      | inr new ↦
          add_platform_entries_fails xs (ledger ++ x ∷ []) e (rw (new, add_platform_entries) at h)
    ]

pub add_wallet_entry_if_fails :
    (t : Bool) (x : WalletEntry) (ledger : List WalletEntry) (e : Error)
    → add_wallet_entry_if t x ledger ≡ err e
    → e ≡ unique_violation
unfolding add_wallet_entry_if add_wallet_entry ◌>>=◌
add_wallet_entry_if_fails t x ledger e h = ground (arith, h)

pub apply_restriction_policy_fails :
    (now tasker : ℕ) (owed : ℤ) (threshold : ℕ) (enabled : Bool) (db : Db) (e : Error)
    → apply_restriction_policy now tasker owed threshold enabled db ≡ err e
    → e ≡ row_not_found
unfolding apply_restriction_policy ◌>>=◌
apply_restriction_policy_fails now tasker owed threshold enabled db e h = ground (arith, h)

-- While the books of the Tasker are in order, a payment never stops at the check that the receivables
-- add up to the account's balance.
pub apply_payable_settlement_adds_up :
    (now tasker settlement amount : ℕ) (currency : String) (db : Db)
    → IsConsistent tasker db
    → apply_payable_settlement now tasker settlement amount currency db ≢ err aggregate_inconsistent
unfolding apply_payable_settlement
apply_payable_settlement_adds_up now tasker settlement amount currency db c h =
    let owed = owed_of_account currency (db.accounts tasker) in
    let rest =
      pay_loop_rest now tasker (settlement_entry tasker settlement currency)
        (pos_part (applied now tasker settlement amount currency db)) db.receivables in
    let covered : ltb 0 (paid now tasker settlement amount currency db).2 ≡ false =
      ground (arith, owed, c.totalled, rest) in
    elim (>>=-eq-err _ _ h) [
      | inl e ↦ ground (arith, e)
      | inr (_, positive, h₁) ↦ elim (>>=-eq-err _ _ h₁) [
        | inl e ↦ ground (arith, e)
        | inr (_, same, h₂) ↦ elim (>>=-eq-err _ _ h₂) [
          | inl e ↦ cc (add_platform_entries_fails _ _ _ e)
          | inr (ledger, added, h₃) ↦ elim (>>=-eq-err _ _ h₃) [
            | inl e ↦ ground (arith, covered, e)
            | inr (_, enough, h₄) ↦ elim (>>=-eq-err _ _ h₄) [
              | inl e ↦ cc (add_wallet_entry_if_fails _ _ _ _ e)
              | inr (credits, credited, h₅) ↦ elim (>>=-eq-err _ _ h₅) [
                | inl e ↦ cc (apply_restriction_policy_fails _ _ _ _ _ _ _ e)
                | inr (last, restricted, h₆) ↦ cc
              ]
            ]
          ]
        ]
      ]
    ]
