-- ===== src/Finance/Release/Errors.antt =====
-- How a release can fail: releaseMatureEarning.
use latache_backend.Prelude.{
  ℕ, arith, >>=-eq-err, ◌>>=◌, ◌≡◌, List, ◌⊎◌, err, some, false, Bool-cases, ◌==◌, inr, ◌||◌, inl,
  ltb,
}
use latache_backend.Finance.{
  Db, Error, Earning, currency_mismatch, WalletEntry, unique_violation, row_not_found,
  plan_revenue_share,
}
use latache_backend.Finance.Release.Parts.{wallet_before, debt_offset, paid}
use latache_backend.Finance.Release.{
  credit_plan_revenue_share, release_mature_earning, release_cleared, has_earning_id, releasable_of,
  share_amount, is_mature, offset_entry, has_active_dispute,
}
use latache_backend.Finance.Entries.{add_wallet_entry, has_wallet_key}
use latache_backend.Prelude.Int.{ltb_ℤ, pos, pos_part}
use latache_backend.Prelude.Rows.{find, find-All}
use latache_backend.Finance.Ledger.{IsConsistent}
use latache_backend.Finance.Coverage.{IsCovered, IsSoundEarning}
use latache_backend.Finance.Payables.Settling.{owed_of_account}
use latache_backend.Finance.Payables.Laws.{pay_loop_rest}
use latache_backend.Finance.Release.Guards.{is_mature-IsReleasable}
use latache_backend.Finance.Payables.Errors.{
  add_platform_entries_fails, apply_restriction_policy_fails,
}
use latache_backend.Finance.Release.Covering.{release_not_below}

-- The refusals that do not concern the amounts.
abbrev pub IsAside : Error → Type 0
IsAside e = (e ≡ currency_mismatch) ⊎ ((e ≡ unique_violation) ⊎ (e ≡ row_not_found))

add_wallet_entry_fails :
    (x : WalletEntry) (ledger : List WalletEntry) (e : Error)
    → add_wallet_entry x ledger ≡ err e
    → e ≡ unique_violation
unfolding add_wallet_entry ◌>>=◌
add_wallet_entry_fails x ledger e h = ground (arith, h)

module _ (percent_of : ℕ → ℕ → ℕ) where
  share_fails :
      (e : Earning) (db : Db) (x : Error)
      → credit_plan_revenue_share percent_of e db ≡ err x
      → (x ≡ unique_violation) ⊎ (x ≡ row_not_found)
  unfolding credit_plan_revenue_share
  share_fails e db x h =
      let amount = share_amount percent_of (db.subscriptions e.tasker_id) e in
      elim (Bool-cases (amount == 0 || has_wallet_key (plan_revenue_share e.id) db.wallet_ledger)) [
        | inl nothing ↦ cc (rw (nothing, credit_plan_revenue_share) at h)
        | inr some_share ↦ elim (>>=-eq-err _ _ (rw (some_share, credit_plan_revenue_share) at h)) [
          | inl f ↦ inr (ground (arith, f))
          | inr (w, held, h₁) ↦ elim (>>=-eq-err _ _ h₁) [
            | inl f ↦ inl (add_wallet_entry_fails _ _ _ f)
            | inr (l, added, h₂) ↦ cc
          ]
        ]
      ]

  release_cleared_errors :
      (now : ℕ) (e : Earning) (db : Db) (x : Error)
      → ltb_ℤ (wallet_before percent_of now e db).pending_balance (pos (releasable_of e)) ≡ false
      → IsConsistent e.tasker_id db
      → release_cleared percent_of now e db ≡ err x
      → IsAside x
  unfolding release_cleared
  release_cleared_errors now e db x enough c h =
      let owed = owed_of_account e.currency (db.accounts e.tasker_id) in
      let rest =
        pay_loop_rest now e.tasker_id (offset_entry e) (pos_part (debt_offset percent_of now e db))
          db.receivables in
      let covered : ltb 0 (paid percent_of now e db).2 ≡ false =
        ground (arith, owed, c.totalled, rest) in
      elim (>>=-eq-err _ _ h) [
        | inl f ↦ inl (ground (arith, f))
        | inr (_, same, h₁) ↦ elim (>>=-eq-err _ _ h₁) [
          | inl f ↦ ground (arith, enough, f)
          | inr (_, held, h₂) ↦ elim (>>=-eq-err _ _ h₂) [
            | inl f ↦ inr (inl (add_platform_entries_fails _ _ _ f))
            | inr (l, added, h₃) ↦ elim (>>=-eq-err _ _ h₃) [
              | inl f ↦ ground (arith, covered, f)
              | inr (_, adds, h₄) ↦ elim (>>=-eq-err _ _ h₄) [
                | inl f ↦ inr (inl (add_wallet_entry_fails _ _ _ f))
                | inr (w, logged, h₅) ↦ elim (>>=-eq-err _ _ h₅) [
                  | inl f ↦ inr (share_fails _ _ _ f)
                  | inr (s, shared, h₆) ↦ elim (>>=-eq-err _ _ h₆) [
                    | inl f ↦ inr (inr (apply_restriction_policy_fails _ _ _ _ _ _ _ f))
                    | inr (d, restricted, h₇) ↦ cc
                  ]
                ]
              ]
            ]
          ]
        ]
      ]

  -- While the debt is the sum of the receivables and the pending balance covers the unreleased
  -- earnings, a release never stops for its amounts: it fails only where the currencies differ, an
  -- idempotency key is used already, or a row is missing.
  pub release_mature_earning_errors :
      (now id : ℕ) (db : Db) (e : Earning) (x : Error)
      → find (has_earning_id id) db.earnings ≡ some e
      → IsConsistent e.tasker_id db
      → IsCovered e.tasker_id db
      → release_mature_earning percent_of now id db ≡ err x
      → IsAside x
  unfolding release_mature_earning
  release_mature_earning_errors now id db e x found c v h =
      let h₁ = rw (found, release_mature_earning) at h in
      elim (Bool-cases (is_mature now e)) [
        | inr early ↦ cc (rw early at h₁)
        | inl mature ↦
            let h₂ = rw mature at h₁ in
            elim (Bool-cases (has_active_dispute e.booking_id db)) [
              | inl disputed ↦ cc (rw disputed at h₂)
              | inr clear ↦
                  let ready = is_mature-IsReleasable now e db mature clear in
                  let s = find-All IsSoundEarning (has_earning_id id) db.earnings e v.sound found in
                  let enough =
                    release_not_below percent_of now e db id found s ready.not_released v in
                  elim (>>=-eq-err _ _ (rw clear at h₂)) [
                    | inl f ↦ release_cleared_errors now e db x enough c f
                    | inr (after, done, h₃) ↦ cc
                  ]
            ]
      ]
