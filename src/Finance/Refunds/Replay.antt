-- ===== src/Finance/Refunds/Replay.antt =====
-- The same cash refund asked for again: applyConfirmedCashRefundReceivableReversal of
-- src/modules/tasker-finance/tasker-finance.service.ts.
use mathlib.Core.Path.{subst}
use latache_backend.Finance.{Db, Receivable, receivable_reversal, PlatformEntry, same_platform_key}
use latache_backend.Finance.Refunds.{
  reverse_locked, reverse_cash_receivable, Reversed, recorded_reversal, reversal_entry, reimburse,
  reversal_of, reverse_receivable,
}
use latache_backend.Finance.Earnings.{owed_by_booking}
use latache_backend.Prelude.{
  refl, ok, some, none, ℕ, String, ◌≡◌, min, Bool, >>=-eq-ok, Option-cases, inl, List, ok-injective,
  ◌-◌, ◌∷◌, Bool-cases, inr, [], ◌++◌, ◌∙◌, ap, true, ◌>>=◌, str_eq_refl, sym, ok-value, ◌+◌, ◌==◌,
  arith, ◌||◌,
}
use latache_backend.Prelude.Rows.{find, update, find-append-none}
use latache_backend.Prelude.Int.{◌-ℤ◌, pos_part, pos, neg_part}
use latache_backend.Finance.Entries.{add_platform_entries, add_wallet_entry}
use latache_backend.Finance.Refunds.Reversal.{reimburse_parts, lower_receivables}
use latache_backend.Finance.Refunds.Reimbursement.{lower_wallet}

abbrev by_reference : String → PlatformEntry → Bool
by_reference reference e = same_platform_key e.idempotency_key (receivable_reversal reference)

negated_size : (n : ℕ) → pos_part (pos 0 -ℤ pos n) + neg_part (pos 0 -ℤ pos n) ≡ n
unfolding ◌-ℤ◌
negated_size n = ground arith

-- A reversal that is read back from its ledger row.
recorded_own :
    (r : Receivable) (reversal : ℕ) (reference : String)
    → recorded_reversal (reversal_entry r reversal (min r.outstanding_amount reversal) reference)
      ≡ record {
        reversal_amount = reversal;
        reimbursement_amount = reversal - min r.outstanding_amount reversal;
      }
recorded_own r reversal reference =
    ap (λ (m : ℕ). record { reversal_amount = reversal; reimbursement_amount = reversal - m })
      (negated_size (min r.outstanding_amount reversal))

-- The booking's receivable is still found after its row was reversed.
reversed-find :
    (p q : Receivable → Bool) (g : Receivable → Receivable) (rows : List Receivable)
    (r : Receivable)
    → ((x : Receivable) → q (g x) ≡ q x)
    → find q rows ≡ some r
    → (r' : Receivable) × (find q (update p g rows) ≡ some r')
unfolding find update
reversed-find p q g [] r keeps h = cc
reversed-find p q g (x ∷ xs) r keeps h = elim (Bool-cases (q x)) [
  | inl here ↦ elim (Bool-cases (p x)) [
    | inl hit ↦ (g x, rw (hit, keeps x, here) refl)
    | inr miss ↦ (x, rw (miss, here) refl)
  ]
  | inr there ↦ elim (Bool-cases (p x)) [
    | inl hit ↦ (r, rw (hit, keeps x, there) (rw there at h))
    | inr miss ↦
        let (r', found) = reversed-find p q g xs r keeps (rw there at h) in
        (r', rw (miss, there) found)
  ]
]

reimburse_platform :
    (r : Receivable) (amount : ℕ) (reference : String) (db after : Db)
    → reimburse r amount reference db ≡ ok after
    → after.platform_ledger ≡ db.platform_ledger
unfolding reimburse ◌>>=◌ add_wallet_entry
reimburse_platform r amount reference db after h = ground arith

added_entry :
    (e : PlatformEntry) (ledger after : List PlatformEntry)
    → add_platform_entries (e ∷ []) ledger ≡ ok after
    → after ≡ ledger ++ e ∷ []
unfolding add_platform_entries
added_entry e ledger after h = let (_, _, added) = >>=-eq-ok _ _ h in sym (ok-value added)

same_reference :
    (r : Receivable) (reversal outstanding : ℕ) (reference : String)
    → by_reference reference (reversal_entry r reversal outstanding reference) ≡ true
unfolding same_platform_key
same_reference r reversal outstanding reference = str_eq_refl reference

replay_of :
    (prorate : ℕ → ℕ → ℕ → ℕ) (booking amount : ℕ) (reference : String) (db : Db) (r : Receivable)
    (entry : PlatformEntry)
    → find (owed_by_booking booking) db.receivables ≡ some r
    → find (by_reference reference) db.platform_ledger ≡ some entry
    → reverse_cash_receivable prorate booking reference amount db ≡ ok (db, recorded_reversal entry)
unfolding reverse_cash_receivable
replay_of prorate booking amount reference db r entry found recorded =
    rw (reverse_cash_receivable, found, recorded) refl

module _ (prorate : ℕ → ℕ → ℕ → ℕ) (booking amount : ℕ) (reference : String) (db after : Db)
    (out : Reversed) where
  locked_again :
      (r : Receivable) (reversal : ℕ)
      → find (owed_by_booking booking) db.receivables ≡ some r
      → find (by_reference reference) db.platform_ledger ≡ none
      → reverse_locked r reversal reference db ≡ ok (after, out)
      → reverse_cash_receivable prorate booking reference amount after ≡ ok (after, out)
  unfolding reverse_locked add_platform_entries
  locked_again r reversal found fresh h =
      let (lowered, l, h₁) = >>=-eq-ok _ _ h in
      let (paid, p, h₂) = >>=-eq-ok _ _ h₁ in
      let (ledger, g, h₃) = >>=-eq-ok _ _ h₂ in
      let (last, result) = ok-injective h₃ in
      let outstanding = min r.outstanding_amount reversal in
      let entry = reversal_entry r reversal outstanding reference in
      let rows =
        ap (λ (d : Db). d.receivables) (sym last)
        ∙ (reimburse_parts r _ reference lowered paid p).1
        ∙ lower_receivables r _ _ lowered l in
      let (r', found') =
        reversed-find (λ row. row.id == r.id) (owed_by_booking booking)
          (reverse_receivable reversal outstanding) db.receivables r (λ x. refl) found in
      let entries =
        ap (λ (d : Db). d.platform_ledger) (sym last)
        ∙ added_entry entry paid.platform_ledger ledger g
        ∙ ap (λ ls. ls ++ entry ∷ [])
            (reimburse_platform r _ reference lowered paid p ∙ (lower_wallet r _ _ lowered l).2) in
      let recorded =
        ap (find (by_reference reference)) entries
        ∙ find-append-none (by_reference reference) db.platform_ledger entry fresh
            (same_reference r reversal outstanding reference) in
      replay_of prorate booking amount reference after r' entry
        (ap (find (owed_by_booking booking)) rows ∙ found') recorded
      ∙ ap (λ o. ok (after, o)) (recorded_own r reversal reference ∙ result)

  -- A reversal of a cash refund that succeeded, asked for again under its reference and with the same
  -- amount, answers the same amounts and changes nothing.
  pub reverse_cash_receivable_once :
      reverse_cash_receivable prorate booking reference amount db ≡ ok (after, out)
      → reverse_cash_receivable prorate booking reference amount after ≡ ok (after, out)
  unfolding reverse_cash_receivable
  reverse_cash_receivable_once done =
      elim (Option-cases (find (owed_by_booking booking) db.receivables)) [
        | inl nothing ↦
            let same = (ok-injective (rw (nothing, reverse_cash_receivable) at done)).0 in
            subst (λ d. reverse_cash_receivable prorate booking reference amount d ≡ ok (d, out))
              same (done ∙ ap (λ d. ok (d, out)) (sym same))
        | inr (r, found) ↦
            let h = rw (found, reverse_cash_receivable) at done in
            elim (Option-cases (find (by_reference reference) db.platform_ledger)) [
              | inr (entry, recorded) ↦
                  let same = (ok-injective (rw recorded at h)).0 in
                  subst
                    (λ d. reverse_cash_receivable prorate booking reference amount d ≡ ok (d, out))
                    same (done ∙ ap (λ d. ok (d, out)) (sym same))
              | inl fresh ↦
                  let h₁ = rw fresh at h in
                  elim (Bool-cases
                    (r.cash_collected_amount == 0 || reversal_of prorate amount r == 0)) [
                      | inl zero_amount ↦
                          let same = (ok-injective (rw zero_amount at h₁)).0 in
                          subst
                            (λ d.
                              reverse_cash_receivable prorate booking reference amount d
                              ≡ ok (d, out))
                            same (done ∙ ap (λ d. ok (d, out)) (sym same))
                      | inr reverses ↦
                          locked_again r (reversal_of prorate amount r) found fresh
                            (rw reverses at h₁)
                    ]
            ]
      ]
