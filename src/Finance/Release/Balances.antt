-- ===== src/Finance/Release/Balances.antt =====
-- What a release does to the balances of the Tasker: releaseMatureEarning.
use latache_backend.Prelude.{ℕ, ◌≡◌, ok, some, true, ◌-◌, min, arith, ◌∙◌, sym, ap, some-value}
use latache_backend.Prelude.Int.{ℤ, pos, ◌+ℤ◌, ◌-ℤ◌, int_laws, pos_part}
use latache_backend.Prelude.Rows.{find}
use latache_backend.Finance.{Db, Earning}
use latache_backend.Finance.Restriction.{outstanding_of}
use latache_backend.Finance.Release.{
  release_mature_earning, has_earning_id, release_cleared, releasable_of, offset_entry,
}
use latache_backend.Finance.Release.Guards.{release_inversion, IsReleasable}
use latache_backend.Finance.Ledger.{IsConsistent, open_total}
use latache_backend.Finance.Release.Parts.{
  IsReleased, debt_before, debt_offset, shared_amount, cleared_parts,
}
use latache_backend.Finance.Payables.Settling.{owed_of_account, wallet_or_new_balances}
use latache_backend.Finance.Payables.Laws.{pay_loop_total, pay_loop-IsSound}
use latache_backend.Finance.Payables.{pay_loop}
use latache_backend.Finance.Coverage.{available_of, pending_of}

-- What the platform owes a Tasker, less what the Tasker owes the platform.
abbrev pub worth : ℕ → Db → ℤ
worth tasker db =
    available_of (db.wallets tasker)
    +ℤ pending_of (db.wallets tasker)
    -ℤ outstanding_of (db.accounts tasker)

module _ (percent_of : ℕ → ℕ → ℕ) (now id : ℕ) (db after : Db) (e : Earning)
    (found : find (has_earning_id id) db.earnings ≡ some e)
    (done : release_mature_earning percent_of now id db ≡ ok (after, true)) where
  -- The earning that the release inverts to is the one that the identifier finds.
  pub release_parts : IsReleased percent_of now e db after
  release_parts =
      let (e', found', ready, cleared) = release_inversion percent_of now id db after done in
      let same : e' ≡ e = some-value (sym found' ∙ found) in
      cleared_parts percent_of now e db after
        (ap (λ x. release_cleared percent_of now x db) (sym same) ∙ cleared)

  pub release_state : IsReleasable now db e
  release_state =
      let (e', found', ready, cleared) = release_inversion percent_of now id db after done in
      let same : e' ≡ e = some-value (sym found' ∙ found) in rw (← same) ready

  module _ (c : IsConsistent e.tasker_id db) where
    abbrev total : ℕ
    total = open_total e.tasker_id db.receivables

    debt_is_total : debt_before percent_of now e db ≡ pos total
    debt_is_total = owed_of_account e.currency (db.accounts e.tasker_id) ∙ c.totalled

    offset_is_min : debt_offset percent_of now e db ≡ pos (min (releasable_of e) total)
    offset_is_min = let d = debt_is_total in ground (arith, d)

    release_open_total : open_total e.tasker_id after.receivables ≡ total - releasable_of e
    release_open_total =
        let paid_total =
          pay_loop_total now e.tasker_id (offset_entry e) (min (releasable_of e) total)
            db.receivables in
        let due = offset_is_min in
        ap (open_total e.tasker_id) release_parts.receivables
        ∙ ap
            (λ d.
              open_total e.tasker_id
                (pay_loop now e.tasker_id (offset_entry e) (pos_part d) db.receivables).0)
            due
        ∙ omega (arith, paid_total)

    release_owed : outstanding_of (after.accounts e.tasker_id) ≡ pos (total - releasable_of e)
    unfolding ◌-ℤ◌
    release_owed =
        let d = debt_is_total in
        let o = offset_is_min in let p = release_parts.owed in ground (arith, d, o, p)

    -- With the books of the Tasker in order a release moves money without making any: what the Tasker is worth
    -- grows by the plan's revenue share alone, the debt falls by as much of the earning as it
    -- takes, the earning leaves the pending balance, and the books stay in order.
    pub release_moves :
        (worth e.tasker_id after
          ≡ worth e.tasker_id db
            +ℤ pos (shared_amount percent_of e (db.subscriptions e.tasker_id) db.wallet_ledger))
        × (pending_of (after.wallets e.tasker_id)
            ≡ pending_of (db.wallets e.tasker_id) -ℤ pos (releasable_of e))
        × (open_total e.tasker_id after.receivables
            ≡ open_total e.tasker_id db.receivables - releasable_of e)
        × IsConsistent e.tasker_id after
    release_moves =
        let w = ap available_of release_parts.wallet in
        let p = ap pending_of release_parts.wallet in
        let b = wallet_or_new_balances e.currency (db.wallets e.tasker_id) in
        let d = debt_is_total in
        let o = offset_is_min in
        let l = release_owed in
        (
          rw (w, p, l, c.totalled, b.0, b.1, o) (omega int_laws),
          p ∙ ap (λ x. x -ℤ pos (releasable_of e)) b.1,
          release_open_total,
          record {
            sound =
                rw release_parts.receivables
                  (pay_loop-IsSound now e.tasker_id (offset_entry e) _ db.receivables c.sound);
            totalled = l ∙ ap pos (sym release_open_total);
          },
        )
