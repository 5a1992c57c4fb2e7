-- ===== src/Finance/Release/Covering.antt =====
-- A release and the pending balance: releaseMatureEarning takes out of it exactly what the earning
-- put in, and never finds it too small.
use mathlib.Core.Path.{subst}
use latache_backend.Prelude.{
  ℕ, ◌≡◌, sym, ap, ok, some, true, ◌-◌, arith, none, ◌≤◌, false, List, ==_iff, ==_refl,
}
use latache_backend.Prelude.Int.{pos, ◌-ℤ◌, ℤ, ltb_ℤ, pos_part, int_laws, sub_exact}
use latache_backend.Prelude.Rows.{find, sum_of-update, le-sum_of, update-All, find-All, find-holds}
use latache_backend.Finance.{Db, Earning}
use latache_backend.Finance.Release.{
  release_mature_earning, has_earning_id, released, releasable_of,
}
use latache_backend.Finance.Coverage.{IsCovered, IsSoundEarning, liability, pending_of}
use latache_backend.Finance.Release.Parts.{debt_offset, made_available, wallet_before}
use latache_backend.Finance.Release.Balances.{release_parts}
use latache_backend.Finance.Release.Once.{release_ready}
use latache_backend.Finance.Payables.Settling.{wallet_or_new_balances}

-- n - r - o - (n - r - o) is nothing.
settled_in_full :
    (n r : ℕ) (o : ℤ) → r ≤ n → pos_part (pos n -ℤ pos r -ℤ o -ℤ (pos (n - r) -ℤ o)) ≡ 0
settled_in_full n r o h =
    let zero_left : pos n -ℤ pos r -ℤ o -ℤ (pos (n - r) -ℤ o) ≡ pos 0 = omega int_laws in
    ap pos_part zero_left

found_by_own_id :
    (id : ℕ) (rows : List Earning) (e : Earning)
    → find (has_earning_id id) rows ≡ some e
    → find (has_earning_id e.id) rows ≡ some e
found_by_own_id id rows e h =
    let same : e.id ≡ id = (==_iff e.id id).0 (find-holds (has_earning_id id) rows e h) in
    subst (λ i. find (has_earning_id i) rows ≡ some e) (sym same) h

liability_unreleased :
    (e : Earning) → e.released_at ≡ none → liability e.tasker_id e ≡ releasable_of e
liability_unreleased e h = ground (arith, ==_refl e.tasker_id)

module _ (percent_of : ℕ → ℕ → ℕ) (now : ℕ) where
  released-IsSoundEarning :
      (db : Db) (e : Earning)
      → IsSoundEarning e
      → IsSoundEarning
          (released now (debt_offset percent_of now e db) (made_available percent_of now e db) e)
  released-IsSoundEarning db e s = record {
    within_net = s.within_net;
    unpaid_offset = λ h. cc;
    unpaid_released = λ h. cc;
    paid_out = λ h.
        settled_in_full e.tasker_net_amount e.reversed_amount (debt_offset percent_of now e db)
          s.within_net;
  }

  module _ (id : ℕ) (db after : Db) (e : Earning)
      (found : find (has_earning_id id) db.earnings ≡ some e)
      (done : release_mature_earning percent_of now id db ≡ ok (after, true)) where
    -- If the pending balance covers exactly the unreleased earnings before a release, it does so
    -- after it.
    pub release-IsCovered : IsCovered e.tasker_id db → IsCovered e.tasker_id after
    release-IsCovered c =
        let own = found_by_own_id id db.earnings e found in
        let parts = release_parts percent_of now id db after e found done in
        let row =
          released now (debt_offset percent_of now e db) (made_available percent_of now e db) in
        let p = ap pending_of parts.wallet in
        let b = (wallet_or_new_balances e.currency (db.wallets e.tasker_id)).1 in
        let open_before = (release_ready percent_of now id db after e found done).not_released in
        let sums =
          sum_of-update (liability e.tasker_id) (has_earning_id e.id) row db.earnings e own in
        let s = find-All IsSoundEarning (has_earning_id id) db.earnings e c.sound found in
        let mine = liability_unreleased e open_before in
        let gone : liability e.tasker_id (row e) ≡ 0 = ground arith in
        record {
          sound = rw parts.earnings (
              update-All IsSoundEarning (has_earning_id e.id) row db.earnings e own
                (released-IsSoundEarning db e s) c.sound);
          covered =
              rw (p, parts.earnings, b, c.covered)
                (sub_exact _ (releasable_of e) _ (omega (arith, sums, mine, gone)));
        }

  -- While the pending balance covers exactly the unreleased earnings, the release of a sound earning
  -- that is not released yet does not stop at its check of that balance.
  pub release_not_below :
      (e : Earning) (db : Db) (id : ℕ)
      → find (has_earning_id id) db.earnings ≡ some e
      → IsSoundEarning e
      → e.released_at ≡ none
      → IsCovered e.tasker_id db
      → ltb_ℤ (wallet_before percent_of now e db).pending_balance (pos (releasable_of e)) ≡ false
  release_not_below e db id found s unreleased c =
      let below = le-sum_of (liability e.tasker_id) (has_earning_id id) db.earnings e found in
      let w = (wallet_or_new_balances e.currency (db.wallets e.tasker_id)).1 in
      let mine = liability_unreleased e unreleased in
      rw (w, c.covered) (ground (arith, below, mine))
