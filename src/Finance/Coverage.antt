-- ===== src/Finance/Coverage.antt =====
-- The invariant that ties a Tasker's pending balance to the earnings of
-- src/modules/tasker-finance/tasker-finance.service.ts that are not released yet.
use latache_backend.Prelude.{
  ℕ, ◌-◌, ◌≤◌, ◌≡◌, ◌&&◌, not, is_some, true, none, some, Option, ◌==◌, if◌then◌else◌, sum_of, All,
  false,
}
use latache_backend.Prelude.Int.{ℤ, pos, pos_part, ◌-ℤ◌}
use latache_backend.Finance.{Db, Earning, Wallet}

abbrev pub available_of : Option Wallet → ℤ
available_of none = pos 0
available_of (some w) = w.available_balance

abbrev pub pending_of : Option Wallet → ℤ
pending_of none = pos 0
pending_of (some w) = w.pending_balance

-- No more is reversed than was earned; before its release nothing of an earning is paid out, and
-- after it all that is not reversed was offset or made available.
pub record IsSoundEarning (e : Earning) : Type 0 where
  pub within_net : e.reversed_amount ≤ e.tasker_net_amount
  pub unpaid_offset : is_some e.released_at ≡ false → e.debt_offset_amount ≡ pos 0
  pub unpaid_released : is_some e.released_at ≡ false → e.released_to_available_amount ≡ pos 0
  pub paid_out :
      is_some e.released_at ≡ true
      → pos_part (
          pos e.tasker_net_amount
          -ℤ pos e.reversed_amount
          -ℤ e.debt_offset_amount
          -ℤ e.released_to_available_amount)
        ≡ 0

-- What an earning adds to the pending balance of a Tasker.
abbrev pub liability : ℕ → Earning → ℕ
liability tasker e =
    if e.tasker_id == tasker && not (is_some e.released_at)
    then e.tasker_net_amount - e.reversed_amount
    else 0

-- Every earning is sound, and the pending balance is what the unreleased earnings still come to.
pub record IsCovered (tasker : ℕ) (db : Db) : Type 0 where
  pub sound : All IsSoundEarning db.earnings
  pub covered : pending_of (db.wallets tasker) ≡ pos (sum_of (liability tasker) db.earnings)
