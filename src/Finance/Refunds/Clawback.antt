-- ===== src/Finance/Refunds/Clawback.antt =====
-- What a refund takes back from the Tasker: applyRefundAdjustment.
use mathlib.Core.Bool.{false≢true}
use latache_backend.Prelude.{
  if◌then◌else◌, ℕ, ◌+◌, ◌-◌, ◌≤◌, ◌≡◌, refl, sym, ap, ok, some, true, false, arith, is_some, min,
  >>=-eq-ok, ok-value, or_throw-eq-ok, ◌∙◌, ◌⊎◌, Bool-cases, ◌||◌, ◌==◌, inl, inr, Bool,
  ok-injective, sum_of,
}
use latache_backend.Prelude.Int.{
  ℤ, pos, ◌-ℤ◌, pos_part, int_laws, parts_exclude, sub_exact, -ℤ-zero,
}
use latache_backend.Prelude.Rows.{find, update, put_self, find-All, sum_of-update, update-All}
use latache_backend.Finance.{Db, Booking, Earning, refund_clawback}
use latache_backend.Finance.Coverage.{
  IsCovered, IsSoundEarning, liability, pending_of, available_of,
}
use latache_backend.Finance.Refunds.{
  clawback_of, take_back, reverse_earning, unreleased_of, apply_refund_adjustment,
}
use latache_backend.Finance.Release.{has_earning_id}
use latache_backend.Finance.Earnings.{earned_by_booking}
use latache_backend.Finance.Entries.{has_wallet_key}

paid_out_further :
    (n r c : ℕ) (o l : ℤ)
    → pos_part (pos n -ℤ pos r -ℤ o -ℤ l) ≡ 0
    → pos_part (pos n -ℤ pos (r + c) -ℤ o -ℤ l) ≡ 0
paid_out_further n r c o l h = omega (
  int_laws,
  parts_exclude (pos n -ℤ pos r -ℤ o -ℤ l),
  parts_exclude (pos n -ℤ pos (r + c) -ℤ o -ℤ l),
)

nothing_paid : (n r : ℕ) → pos_part (pos n -ℤ pos r -ℤ pos 0 -ℤ pos 0) ≡ n - r
nothing_paid n r = omega (int_laws, parts_exclude (pos n -ℤ pos r -ℤ pos 0 -ℤ pos 0))

reverse_earning-IsSoundEarning :
    (now clawback : ℕ) (e : Earning)
    → clawback ≤ e.tasker_net_amount - e.reversed_amount
    → IsSoundEarning e
    → IsSoundEarning (reverse_earning now clawback e)
reverse_earning-IsSoundEarning now clawback e h s = record {
  within_net = omega (arith, s.within_net);
  unpaid_offset = s.unpaid_offset;
  unpaid_released = s.unpaid_released;
  paid_out = λ r.
      paid_out_further e.tasker_net_amount e.reversed_amount clawback e.debt_offset_amount
        e.released_to_available_amount (s.paid_out r);
}

-- Of an unreleased earning everything that is left is in the pending balance, of a released one
-- nothing.
unreleased_of_open :
    (e : Earning)
    → IsSoundEarning e
    → is_some e.released_at ≡ false
    → unreleased_of e ≡ e.tasker_net_amount - e.reversed_amount
unreleased_of_open e s h =
    rw (s.unpaid_offset h, s.unpaid_released h) (nothing_paid e.tasker_net_amount e.reversed_amount)

unreleased_of_released :
    (e : Earning) → IsSoundEarning e → is_some e.released_at ≡ true → unreleased_of e ≡ 0
unreleased_of_released e s h = s.paid_out h

module _ (now refund_id clawback : ℕ) (b : Booking) (e : Earning) (db after : Db) where
  take_parts :
      take_back now b refund_id clawback e db ≡ ok after
      → (after.earnings ≡ update (has_earning_id e.id) (reverse_earning now clawback) db.earnings)
        × (pending_of (after.wallets b.tasker_id)
            ≡ pending_of (db.wallets b.tasker_id) -ℤ pos (min clawback (unreleased_of e)))
        × (available_of (after.wallets b.tasker_id)
            ≡ available_of (db.wallets b.tasker_id)
              -ℤ pos (clawback - min clawback (unreleased_of e)))
  unfolding take_back
  take_parts h =
      let (w, held, h₁) = >>=-eq-ok _ _ h in
      let (ledger, added, h₂) = >>=-eq-ok _ _ h₁ in
      let last = ok-value h₂ in
      let before = or_throw-eq-ok _ _ held in
      let held_after =
        ap (λ d. d.wallets b.tasker_id) (sym last) ∙ put_self b.tasker_id _ db.wallets in
      (
        ap (λ d. d.earnings) (sym last),
        ap pending_of held_after
            ∙ ap (λ x. pending_of x -ℤ pos (min clawback (unreleased_of e))) (sym before),
        ap available_of held_after
            ∙ ap (λ x. available_of x -ℤ pos (clawback - min clawback (unreleased_of e)))
                (sym before),
      )

liability_released :
    (tasker : ℕ) (e : Earning) → is_some e.released_at ≡ true → liability tasker e ≡ 0
liability_released tasker e h = ground arith

liability_open :
    (tasker : ℕ) (e : Earning)
    → e.tasker_id ≡ tasker
    → is_some e.released_at ≡ false
    → liability tasker e ≡ e.tasker_net_amount - e.reversed_amount
liability_open tasker e own h = ground arith

minus_zero : (n : ℕ) → n - 0 ≡ n
minus_zero n = omega arith

minus_self : (n : ℕ) → n - n ≡ 0
minus_self n = omega arith

-- The balances and the earning after a refund that took `taken` back.
pub record IsTakenBack (taken : ℕ) (b : Booking) (e : Earning) (db after : Db) : Type 0 where
  pub within_earning : taken ≤ e.tasker_net_amount - e.reversed_amount
  pub from_pending :
      pending_of (after.wallets b.tasker_id)
      ≡ pending_of (db.wallets b.tasker_id) -ℤ pos (if is_some e.released_at then 0 else taken)
  pub from_available :
      available_of (after.wallets b.tasker_id)
      ≡ available_of (db.wallets b.tasker_id) -ℤ pos (if is_some e.released_at then taken else 0)
  pub still_covered : IsCovered b.tasker_id after

if_same : (t : Bool) → ◌≡◌ {A = ℕ} (if t then 0 else 0) 0
if_same true = refl
if_same false = refl

untouched :
    {b : Booking} {e : Earning} {db : Db} → IsCovered b.tasker_id db → IsTakenBack 0 b e db db
untouched {b} {e} {db} c = record {
  within_earning = omega arith;
  from_pending =
      sym (-ℤ-zero _)
      ∙ ap (λ n. pending_of (db.wallets b.tasker_id) -ℤ pos n)
          (sym (if_same (is_some e.released_at)));
  from_available =
      sym (-ℤ-zero _)
      ∙ ap (λ n. available_of (db.wallets b.tasker_id) -ℤ pos n)
          (sym (if_same (is_some e.released_at)));
  still_covered = c;
}

module _ (prorate : ℕ → ℕ → ℕ → ℕ) (now refund_id amount : ℕ) (b : Booking) (e : Earning)
    (db after : Db) (found : find (earned_by_booking b.id) db.earnings ≡ some e)
    (keyed : find (has_earning_id e.id) db.earnings ≡ some e) (own : e.tasker_id ≡ b.tasker_id)
    (c : IsCovered b.tasker_id db)
    (done : apply_refund_adjustment prorate now b refund_id amount db ≡ ok (after, true)) where
  abbrev taken : ℕ
  taken = clawback_of prorate b amount e db

  abbrev skipped : Bool
  skipped = has_wallet_key (refund_clawback b.id refund_id) db.wallet_ledger || taken == 0

  refund_cases :
      ((skipped ≡ true) × (after ≡ db))
      ⊎ ((skipped ≡ false) × (take_back now b refund_id taken e db ≡ ok after))
  unfolding apply_refund_adjustment
  refund_cases =
      let h = rw (found, apply_refund_adjustment) at done in
      elim (Bool-cases skipped) [
        | inl skip ↦ inl (skip, sym (ok-injective (rw skip at h)).0)
        | inr take ↦
            let (last, taken_back, same) = >>=-eq-ok _ _ (rw take at h) in
            inr (take, taken_back ∙ ap ok (ok-injective same).0)
      ]

  taken-le : taken ≤ e.tasker_net_amount - e.reversed_amount
  unfolding clawback_of
  taken-le = omega arith

  -- The invariant after it, from what the pending balance and the liabilities lose.
  refund_kept :
      take_back now b refund_id taken e db ≡ ok after
      → (lost : ℕ)
      → pending_of (after.wallets b.tasker_id) ≡ pending_of (db.wallets b.tasker_id) -ℤ pos lost
      → sum_of
            (liability b.tasker_id)
            (update (has_earning_id e.id) (reverse_earning now taken) db.earnings)
          + lost
        ≡ sum_of (liability b.tasker_id) db.earnings
      → IsCovered b.tasker_id after
  refund_kept h lost p sums =
      let parts = take_parts now refund_id taken b e db after h in
      let s = find-All IsSoundEarning (has_earning_id e.id) db.earnings e c.sound keyed in
      record {
        sound = rw parts.0 (
            update-All IsSoundEarning (has_earning_id e.id) (reverse_earning now taken) db.earnings
              e keyed (reverse_earning-IsSoundEarning now taken e taken-le s) c.sound);
        covered = rw (parts.0, p, c.covered) (sub_exact _ lost _ sums);
      }

  refund_covered : take_back now b refund_id taken e db ≡ ok after → IsTakenBack taken b e db after
  refund_covered h =
      let parts = take_parts now refund_id taken b e db after h in
      let row = reverse_earning now taken in
      let s = find-All IsSoundEarning (has_earning_id e.id) db.earnings e c.sound keyed in
      let sums =
        sum_of-update (liability b.tasker_id) (has_earning_id e.id) row db.earnings e keyed in
      let t = taken-le in
      elim (Bool-cases (is_some e.released_at)) [
        | inl released ↦
            let none_pending = unreleased_of_released e s released in
            let same : min taken (unreleased_of e) ≡ 0 = omega (arith, none_pending) in
            record {
              within_earning = t;
              from_pending =
                  rw released
                    (parts.1 ∙ ap (λ n. pending_of (db.wallets b.tasker_id) -ℤ pos n) same);
              from_available = rw released (
                  parts.2
                  ∙ ap (λ n. available_of (db.wallets b.tasker_id) -ℤ pos (taken - n)) same
                  ∙ ap (λ n. available_of (db.wallets b.tasker_id) -ℤ pos n) (minus_zero taken));
              still_covered =
                  refund_kept h 0
                    (parts.1 ∙ ap (λ n. pending_of (db.wallets b.tasker_id) -ℤ pos n) same)
                    (omega (
                      arith,
                      sums,
                      liability_released b.tasker_id e released,
                      liability_released b.tasker_id (row e) released,
                    ));
            }
        | inr unreleased ↦
            let all_pending = unreleased_of_open e s unreleased in
            let same : min taken (unreleased_of e) ≡ taken = omega (arith, all_pending, t) in
            record {
              within_earning = t;
              from_pending =
                  rw unreleased
                    (parts.1 ∙ ap (λ n. pending_of (db.wallets b.tasker_id) -ℤ pos n) same);
              from_available = rw unreleased (
                  parts.2
                  ∙ ap (λ n. available_of (db.wallets b.tasker_id) -ℤ pos (taken - n)) same
                  ∙ ap (λ n. available_of (db.wallets b.tasker_id) -ℤ pos n) (minus_self taken));
              still_covered =
                  refund_kept h taken
                    (parts.1 ∙ ap (λ n. pending_of (db.wallets b.tasker_id) -ℤ pos n) same)
                    (omega (
                      arith,
                      sums,
                      liability_open b.tasker_id e own unreleased,
                      liability_open b.tasker_id (row e) own unreleased,
                      t,
                    ));
            }
      ]

  -- Where the earning belongs to the Tasker of the booking and the pending balance covers the
  -- unreleased earnings, a refund takes back no more than is left of the earning, from the pending
  -- balance before its release and from the available balance after it, and the pending balance
  -- goes on covering the unreleased earnings.
  pub apply_refund_adjustment_bounds :
      IsTakenBack
        (if has_wallet_key (refund_clawback b.id refund_id) db.wallet_ledger
          then 0
          else clawback_of prorate b amount e db)
        b
        e
        db
        after
  apply_refund_adjustment_bounds =
      elim (Bool-cases (has_wallet_key (refund_clawback b.id refund_id) db.wallet_ledger)) [
        | inl known ↦ elim refund_cases [
          | inl (skip, same) ↦ rw (known, same) (untouched c)
          | inr (take, h) ↦ absurd (false≢true (sym take ∙ rw known refl))
        ]
        | inr new ↦ elim refund_cases [
          | inl (skip, same) ↦
              let nothing : taken ≡ 0 = ground (arith, skip, new) in
              rw (new, nothing, same) (untouched c)
          | inr (take, h) ↦ rw new (refund_covered h)
        ]
      ]
