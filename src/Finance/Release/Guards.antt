-- ===== src/Finance/Release/Guards.antt =====
-- When an earning is released: the guards of releaseMatureEarning.
use latache_backend.Prelude.{
  ℕ, ◌≤◌, ◌≡◌, true, false, some, none, ok, arith, Option-cases, Bool-cases, inl, inr, ◌⊎◌,
  >>=-eq-ok, ◌∙◌, ok-ne, ap, ok-injective,
}
use latache_backend.Prelude.Rows.{find}
use latache_backend.Finance.{Db, Earning, EarningStatus}
use latache_backend.Finance.Release.{
  release_mature_earning, has_earning_id, is_mature, is_held, has_active_dispute, release_cleared,
}

-- What must hold of an earning, and of its booking, for its release at a time.
pub record IsReleasable (now : ℕ) (db : Db) (e : Earning) : Type 0 where
  pub unsettled : (e.status ≡ EarningStatus.pending) ⊎ (e.status ≡ EarningStatus.partially_reversed)
  pub not_blocked : e.is_blocked ≡ false
  pub not_released : e.released_at ≡ none
  pub cleared : e.clears_at ≤ now
  pub not_held : is_held now e.hold_extended_until ≡ false
  pub no_complaint : db.active_complaints e.booking_id ≡ 0
  pub no_chargeback : db.active_chargebacks e.booking_id ≡ 0

pub is_mature-IsReleasable :
    (now : ℕ) (e : Earning) (db : Db)
    → is_mature now e ≡ true
    → has_active_dispute e.booking_id db ≡ false
    → IsReleasable now db e
unfolding is_mature
is_mature-IsReleasable now e db m d = record {
  unsettled = ground arith;
  not_blocked = ground arith;
  not_released = ground arith;
  cleared = ground arith;
  not_held = ground arith;
  no_complaint = ground arith;
  no_chargeback = ground arith;
}

module _ (percent_of : ℕ → ℕ → ℕ) where
  pub release_inversion :
      (now id : ℕ) (db after : Db)
      → release_mature_earning percent_of now id db ≡ ok (after, true)
      → (e : Earning) × (find (has_earning_id id) db.earnings ≡ some e)
        × IsReleasable now db e
        × (release_cleared percent_of now e db ≡ ok after)
  unfolding release_mature_earning
  release_inversion now id db after h = elim (Option-cases (find (has_earning_id id) db.earnings)) [
    | inl missing ↦ ok-ne (rw (missing, release_mature_earning) at h)
    | inr (e, found) ↦
        let h₁ = rw (found, release_mature_earning) at h in
        elim (Bool-cases (is_mature now e)) [
          | inr early ↦ ok-ne (rw early at h₁)
          | inl mature ↦
              let h₂ = rw mature at h₁ in
              elim (Bool-cases (has_active_dispute e.booking_id db)) [
                | inl disputed ↦ ok-ne (rw disputed at h₂)
                | inr clear ↦
                    let (last, done, same) = >>=-eq-ok _ _ (rw clear at h₂) in
                    (
                      e,
                      found,
                      is_mature-IsReleasable now e db mature clear,
                      done ∙ ap ok (ok-injective same).0,
                    )
              ]
        ]
  ]
