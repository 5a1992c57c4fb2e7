-- ===== src/Finance/Earnings/Creation.antt =====
-- Recording the earning of a settled booking: createPendingEarning.
use latache_backend.Prelude.{
  ℕ, ◌+◌, ◌-◌, ◌≡◌, sym, ap, ok, none, some, true, String, ◌++◌, ◌⊎◌, ◌*◌, ◌∷◌, >>=-eq-ok, [],
  Option-cases, ok-value, inl, inr, or_throw-eq-ok, ◌∙◌, arith, ==_refl, ◌>>=◌, ltb, false, refl,
  sum_of-append, str_eq_refl, All-append,
}
use latache_backend.Prelude.Int.{pos, ◌+ℤ◌, add_exact}
use latache_backend.Prelude.Rows.{find, put_self, find-append-none}
use latache_backend.Finance.{Db, Booking, Earning, PaymentSource}
use latache_backend.Finance.Coverage.{
  pending_of, available_of, IsCovered, IsSoundEarning, liability,
}
use latache_backend.Finance.Earnings.{
  create_pending_earning, record_earning, new_earning, earned_gross, included_tax,
  earned_by_booking, same_settlement, day_ms,
}
use latache_backend.Finance.Payables.Settling.{wallet_or_new_balances}

module _ (id gross settled_at : ℕ) (reference : String) (b : Booking) (db after : Db) where
  abbrev recorded : PaymentSource → Earning
  recorded source =
      new_earning id gross settled_at reference source b
        (settled_at + db.policy.earning_clearance_days * day_ms)

  record_parts :
      (source : PaymentSource)
      → record_earning id gross settled_at reference source b db ≡ ok after
      → (after.earnings ≡ db.earnings ++ recorded source ∷ [])
        × (pending_of (after.wallets b.tasker_id)
            ≡ pending_of (db.wallets b.tasker_id) +ℤ pos (earned_gross b - included_tax b))
        × (available_of (after.wallets b.tasker_id) ≡ available_of (db.wallets b.tasker_id))
  unfolding record_earning
  record_parts source h =
      let (_, same, h₁) = >>=-eq-ok _ _ h in
      let (ledger, added, h₂) = >>=-eq-ok _ _ h₁ in
      let last = ok-value h₂ in
      let balances = wallet_or_new_balances b.payment_currency (db.wallets b.tasker_id) in
      let held = ap (λ d. d.wallets b.tasker_id) (sym last) ∙ put_self b.tasker_id _ db.wallets in
      (
        ap (λ d. d.earnings) (sym last),
        ap pending_of held ∙ ap (λ x. x +ℤ pos (earned_gross b - included_tax b)) balances.1,
        ap available_of held ∙ balances.0,
      )

  create_guards :
      create_pending_earning id gross settled_at reference b db ≡ ok after
      → (source : PaymentSource) × (b.payment_source ≡ some source)
        × (ltb (earned_gross b) (included_tax b) ≡ false)
  unfolding create_pending_earning
  create_guards h =
      let (source, paid, h₁) = >>=-eq-ok _ _ h in
      let (_, positive, h₂) = >>=-eq-ok _ _ h₁ in
      (source, or_throw-eq-ok _ _ paid, ground (arith, positive))

  -- A settlement that is accepted either was recorded before with the same figures, and changes
  -- nothing, or is recorded now.
  create_parts :
      create_pending_earning id gross settled_at reference b db ≡ ok after
      → ((e : Earning) × (find (earned_by_booking b.id) db.earnings ≡ some e)
          × (same_settlement b gross reference e ≡ true)
          × (after ≡ db))
        ⊎ ((source : PaymentSource) × (b.payment_source ≡ some source)
            × (find (earned_by_booking b.id) db.earnings ≡ none)
            × (record_earning id gross settled_at reference source b db ≡ ok after))
  unfolding create_pending_earning
  create_parts h =
      let (source, paid, h₁) = >>=-eq-ok _ _ h in
      let (_, positive, h₂) = >>=-eq-ok _ _ h₁ in
      elim (Option-cases (find (earned_by_booking b.id) db.earnings)) [
        | inl missing ↦ inr (source, or_throw-eq-ok _ _ paid, missing, rw missing at h₂)
        | inr (e, found) ↦
            let (_, agrees, h₃) = >>=-eq-ok _ _ (rw found at h₂) in
            inl (e, found, ground (arith, agrees), sym (ok-value h₃))
      ]

new_earning-IsSoundEarning :
    (id gross settled_at : ℕ) (reference : String) (source : PaymentSource) (b : Booking)
    (clears_at : ℕ)
    → IsSoundEarning (new_earning id gross settled_at reference source b clears_at)
new_earning-IsSoundEarning id gross settled_at reference source b clears_at = record {
  within_net = omega arith;
  unpaid_offset = λ _. refl;
  unpaid_released = λ _. refl;
  paid_out = λ h. cc;
}

create_again :
    (id gross settled_at : ℕ) (reference : String) (b : Booking) (db : Db) (source : PaymentSource)
    (e : Earning)
    → b.payment_source ≡ some source
    → ltb (earned_gross b) (included_tax b) ≡ false
    → find (earned_by_booking b.id) db.earnings ≡ some e
    → same_settlement b gross reference e ≡ true
    → create_pending_earning id gross settled_at reference b db ≡ ok db
unfolding create_pending_earning ◌>>=◌
create_again id gross settled_at reference b db source e paid positive found agrees =
    rw (paid, positive, found, agrees) refl

recorded-same_settlement :
    (id gross settled_at : ℕ) (reference : String) (b : Booking) (db : Db) (source : PaymentSource)
    → same_settlement b gross reference (recorded id gross settled_at reference b db db source)
      ≡ true
recorded-same_settlement id gross settled_at reference b db source =
    rw (==_refl b.tasker_id, str_eq_refl reference, ==_refl (earned_gross b - included_tax b))
      (==_refl gross)

-- Recording the same settlement again, whenever and under whatever new identifier, changes
-- nothing: the earning is credited once.
pub create_pending_earning_once :
    (id id' gross settled_at settled_at' : ℕ) (reference : String) (b : Booking) (db after : Db)
    → create_pending_earning id gross settled_at reference b db ≡ ok after
    → create_pending_earning id' gross settled_at' reference b after ≡ ok after
create_pending_earning_once id id' gross settled_at settled_at' reference b db after h =
    let (source, paid, positive) = create_guards id gross settled_at reference b db after h in
    elim (create_parts id gross settled_at reference b db after h) [
      | inl (e, found, agrees, same) ↦
          create_again id' gross settled_at' reference b after source e paid positive
            (ap (λ d. find (earned_by_booking b.id) d.earnings) same ∙ found) agrees
      | inr (source', paid', missing, made) ↦
          let parts = record_parts id gross settled_at reference b db after source' made in
          create_again id' gross settled_at' reference b after source
            (recorded id gross settled_at reference b db after source') paid positive
            (ap (find (earned_by_booking b.id)) parts.0
              ∙ find-append-none (earned_by_booking b.id) db.earnings _ missing (==_refl b.id))
            (recorded-same_settlement id gross settled_at reference b db source')
    ]

-- If the pending balance covers exactly the unreleased earnings, it does so with the earning of a
-- settlement that is accepted, and the available balance stays as it was.
pub create_pending_earning-IsCovered :
    (id gross settled_at : ℕ) (reference : String) (b : Booking) (db after : Db)
    → IsCovered b.tasker_id db
    → create_pending_earning id gross settled_at reference b db ≡ ok after
    → IsCovered b.tasker_id after
      × (available_of (after.wallets b.tasker_id) ≡ available_of (db.wallets b.tasker_id))
create_pending_earning-IsCovered id gross settled_at reference b db after c h =
    elim (create_parts id gross settled_at reference b db after h) [
      | inl (e, found, agrees, same) ↦ rw same (c, refl)
      | inr (source, paid, missing, made) ↦
          let parts = record_parts id gross settled_at reference b db after source made in
          let e = recorded id gross settled_at reference b db after source in
          let sums = sum_of-append (liability b.tasker_id) db.earnings (e ∷ []) in
          let mine : liability b.tasker_id e ≡ earned_gross b - included_tax b =
            rw (==_refl b.tasker_id) (omega arith) in
          (
            record {
              sound = rw parts.0 (
                  All-append IsSoundEarning db.earnings (e ∷ []) c.sound
                    (new_earning-IsSoundEarning id gross settled_at reference source b _, tt));
              covered =
                  rw (parts.0, parts.1, c.covered)
                    (add_exact _ _ ∙ ap pos (omega (arith, sums, mine)));
            },
            parts.2,
          )
    ]
