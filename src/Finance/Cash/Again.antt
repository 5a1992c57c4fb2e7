-- ===== src/Finance/Cash/Again.antt =====
-- A confirmation that is sent twice: confirmCashCollection.
use latache_backend.Prelude.{
  ℕ, ◌==◌, String, ◌>>=◌, ◌≡◌, ok, true, false, some, ◌⊎◌, ==_refl, none, refl, >>=-eq-ok, ==_iff,
  arith, or_throw-eq-ok, ◌∙◌, ap, sym, Option-cases, inl, inr, ok-value, ◌+◌, ◌*◌, str_eq_refl,
}
use latache_backend.Finance.{Db, Booking, Receivable, cash_confirmed}
use latache_backend.Finance.Cash.{
  confirm_cash_collection, is_blank, is_completed_cash, is_on_hold, same_confirmation, record_cash,
  new_receivable,
}
use latache_backend.Prelude.Rows.{find, put, put_self, find-append-none}
use latache_backend.Finance.Earnings.{owed_by_booking, day_ms}
use latache_backend.Finance.Restriction.Laws.{apply_restriction_policy_bookings}
use latache_backend.Finance.Cash.Laws.{record_cash_parts}

-- What a booking and a request must be for the cash to be confirmed.
record IsConfirmable (tasker collected : ℕ) (b : Booking) : Type 0 where
  own : (b.tasker_id == tasker) ≡ true
  completed_cash : is_completed_cash b ≡ true
  free : is_on_hold b.payment_status ≡ false
  charged : b.total_charged_amount ≡ some collected

confirm_parts :
    (id payment now tasker booking collected : ℕ) (key : String) (db after : Db)
    → confirm_cash_collection id payment now tasker booking collected key db ≡ ok after
    → (b : Booking) × (is_blank key ≡ false)
      × (db.bookings booking ≡ some b)
      × IsConfirmable tasker collected b
      × (((r : Receivable) × (find (owed_by_booking b.id) db.receivables ≡ some r)
            × (same_confirmation tasker collected key r ≡ true)
            × (after ≡ db))
          ⊎ ((find (owed_by_booking b.id) db.receivables ≡ none)
              × (record_cash id payment now tasker collected key b db ≡ ok after)))
unfolding confirm_cash_collection
confirm_parts id payment now tasker booking collected key db after h =
    let (_, named, h₁) = >>=-eq-ok _ _ h in
    let (b, booked, h₂) = >>=-eq-ok _ _ h₁ in
    let (_, own, h₃) = >>=-eq-ok _ _ h₂ in
    let (_, paid, h₄) = >>=-eq-ok _ _ h₃ in
    let (_, free, h₅) = >>=-eq-ok _ _ h₄ in
    let (expected, charged, h₆) = >>=-eq-ok _ _ h₅ in
    let (_, equal, h₇) = >>=-eq-ok _ _ h₆ in
    let same : collected ≡ expected = (==_iff collected expected).0 (ground (arith, equal)) in
    (
      b,
      ground (arith, named),
      or_throw-eq-ok _ _ booked,
      record {
        own = ground (arith, own);
        completed_cash = ground (arith, paid);
        free = ground (arith, free);
        charged = or_throw-eq-ok _ _ charged ∙ ap some (sym same);
      },
      elim (Option-cases (find (owed_by_booking b.id) db.receivables)) [
        | inl missing ↦ inr (missing, rw same (rw missing at h₇))
        | inr (r, found) ↦
            let (_, agrees, h₈) = >>=-eq-ok _ _ (rw found at h₇) in
            inl (r, found, ground (arith, agrees), sym (ok-value h₈))
      ],
    )

confirm_known :
    (id payment now tasker booking collected : ℕ) (key : String) (db : Db) (b : Booking)
    (r : Receivable)
    → is_blank key ≡ false
    → db.bookings booking ≡ some b
    → IsConfirmable tasker collected b
    → find (owed_by_booking b.id) db.receivables ≡ some r
    → same_confirmation tasker collected key r ≡ true
    → confirm_cash_collection id payment now tasker booking collected key db ≡ ok db
unfolding confirm_cash_collection ◌>>=◌
confirm_known id payment now tasker booking collected key db b r named booked c found agrees =
    rw (named, booked, c.own, c.completed_cash, c.free, c.charged, ==_refl collected, found, agrees)
      refl

recorded_booking :
    (id payment now tasker collected : ℕ) (key : String) (b : Booking) (db after : Db)
    → record_cash id payment now tasker collected key b db ≡ ok after
    → after.bookings
      ≡ put b.id (record b { payment_status = cash_confirmed; paid_at = some now }) db.bookings
unfolding record_cash
recorded_booking id payment now tasker collected key b db after h =
    let (_, same, h₁) = >>=-eq-ok _ _ h in
    let (_, positive, h₂) = >>=-eq-ok _ _ h₁ in
    let (_, unused, h₃) = >>=-eq-ok _ _ h₂ in
    let (ledger, logged, h₄) = >>=-eq-ok _ _ h₃ in
    let (_, first, h₅) = >>=-eq-ok _ _ h₄ in
    let (restricted, r, h₆) = >>=-eq-ok _ _ h₅ in
    ap (λ (d : Db). d.bookings) (sym (ok-value h₆))
    ∙ apply_restriction_policy_bookings _ _ _ _ _ _ _ r

-- Where bookings are stored under their identifiers, a confirmation that was accepted is accepted
-- again, whenever and under whatever new identifiers, and changes nothing the second time.
pub confirm_cash_collection_once :
    (id id' payment payment' now now' tasker booking collected : ℕ) (key : String) (db after : Db)
    → ((b : Booking) → db.bookings booking ≡ some b → b.id ≡ booking)
    → confirm_cash_collection id payment now tasker booking collected key db ≡ ok after
    → confirm_cash_collection id' payment' now' tasker booking collected key after ≡ ok after
confirm_cash_collection_once id id' payment payment' now now' tasker booking collected key db after
      stored h =
    let (b, named, booked, c, which) =
      confirm_parts id payment now tasker booking collected key db after h in
    elim which [
      | inl (r, found, agrees, same) ↦ rw same (
          confirm_known id' payment' now' tasker booking collected key db b r named booked c found
            agrees)
      | inr (missing, recorded) ↦
          let clears = now + db.policy.cash_dispute_clearance_days * day_ms in
          let r = new_receivable id now tasker collected key clears b in
          let confirmed = record b { payment_status = cash_confirmed; paid_at = some now } in
          let parts = record_cash_parts id payment now tasker key b db after collected recorded in
          let kept =
            ap (λ f. f booking)
              (recorded_booking id payment now tasker collected key b db after recorded)
            ∙ ap (λ i. put i confirmed db.bookings booking) (stored b booked)
            ∙ put_self booking confirmed db.bookings in
          confirm_known id' payment' now' tasker booking collected key after confirmed r named kept
            (record {
              own = c.own;
              completed_cash = c.completed_cash;
              free = refl;
              charged = c.charged;
            })
            (ap (find (owed_by_booking b.id)) parts.1
              ∙ find-append-none (owed_by_booking b.id) db.receivables r missing (==_refl b.id))
            (rw (==_refl tasker, ==_refl collected) (str_eq_refl key))
    ]
