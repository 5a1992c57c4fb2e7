-- ===== src/Finance/Earnings/Holds.antt =====
-- Holds on an earning: blockForDispute and earningAction keep releaseMatureEarning from it.
use latache_backend.Prelude.{
  if◌then◌else◌, ℕ, ◌<◌, ◌≡◌, refl, sym, ap, ok, some, true, false, String, >>=-eq-ok, arith, ◌∙◌,
  Bool-cases, or_throw-eq-ok, ok-value, inl, inr, ==_refl, Bool, ==_iff,
}
use latache_backend.Prelude.Rows.{find, update, find-update, find-holds}
use latache_backend.Finance.{Db, Earning}
use latache_backend.Finance.Release.{has_earning_id, is_mature, release_mature_earning}
use latache_backend.Finance.Earnings.{
  block_for_dispute, pause_earning, dispute_receivable, earning_action, hold_action,
  extend_clearance, effective_clearance, earned_by_booking, block_earning,
}
use latache_backend.Finance.Entries.{is_unsettled}

-- An earning that is not mature is left as it is.
release_waits :
    (percent_of : ℕ → ℕ → ℕ) (now id : ℕ) (db : Db) (e : Earning)
    → find (has_earning_id id) db.earnings ≡ some e
    → is_mature now e ≡ false
    → release_mature_earning percent_of now id db ≡ ok (db, false)
unfolding release_mature_earning
release_waits percent_of now id db e found early = rw (found, release_mature_earning, early) refl

blocked_waits : (now : ℕ) (e : Earning) → e.is_blocked ≡ true → is_mature now e ≡ false
unfolding is_mature
blocked_waits now e h = ground arith

module _ (now booking : ℕ) (reason : String) (db : Db) (e : Earning)
    (found : find (earned_by_booking booking) db.earnings ≡ some e)
    (keyed : find (has_earning_id e.id) db.earnings ≡ some e)
    (open_status : is_unsettled e.status ≡ true) where
  paused_row :
      (row : Earning) × (find (has_earning_id e.id) (pause_earning now booking reason db).earnings
        ≡ some row)
      × (row.is_blocked ≡ true)
  unfolding pause_earning
  paused_row = elim (Bool-cases e.is_blocked) [
    | inl blocked ↦
        let same : pause_earning now booking reason db ≡ db =
          rw (found, pause_earning, open_status, blocked) refl in
        (e, ap (λ d. find (has_earning_id e.id) d.earnings) same ∙ keyed, blocked)
    | inr free ↦ (
      block_earning now reason e,
      rw (found, pause_earning, open_status, free)
          (find-update (has_earning_id e.id) (block_earning now reason) db.earnings e keyed
            (==_refl e.id)),
      refl,
    )
  ]

  dispute_keeps_earnings :
      (db' : Db) → (dispute_receivable now booking reason db').earnings ≡ db'.earnings
  unfolding dispute_receivable
  dispute_keeps_earnings db' = ground arith

  -- Once a dispute has blocked a booking whose earning is pending or partly reversed, the earning is
  -- not released from there, at any later time.
  pub block_for_dispute_holds :
      (percent_of : ℕ → ℕ → ℕ) (later : ℕ)
      → release_mature_earning percent_of later e.id (block_for_dispute now booking reason db)
        ≡ ok (block_for_dispute now booking reason db, false)
  unfolding block_for_dispute
  block_for_dispute_holds percent_of later =
      let (row, kept, blocked) = paused_row in
      release_waits percent_of later e.id (block_for_dispute now booking reason db) row
        (ap (find (has_earning_id e.id))
            (dispute_keeps_earnings (pause_earning now booking reason db))
          ∙ kept)
        (blocked_waits later row blocked)

module _ (e : Earning) (until now : ℕ) (reason : String) where
  abbrev extended_row : Bool → Earning
  extended_row blocked =
      if blocked then record e { hold_extended_until = some until } else record e {
        hold_extended_until = some until;
        block_reason = some reason;
        blocked_at = some now;
      }

  extended_hold : (blocked : Bool) → (extended_row blocked).hold_extended_until ≡ some until
  extended_hold true = refl
  extended_hold false = refl

  extended_id : (blocked : Bool) → (extended_row blocked).id ≡ e.id
  extended_id true = refl
  extended_id false = refl

module _ (percent_of : ℕ → ℕ → ℕ) (now actor id until : ℕ) (reason : String) (db after : Db)
    (done : earning_action now actor id (extend_clearance (some until)) reason db ≡ ok after) where
  extension_parts :
      (e : Earning) × (row : Earning) × (find (has_earning_id id) db.earnings ≡ some e)
      × (effective_clearance e < until)
      × (row.hold_extended_until ≡ some until)
      × (find (has_earning_id id) after.earnings ≡ some row)
  unfolding earning_action hold_action
  extension_parts =
      let (e, found, h₁) = >>=-eq-ok _ _ done in
      let (_, open_earning, h₂) = >>=-eq-ok _ _ h₁ in
      let (row, held, h₃) = >>=-eq-ok _ _ h₂ in
      let (_, longer, same) = >>=-eq-ok _ _ held in
      let before = or_throw-eq-ok _ _ found in
      let until_row : row.hold_extended_until ≡ some until =
        ap (λ r. r.hold_extended_until) (sym (ok-value same))
        ∙ extended_hold e until now reason e.is_blocked in
      let same_id : row.id ≡ e.id =
        ap (λ r. r.id) (sym (ok-value same)) ∙ extended_id e until now reason e.is_blocked in
      let own : e.id ≡ id =
        (==_iff e.id id).0 (find-holds (has_earning_id id) db.earnings e before) in
      (
        e,
        row,
        before,
        ground (arith, longer),
        until_row,
        ap (λ d. find (has_earning_id id) d.earnings) (sym (ok-value h₃))
            ∙ ap (λ i. find (has_earning_id id) (update (has_earning_id i) (λ _. row) db.earnings))
                own
            ∙ find-update (has_earning_id id) (λ _. row) db.earnings e before
                ((==_iff row.id id).1 (same_id ∙ own)),
      )

  -- After an accepted extension of the clearance the earning is not released before the new date.
  pub extend_clearance_holds :
      (later : ℕ)
      → later < until
      → release_mature_earning percent_of later id after ≡ ok (after, false)
  unfolding is_mature
  extend_clearance_holds later h =
      let (e, row, before, longer, held, kept) = extension_parts in
      release_waits percent_of later id after row kept (ground (arith, held))
