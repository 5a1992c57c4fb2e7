-- ===== src/Finance/Release/Once.antt =====
-- An earning is released once: a second call of releaseMatureEarning finds nothing to do.
use latache_backend.Prelude.{ℕ, ◌≡◌, ap, ok, some, true, false, ==_iff, ◌∙◌}
use latache_backend.Prelude.Rows.{find, find-update, find-holds, update}
use latache_backend.Finance.{Db, Earning}
use latache_backend.Finance.Release.{release_mature_earning, has_earning_id, is_mature, released}
use latache_backend.Finance.Release.Parts.{debt_offset, made_available}
use latache_backend.Finance.Release.Guards.{IsReleasable}
use latache_backend.Finance.Release.Balances.{release_parts, release_state}

module _ (percent_of : ℕ → ℕ → ℕ) (now id : ℕ) (db after : Db) (e : Earning)
    (found : find (has_earning_id id) db.earnings ≡ some e)
    (done : release_mature_earning percent_of now id db ≡ ok (after, true)) where
  -- An earning that was released was pending or partly reversed, not blocked, past its clearance
  -- date and every extension, and its booking had no open complaint or card dispute.
  pub release_ready : IsReleasable now db e
  release_ready = release_state percent_of now id db after e found done

  -- The released row, as later requests find it.
  pub find-released :
      find (has_earning_id id) after.earnings
      ≡ some (released now (debt_offset percent_of now e db) (made_available percent_of now e db) e)
  find-released =
      let same : e.id ≡ id =
        (==_iff e.id id).0 (find-holds (has_earning_id id) db.earnings e found) in
      let parts = release_parts percent_of now id db after e found done in
      let row =
        released now (debt_offset percent_of now e db) (made_available percent_of now e db) in
      ap (find (has_earning_id id)) parts.earnings
      ∙ ap (λ i. find (has_earning_id id) (update (has_earning_id i) row db.earnings)) same
      ∙ (find-update (has_earning_id id) row db.earnings e found ((==_iff e.id id).1 same))

  -- Asked again for an earning that was just released, at any time, the service changes nothing and
  -- answers that it released nothing.
  pub release_once :
      (later : ℕ) → release_mature_earning percent_of later id after ≡ ok (after, false)
  unfolding release_mature_earning is_mature
  release_once later = rw (find-released, release_mature_earning)
