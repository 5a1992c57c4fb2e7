-- ===== src/Calls/Races.antt =====
-- Two requests on one call that both read it while it was ringing: accept, reject and cancel of
-- src/modules/realtime/realtime-calls.service.ts.
use latache_backend.Prelude.{
  ℕ, Bool, ◌≡◌, true, some, ok, false, none, arith, refl, Bool-cases, inr, inl, ◌==◌, ap, leb, ◌∙◌,
  Option-cases, ok-value, sym, ==_iff, err,
}
use latache_backend.Calls.{
  missed, CallDb, Call, update_call, Actor, is_ringing, BookingRow, has_call_id, is_accepted,
  accepted, CallError, is_active, wrong_role, not_initiator, not_ringing, cancelled, not_recipient,
  booking_gone, invitation_expired,
}
use latache_backend.Calls.Handlers.{
  declined, withdrawn, accept_seen, matches_role, allows_calls, answer_call, Answer, finish_ringing,
  cancel_by_system, Refusal, cancel_seen, expire_one_ringing_call, is_refused, close_call,
  status_of, has_expired, stop_call,
}
use latache_backend.Prelude.Rows.{find, find-update, find-holds}
use latache_backend.Calls.Steps.{update_call-inversion}

update_call-none :
    (test : Call → Bool) (g : Call → Call) (id : ℕ) (db : CallDb) (c : Call)
    → find (has_call_id id) db.calls ≡ some c
    → test c ≡ false
    → update_call test g id db ≡ none
unfolding update_call
update_call-none test g id db c found fails = rw (found, update_call, fails) refl

update_call-found :
    (test : Call → Bool) (g : Call → Call) (id : ℕ) (db after : CallDb) (row : Call)
    (b : BookingRow)
    → ((c : Call) → (g c).id ≡ c.id)
    → update_call test g id db ≡ some (after, row, b)
    → (c : Call) × (row ≡ g c) × (test c ≡ true) × (find (has_call_id id) after.calls ≡ some row)
update_call-found test g id db after row b keeps h =
    let (c, found, passes, calls, same) = update_call-inversion test g id db after row b h in
    (
      c,
      same,
      passes,
      ap (find (has_call_id id)) calls
          ∙ find-update (has_call_id id) g db.calls c found
              (ap (λ i. i == id) (keeps c) ∙ find-holds (has_call_id id) db.calls c found)
          ∙ ap some (sym same),
    )

ringing-not_accepted : (c : Call) → is_ringing c.status ≡ true → is_accepted c.status ≡ false
ringing-not_accepted c h = ground arith

-- What an accepted invitation leaves behind.
accepted_row :
    (now : ℕ) (who : Actor) (c : Call) (b : BookingRow) (db after : CallDb) (row : Call)
    → is_ringing c.status ≡ true
    → accept_seen now who c b db ≡ (after, ok row)
    → (c.recipient_id ≡ who.user_id)
      × (row.status ≡ accepted)
      × (find (has_call_id c.id) after.calls ≡ some row)
unfolding accept_seen
accepted_row now who c b db after row rings h = elim (Bool-cases (matches_role who b)) [
  | inr wrong ↦ cc (rw (wrong, accept_seen) at h)
  | inl fits ↦
      let h₁ = rw (fits, accept_seen) at h in
      elim (Bool-cases (c.recipient_id == who.user_id)) [
        | inr other ↦ cc (rw other at h₁)
        | inl mine ↦
            let h₂ = rw (mine, ringing-not_accepted c rings, rings) at h₁ in
            elim (Bool-cases (allows_calls db.config b)) [
              | inr forbidden ↦ cc (rw forbidden at h₂)
              | inl allowed ↦
                  let h₃ = rw allowed at h₂ in
                  elim (Bool-cases (leb c.expires_at now)) [
                    | inl late ↦ cc (rw late at h₃)
                    | inr early ↦
                        let h₄ = rw early at h₃ in
                        elim (Option-cases
                          (update_call (λ r. is_ringing r.status) (answer_call now) c.id db)) [
                            | inl gone ↦ cc (rw gone at h₄)
                            | inr ((d, r, b'), done) ↦
                                let h₅ = rw done at h₄ in
                                let same = ok-value (ap (λ (x : Answer). x.1) h₅) in
                                let (c', made, passes, found) =
                                  update_call-found (λ r. is_ringing r.status) (answer_call now)
                                    c.id db d r b' (λ _. refl) done in
                                (
                                  (==_iff c.recipient_id who.user_id).0 mine,
                                  ap (λ (x : Call). x.status) (sym same ∙ made),
                                  ap (λ (x : Answer). find (has_call_id c.id) x.0.calls) (sym h₅)
                                      ∙ found
                                      ∙ ap some same,
                                )
                          ]
                  ]
            ]
      ]
]

-- A request to cancel that read the call before it was accepted fails after the acceptance, and
-- changes nothing.
pub accept_seen-cancel_seen :
    (now later : ℕ) (who who' : Actor) (c : Call) (b b' : BookingRow) (db after : CallDb)
    (row : Call)
    → is_ringing c.status ≡ true
    → accept_seen now who c b db ≡ (after, ok row)
    → (e : CallError) × (cancel_seen later who' c b' after ≡ (after, err e))
unfolding cancel_seen finish_ringing
accept_seen-cancel_seen now later who who' c b b' db after row rings h =
    let (mine, is_accepted_now, found) = accepted_row now who c b db after row rings h in
    let closed =
      update_call-none (λ r. is_ringing r.status)
        (close_call later (some who'.user_id) (status_of withdrawn)) c.id after row found
        (ground arith) in
    let fresh : is_refused withdrawn c.status ≡ false = ground arith in
    elim (Bool-cases (matches_role who' b')) [
      | inr wrong ↦ (wrong_role, rw (cancel_seen, wrong) refl)
      | inl fits ↦ elim (Bool-cases (c.initiator_id == who'.user_id)) [
        | inr other ↦ (not_initiator, rw (cancel_seen, fits, other) refl)
        | inl own ↦
            (not_ringing, rw (cancel_seen, fits, own, finish_ringing, fresh, rings, closed) refl)
      ]
    ]

ringing-not_refused :
    (refusal : Refusal) (c : Call)
    → is_ringing c.status ≡ true
    → is_refused refusal c.status ≡ false
ringing-not_refused declined c h = ground arith
ringing-not_refused withdrawn c h = ground arith

refused_over : (refusal : Refusal) → is_active (status_of refusal) ≡ false
refused_over declined = refl
refused_over withdrawn = refl

refused_row :
    (now : ℕ) (c : Call) (viewer : ℕ) (refusal : Refusal) (db after : CallDb) (row : Call)
    → is_ringing c.status ≡ true
    → finish_ringing now c viewer refusal db ≡ (after, ok row)
    → (is_active row.status ≡ false) × (find (has_call_id c.id) after.calls ≡ some row)
unfolding finish_ringing
refused_row now c viewer refusal db after row rings h =
    let close = close_call now (some viewer) (status_of refusal) in
    let h₁ = rw (ringing-not_refused refusal c rings, finish_ringing, rings) at h in
    elim (Option-cases (update_call (λ r. is_ringing r.status) close c.id db)) [
      | inl gone ↦ cc (rw gone at h₁)
      | inr ((d, r, b'), done) ↦
          let h₂ = rw done at h₁ in
          let same = ok-value (ap (λ (x : Answer). x.1) h₂) in
          let (c', made, passes, found) =
            update_call-found (λ r. is_ringing r.status) close c.id db d r b' (λ _. refl) done in
          (
            ap (λ (x : Call). is_active x.status) (sym same ∙ made) ∙ refused_over refusal,
            ap (λ (x : Answer). find (has_call_id c.id) x.0.calls) (sym h₂) ∙ found ∙ ap some same,
          )
    ]

-- A request to accept that read the call before it was rejected or cancelled fails after that, and
-- changes nothing.
pub finish_ringing-accept_seen :
    (now later viewer : ℕ) (refusal : Refusal) (who : Actor) (c : Call) (b : BookingRow)
    (db after : CallDb) (row : Call)
    → is_ringing c.status ≡ true
    → finish_ringing now c viewer refusal db ≡ (after, ok row)
    → (e : CallError) × (accept_seen later who c b after ≡ (after, err e))
unfolding accept_seen cancel_by_system expire_one_ringing_call
finish_ringing-accept_seen now later viewer refusal who c b db after row rings h =
    let (over, found) = refused_row now c viewer refusal db after row rings h in
    let off : is_ringing row.status ≡ false = ground arith in
    let late : has_expired later row ≡ false = ground arith in
    let no_answer =
      update_call-none (λ r. is_ringing r.status) (answer_call later) c.id after row found off in
    let no_stop =
      update_call-none (λ r. is_active r.status) (stop_call later cancelled) c.id after row found
        over in
    let no_expiry =
      update_call-none (has_expired later) (stop_call later missed) c.id after row found late in
    elim (Bool-cases (matches_role who b)) [
      | inr wrong ↦ (wrong_role, rw (accept_seen, wrong) refl)
      | inl fits ↦ elim (Bool-cases (c.recipient_id == who.user_id)) [
        | inr other ↦ (not_recipient, rw (accept_seen, fits, other) refl)
        | inl mine ↦ elim (Bool-cases (allows_calls after.config b)) [
          | inr forbidden ↦ (
            booking_gone,
            rw
                (
                  accept_seen,
                  fits,
                  mine,
                  ringing-not_accepted c rings,
                  rings,
                  forbidden,
                  cancel_by_system,
                  no_stop,
                )
                refl,
          )
          | inl allowed ↦ elim (Bool-cases (leb c.expires_at later)) [
            | inl expired ↦ (
              invitation_expired,
              rw
                  (
                    accept_seen,
                    fits,
                    mine,
                    ringing-not_accepted c rings,
                    rings,
                    allowed,
                    expired,
                    expire_one_ringing_call,
                    no_expiry,
                  )
                  refl,
            )
            | inr early ↦ (
              not_ringing,
              rw
                  (
                    accept_seen,
                    fits,
                    mine,
                    ringing-not_accepted c rings,
                    rings,
                    allowed,
                    early,
                    no_answer,
                  )
                  refl,
            )
          ]
        ]
      ]
    ]
