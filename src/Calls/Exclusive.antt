-- ===== src/Calls/Exclusive.antt =====
-- Every request of src/modules/realtime/realtime-calls.service.ts, whatever it read before and in
-- whatever order the transactions come, leaves calls that are over as they are and nobody in two calls.
use latache_backend.Prelude.{
  if◌then◌else◌, ℕ, Option, refl, ◌≡◌, true, arith, some, err, ok, not, ◌==◌, leb, List, ◌∷◌, [],
  false,
}
use latache_backend.Calls.{
  CallDb, CallStatus, Call, Actor, is_ringing, is_accepted, BookingRow, is_active, ended, cancelled,
  missed, enqueue_state, enqueue_call_ended_push, notify_recipient, not_accepted, missed_call,
  not_ringing, role_in, wrong_role, not_participant, not_initiator, not_recipient, is_ended,
  has_call_id,
}
use latache_backend.Calls.Handlers.{
  finish_ringing, cancel_by_system, end_by_system, cancel_seen, expire_one_ringing_call, end_seen,
  expire_accepted_call, reject_seen, accept_seen, signal_target_seen, answer_call, Refusal,
  stop_call, close_call, is_overlong, has_expired, declined, withdrawn, status_of, is_refused,
  matches_role, is_participant, allows_calls,
}
use latache_backend.Calls.Steps.{
  KeepsParties, IsStep, write-IsStep, IsStep-refl, IsAnswer, if-IsAnswer, refuse-IsAnswer,
  update-IsAnswer, IsExclusive, IsStep-trans,
}
use latache_backend.Calls.Requests.{
  serve, run, Request, opens, accepts, rejects, cancels, ends, signals, expires_ringing,
  expires_accepted,
}
use latache_backend.Prelude.Rows.{find}
use latache_backend.Calls.Opening.{open_call-IsAnswer}

ringing-is_active : (c : Call) → is_ringing c.status ≡ true → is_active c.status ≡ true
ringing-is_active c h = ground arith

accepted-is_active : (c : Call) → is_accepted c.status ≡ true → is_active c.status ≡ true
accepted-is_active c h = ground arith

answer_call-KeepsParties : (now : ℕ) → KeepsParties (answer_call now)
answer_call-KeepsParties now = record {
  id = λ _. refl;
  initiator = λ _. refl;
  recipient = λ _. refl;
}

close_call-KeepsParties :
    (now : ℕ) (by : Option ℕ) (s : CallStatus) → KeepsParties (close_call now by s)
close_call-KeepsParties now by s = record {
  id = λ _. refl;
  initiator = λ _. refl;
  recipient = λ _. refl;
}

stop_call-KeepsParties : (now : ℕ) (s : CallStatus) → KeepsParties (stop_call now s)
stop_call-KeepsParties now s = record {
  id = λ _. refl;
  initiator = λ _. refl;
  recipient = λ _. refl;
}

cancel_by_system-IsStep : (now id : ℕ) (db : CallDb) → IsStep db (cancel_by_system now id db)
unfolding cancel_by_system
cancel_by_system-IsStep now id db =
    write-IsStep (λ r. is_active r.status) (stop_call now cancelled) id db (λ c h. h)
      (stop_call-KeepsParties now cancelled)
      (λ row b d. enqueue_call_ended_push now row b (enqueue_state row b d)) (λ _ _ _. refl)

end_by_system-IsStep : (now id : ℕ) (db : CallDb) → IsStep db (end_by_system now id db)
unfolding end_by_system
end_by_system-IsStep now id db =
    write-IsStep (λ r. is_active r.status) (stop_call now ended) id db (λ c h. h)
      (stop_call-KeepsParties now ended) enqueue_state (λ _ _ _. refl)

expire_one_ringing_call-IsStep :
    (now id : ℕ) (db : CallDb) → IsStep db (expire_one_ringing_call now id db)
unfolding expire_one_ringing_call
expire_one_ringing_call-IsStep now id db =
    write-IsStep (has_expired now) (stop_call now missed) id db (λ c h. ground arith)
      (stop_call-KeepsParties now missed)
      (λ row b d.
        enqueue_state row b
          (notify_recipient (missed_call row.type) row (role_in b row.recipient_id) d))
      (λ _ _ _. refl)

expire_accepted_call-IsStep :
    (now id : ℕ) (db : CallDb) → IsStep db (expire_accepted_call now id db)
unfolding expire_accepted_call
expire_accepted_call-IsStep now id db =
    write-IsStep (is_overlong now db.config.max_duration_seconds) (stop_call now ended) id db
      (λ c h. ground arith) (stop_call-KeepsParties now ended) enqueue_state (λ _ _ _. refl)

accept_seen-IsAnswer :
    (now : ℕ) (who : Actor) (c : Call) (b : BookingRow) (db : CallDb)
    → IsAnswer db (accept_seen now who c b db)
unfolding accept_seen
accept_seen-IsAnswer now who c b db =
    if-IsAnswer (not (matches_role who b)) (refuse-IsAnswer db (err wrong_role)) (
      if-IsAnswer (not (c.recipient_id == who.user_id)) (refuse-IsAnswer db (err not_recipient)) (
        if-IsAnswer (is_accepted c.status) (refuse-IsAnswer db (ok c)) (
          if-IsAnswer (not (is_ringing c.status)) (refuse-IsAnswer db (err not_ringing)) (
            if-IsAnswer (not (allows_calls db.config b))
              (record { step = cancel_by_system-IsStep now c.id db })
              (if-IsAnswer (leb c.expires_at now)
                (record { step = expire_one_ringing_call-IsStep now c.id db })
                (update-IsAnswer (λ r. is_ringing r.status) (answer_call now) c.id db
                  ringing-is_active (answer_call-KeepsParties now) enqueue_state (λ _ _ _. refl)
                  (err not_ringing) ok))))))

finish_ringing-IsAnswer :
    (now : ℕ) (c : Call) (viewer : ℕ) (refusal : Refusal) (db : CallDb)
    → IsAnswer db (finish_ringing now c viewer refusal db)
unfolding finish_ringing
finish_ringing-IsAnswer now c viewer refusal db =
    if-IsAnswer (is_refused refusal c.status) (refuse-IsAnswer db (ok c)) (
      if-IsAnswer (not (is_ringing c.status)) (refuse-IsAnswer db (err not_ringing)) (
        update-IsAnswer (λ r. is_ringing r.status)
          (close_call now (some viewer) (status_of refusal)) c.id db ringing-is_active
          (close_call-KeepsParties now (some viewer) (status_of refusal))
          (λ row b d. enqueue_call_ended_push now row b (enqueue_state row b d)) (λ _ _ _. refl)
          (err not_ringing) ok))

reject_seen-IsAnswer :
    (now : ℕ) (who : Actor) (c : Call) (b : BookingRow) (db : CallDb)
    → IsAnswer db (reject_seen now who c b db)
unfolding reject_seen
reject_seen-IsAnswer now who c b db =
    if-IsAnswer (not (matches_role who b)) (refuse-IsAnswer db (err wrong_role)) (
      if-IsAnswer (not (c.recipient_id == who.user_id)) (refuse-IsAnswer db (err not_recipient))
        (finish_ringing-IsAnswer now c who.user_id declined db))

cancel_seen-IsAnswer :
    (now : ℕ) (who : Actor) (c : Call) (b : BookingRow) (db : CallDb)
    → IsAnswer db (cancel_seen now who c b db)
unfolding cancel_seen
cancel_seen-IsAnswer now who c b db =
    if-IsAnswer (not (matches_role who b)) (refuse-IsAnswer db (err wrong_role)) (
      if-IsAnswer (not (c.initiator_id == who.user_id)) (refuse-IsAnswer db (err not_initiator))
        (finish_ringing-IsAnswer now c who.user_id withdrawn db))

end_seen-IsAnswer :
    (now : ℕ) (who : Actor) (c : Call) (b : BookingRow) (db : CallDb)
    → IsAnswer db (end_seen now who c b db)
unfolding end_seen
end_seen-IsAnswer now who c b db =
    if-IsAnswer (not (matches_role who b)) (refuse-IsAnswer db (err wrong_role)) (
      if-IsAnswer (not (is_participant who.user_id c)) (refuse-IsAnswer db (err not_participant)) (
        if-IsAnswer (is_ended c.status) (refuse-IsAnswer db (ok c)) (
          if-IsAnswer (not (is_accepted c.status)) (refuse-IsAnswer db (err not_accepted)) (
            update-IsAnswer (λ r. is_accepted r.status) (close_call now (some who.user_id) ended)
              c.id db accepted-is_active (close_call-KeepsParties now (some who.user_id) ended)
              enqueue_state (λ _ _ _. refl) (err not_accepted) ok))))

signal_target_seen-IsAnswer :
    (now : ℕ) (who : Actor) (c : Call) (b : BookingRow) (db : CallDb)
    → IsAnswer db (signal_target_seen now who c b db)
unfolding signal_target_seen
signal_target_seen-IsAnswer now who c b db =
    let target = if c.initiator_id == who.user_id then c.recipient_id else c.initiator_id in
    if-IsAnswer (not (matches_role who b)) (refuse-IsAnswer db (err wrong_role)) (
      if-IsAnswer (not (is_participant who.user_id c)) (refuse-IsAnswer db (err not_participant)) (
        if-IsAnswer (not (is_accepted c.status)) (refuse-IsAnswer db (err not_accepted)) (
          if-IsAnswer (not (allows_calls db.config b))
            (record { step = end_by_system-IsStep now c.id db })
            (refuse-IsAnswer db (ok (target, role_in b target))))))

serve-IsStep : (r : Request) (db : CallDb) → IsStep db (serve r db)
unfolding serve
serve-IsStep (opens id now who b recipient type key) db =
    (open_call-IsAnswer id now who b recipient type key db).step
serve-IsStep (accepts now who c b) db = (accept_seen-IsAnswer now who c b db).step
serve-IsStep (rejects now who c b) db = (reject_seen-IsAnswer now who c b db).step
serve-IsStep (cancels now who c b) db = (cancel_seen-IsAnswer now who c b db).step
serve-IsStep (ends now who c b) db = (end_seen-IsAnswer now who c b db).step
serve-IsStep (signals now who c b) db = (signal_target_seen-IsAnswer now who c b db).step
serve-IsStep (expires_ringing now id) db = expire_one_ringing_call-IsStep now id db
serve-IsStep (expires_accepted now id) db = expire_accepted_call-IsStep now id db

run-IsStep : (rs : List Request) (db : CallDb) → IsStep db (run rs db)
unfolding run
run-IsStep [] db = IsStep-refl db
run-IsStep (r ∷ rs) db =
    IsStep-trans db (serve r db) (run rs (serve r db)) (serve-IsStep r db)
      (run-IsStep rs (serve r db))

-- However the transactions of requests interleave, and however old what they read is: if nobody is
-- in two ringing or accepted calls, then nobody ever is.
pub run-IsExclusive : (rs : List Request) (db : CallDb) → IsExclusive db → IsExclusive (run rs db)
run-IsExclusive rs db e = (run-IsStep rs db).exclusive e

-- However the transactions of requests interleave, a call that is over stays exactly as it is.
pub run-frozen :
    (rs : List Request) (db : CallDb) (id : ℕ) (c : Call)
    → find (has_call_id id) db.calls ≡ some c
    → is_active c.status ≡ false
    → find (has_call_id id) (run rs db).calls ≡ some c
run-frozen rs db id c found over = (run-IsStep rs db).frozen id c found over
