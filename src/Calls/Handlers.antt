-- ===== src/Calls/Handlers.antt =====
-- The requests of src/modules/realtime/realtime-calls.service.ts. A request that throws may have
-- written before, so each returns the database and its answer. A request reads the call first and
-- writes in a transaction of its own later: `accept_seen` and the like take the call and the booking
-- as they were read, and the database at the time of the transaction.
use latache_backend.Prelude.{
  if◌then◌else◌, ℕ, Option, Result, Bool, some, any, false, ◌==◌, ◌&&◌, ◌||◌, str_eq, leb, ◌+◌, ◌*◌,
  none, ok, not, true, err,
}
use latache_backend.Calls.{
  CallDb, Config, CallStatus, Call, Actor, update_call, missed, ended, BookingRow, is_active,
  CallError, accepted, Role, is_ringing, cancelled, customer, tasker, admin, is_accepted,
  enqueue_state, enqueue_call_ended_push, notify_recipient, missed_call, role_in, rejected,
  wrong_role, not_ringing, not_participant, not_initiator, not_recipient, booking_gone, is_ended,
  not_accepted, invitation_expired,
}

abbrev pub answer_call : ℕ → Call → Call
answer_call now c = record c { status = accepted; answered_at = some now }

abbrev pub close_call : ℕ → Option ℕ → CallStatus → Call → Call
close_call now by status c = record c { status = status; ended_at = some now; ended_by_id = by }

-- The system ends a call without naming a user.
abbrev pub stop_call : ℕ → CallStatus → Call → Call
stop_call now status c = record c { status = status; ended_at = some now }

abbrev pub Answer : Type 0
Answer = CallDb × Result CallError Call

-- The status that finishRinging writes: `'rejected' | 'cancelled'`.
pub data Refusal : Type 0 where
  declined withdrawn : Refusal

abbrev pub status_of : Refusal → CallStatus
status_of declined = rejected
status_of withdrawn = cancelled

abbrev pub is_refused : Refusal → CallStatus → Bool
is_refused declined rejected = true
is_refused withdrawn cancelled = true
is_refused _ _ = false

-- finishRinging
unfoldable pub finish_ringing : ℕ → Call → ℕ → Refusal → CallDb → Answer
finish_ringing now c viewer refusal db =
    if is_refused refusal c.status
    then (db, ok c)
    else if not (is_ringing c.status)
    then (db, err not_ringing)
    else (elim (update_call (λ r. is_ringing r.status)
        (close_call now (some viewer) (status_of refusal)) c.id db) [
          | none ↦ (db, err not_ringing)
          | some (after, row, b) ↦
              (enqueue_call_ended_push now row b (enqueue_state row b after), ok row)
        ])

-- finishSystemCall, to cancel and to end
unfoldable pub cancel_by_system : ℕ → ℕ → CallDb → CallDb
cancel_by_system now id db =
    elim (update_call (λ r. is_active r.status) (stop_call now cancelled) id db) [
      | none ↦ db
      | some (after, row, b) ↦ enqueue_call_ended_push now row b (enqueue_state row b after)
    ]

unfoldable pub end_by_system : ℕ → ℕ → CallDb → CallDb
end_by_system now id db = elim (update_call (λ r. is_active r.status) (stop_call now ended) id db) [
  | none ↦ db
  | some (after, row, b) ↦ enqueue_state row b after
]

abbrev pub has_expired : ℕ → Call → Bool
has_expired now r = is_ringing r.status && leb r.expires_at now

unfoldable pub expire_one_ringing_call : ℕ → ℕ → CallDb → CallDb
expire_one_ringing_call now id db =
    elim (update_call (has_expired now) (stop_call now missed) id db) [
      | none ↦ db
      | some (after, row, b) ↦
          enqueue_state row b
            (notify_recipient (missed_call row.type) row (role_in b row.recipient_id) after)
    ]

-- `answeredAt <= now - maximum`
abbrev pub is_overlong : ℕ → ℕ → Call → Bool
is_overlong now seconds r = is_accepted r.status && answered r.answered_at
  where
    answered : Option ℕ → Bool
    answered none = false
    answered (some at) = leb (at + seconds * 1000) now

unfoldable pub expire_accepted_call : ℕ → ℕ → CallDb → CallDb
expire_accepted_call now id db =
    elim (update_call (is_overlong now db.config.max_duration_seconds) (stop_call now ended) id
      db) [ none ↦ db | some (after, row, b) ↦ enqueue_state row b after ]

-- assertCallIdentityRole
abbrev pub matches_role : Actor → BookingRow → Bool
matches_role who b = matches who.role
  where
    matches : Role → Bool
    matches customer = b.customer.id == who.user_id
    matches tasker = b.tasker.id == who.user_id
    matches admin = false

abbrev pub is_participant : ℕ → Call → Bool
is_participant id c = c.initiator_id == id || c.recipient_id == id

abbrev pub allows_calls : Config → BookingRow → Bool
allows_calls config b = any (λ s. str_eq s b.status) config.allowed_booking_statuses

unfoldable pub accept_seen : ℕ → Actor → Call → BookingRow → CallDb → Answer
accept_seen now who c b db =
    if not (matches_role who b)
    then (db, err wrong_role)
    else if not (c.recipient_id == who.user_id)
    then (db, err not_recipient)
    else if is_accepted c.status
    then (db, ok c)
    else if not (is_ringing c.status)
    then (db, err not_ringing)
    else if not (allows_calls db.config b)
    then (cancel_by_system now c.id db, err booking_gone)
    else if leb c.expires_at now
    then (expire_one_ringing_call now c.id db, err invitation_expired)
    else (elim (update_call (λ r. is_ringing r.status) (answer_call now) c.id db) [
      | none ↦ (db, err not_ringing)
      | some (after, row, b') ↦ (enqueue_state row b' after, ok row)
    ])

unfoldable pub reject_seen : ℕ → Actor → Call → BookingRow → CallDb → Answer
reject_seen now who c b db =
    if not (matches_role who b)
    then (db, err wrong_role)
    else if not (c.recipient_id == who.user_id)
    then (db, err not_recipient)
    else finish_ringing now c who.user_id declined db

unfoldable pub cancel_seen : ℕ → Actor → Call → BookingRow → CallDb → Answer
cancel_seen now who c b db =
    if not (matches_role who b)
    then (db, err wrong_role)
    else if not (c.initiator_id == who.user_id)
    then (db, err not_initiator)
    else finish_ringing now c who.user_id withdrawn db

unfoldable pub end_seen : ℕ → Actor → Call → BookingRow → CallDb → Answer
end_seen now who c b db =
    if not (matches_role who b)
    then (db, err wrong_role)
    else if not (is_participant who.user_id c)
    then (db, err not_participant)
    else if is_ended c.status
    then (db, ok c)
    else if not (is_accepted c.status)
    then (db, err not_accepted)
    else (elim (update_call (λ r. is_accepted r.status) (close_call now (some who.user_id) ended)
        c.id db) [
          | none ↦ (db, err not_accepted)
          | some (after, row, b') ↦ (enqueue_state row b' after, ok row)
        ])

-- Whom a WebRTC signal goes to, and in which role.
unfoldable pub signal_target_seen :
    ℕ → Actor → Call → BookingRow → CallDb → CallDb × Result CallError (ℕ × Role)
signal_target_seen now who c b db =
    let target = if c.initiator_id == who.user_id then c.recipient_id else c.initiator_id in
    if not (matches_role who b)
    then (db, err wrong_role)
    else if not (is_participant who.user_id c)
    then (db, err not_participant)
    else if not (is_accepted c.status)
    then (db, err not_accepted)
    else if not (allows_calls db.config b)
    then (end_by_system now c.id db, err booking_gone)
    else (db, ok (target, role_in b target))
