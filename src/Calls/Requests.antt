-- ===== src/Calls/Requests.antt =====
-- Starting a call, reading it for a request, and the interleavings of requests of
-- src/modules/realtime/realtime-calls.service.ts.
use latache_backend.Prelude.{
  ◌>>=◌, ◌>>◌, ℕ, if◌then◌else◌, Option, String, List, Result, ◌++◌, Bool, ◌∷◌, none, is_some, [],
  false, ◌==◌, err, some, ◌||◌, ok, true, ◌&&◌, not, str_eq, ◌+◌, ◌*◌, any, or_throw, throw_if,
}
use latache_backend.Calls.{
  voice, video, CallDb, active, CallType, Call, AccountStatus, Actor, BookingRow, CallError,
  Participant, is_active, Role, ringing, user, calls_disabled, call_not_found, pending_verification,
  request_reused, pending_approval, suspended, deactivated, participant_busy, booking_busy,
  enqueue_state, notify_recipient, incoming_call, role_in, conversation_not_found, has_call_id,
  booking_forbids, recipient_unavailable,
}
use latache_backend.Calls.Handlers.{
  accept_seen, expire_accepted_call, reject_seen, Answer, end_seen, expire_one_ringing_call,
  cancel_seen, matches_role, signal_target_seen, allows_calls,
}
use latache_backend.Prelude.Rows.{find}

-- participantBookingWhere
abbrev pub takes_part : Actor → BookingRow → Bool
takes_part who b = matches_role who b

-- requireParticipantBooking
unfoldable pub require_participant_booking : Actor → ℕ → CallDb → Result CallError BookingRow
require_participant_booking who id db = do
  b ← or_throw (db.bookings id) conversation_not_found
  throw_if (not (takes_part who b)) conversation_not_found
  ok b

abbrev pub other_party : Actor → BookingRow → Participant
other_party who b = if b.customer.id == who.user_id then b.tasker else b.customer

abbrev pub is_closed_account : AccountStatus → Bool
is_closed_account active = false
is_closed_account pending_verification = false
is_closed_account pending_approval = false
is_closed_account suspended = true
is_closed_account deactivated = true

abbrev pub is_active_profile : Option AccountStatus → Bool
is_active_profile none = false
is_active_profile (some active) = true
is_active_profile (some pending_verification) = false
is_active_profile (some pending_approval) = false
is_active_profile (some suspended) = false
is_active_profile (some deactivated) = false

-- The profile of the role in which the recipient takes part.
abbrev pub recipient_profile : BookingRow → Participant → Option AccountStatus
recipient_profile b r =
    if b.customer.id == r.id then b.customer.profile_status else b.tasker.profile_status

abbrev pub cannot_receive : BookingRow → Participant → Bool
cannot_receive b r =
    is_some r.deleted_at
    || (is_closed_account r.account_status || not (is_active_profile (recipient_profile b r)))

abbrev pub same_type : CallType → CallType → Bool
same_type voice voice = true
same_type video video = true
same_type _ _ = false

-- The unique key of a request to call.
abbrev pub has_request_key : ℕ → ℕ → String → Call → Bool
has_request_key initiator booking key c =
    c.initiator_id == initiator && (c.booking_id == booking && str_eq c.client_request_id key)

abbrev pub is_busy_with : ℕ → ℕ → Call → Bool
is_busy_with a b c =
    is_active c.status
    && ((c.initiator_id == a || c.initiator_id == b)
        || (c.recipient_id == a || c.recipient_id == b))

abbrev pub is_active_in : ℕ → Call → Bool
is_active_in booking c = is_active c.status && c.booking_id == booking

abbrev pub new_call : ℕ → ℕ → ℕ → ℕ → ℕ → CallType → String → Call
new_call id booking initiator recipient expires_at type key = record {
  id = id;
  booking_id = booking;
  initiator_id = initiator;
  recipient_id = recipient;
  ended_by_id = none;
  type = type;
  status = ringing;
  client_request_id = key;
  expires_at = expires_at;
  answered_at = none;
  ended_at = none;
}

-- `call:incoming`
abbrev pub announce_call : Call → CallDb → CallDb
announce_call c db = record db {
  outbox =
      db.outbox
      ++ record { room = user c.recipient_id; name = "call:incoming"; call_id = c.id } ∷ [];
}

-- The transaction of initiate, under the locks of both participants. `id` is the identifier that the
-- database gives to the call. A booking has at most one active call by an index.
unfoldable pub open_call :
    ℕ → ℕ → Actor → BookingRow → Participant → CallType → String → CallDb → Answer
open_call id now who b recipient type key db =
    elim (find (has_request_key who.user_id b.id key) db.calls) [
      | some c ↦
          if not (c.booking_id == b.id) || not (same_type c.type type)
          then (db, err request_reused)
          else (db, ok c)
      | none ↦
          let c =
            new_call id b.id who.user_id recipient.id (now + db.config.ring_timeout_seconds * 1000)
              type key in
          if any (is_busy_with who.user_id recipient.id) db.calls
          then (db, err participant_busy)
          else if any (is_active_in b.id) db.calls
          then (db, err booking_busy)
          else (
            enqueue_state c b (
                announce_call c (
                  notify_recipient (incoming_call type) c (role_in b recipient.id)
                    (record db { calls = db.calls ++ c ∷ [] }))),
            ok c,
          )
    ]

unfoldable pub initiate_guards : Actor → ℕ → CallDb → Result CallError (BookingRow × Participant)
initiate_guards who booking db = do
  throw_if (not db.config.calls_enabled) calls_disabled
  b ← require_participant_booking who booking db
  throw_if (not (allows_calls db.config b)) booking_forbids
  throw_if (cannot_receive b (other_party who b)) recipient_unavailable
  ok (b, other_party who b)

unfoldable pub initiate : ℕ → ℕ → Actor → ℕ → CallType → String → CallDb → Answer
initiate id now who booking type key db = elim (initiate_guards who booking db) [
  | err e ↦ (db, err e)
  | ok (b, recipient) ↦ elim (find (has_request_key who.user_id booking key) db.calls) [
    | some c ↦
        if not (c.booking_id == booking) || not (same_type c.type type)
        then (db, err request_reused)
        else (db, ok c)
    | none ↦ open_call id now who b recipient type key db
  ]
]

-- requireCall, with the booking of the call
unfoldable pub require_call : ℕ → CallDb → Result CallError (Call × BookingRow)
require_call id db = do
  c ← or_throw (find (has_call_id id) db.calls) call_not_found
  b ← or_throw (db.bookings c.booking_id) call_not_found
  ok (c, b)

abbrev pub with_call {ℓ} :
    {A : Type ℓ}
    → ℕ
    → (Call → BookingRow → CallDb → CallDb × Result CallError A)
    → CallDb
    → CallDb × Result CallError A
with_call id f db = elim (require_call id db) [ err e ↦ (db, err e) | ok (c, b) ↦ f c b db ]

unfoldable pub accept : ℕ → Actor → ℕ → CallDb → Answer
accept now who id db =
    if db.config.calls_enabled
    then with_call id (accept_seen now who) db
    else (db, err calls_disabled)

unfoldable pub reject : ℕ → Actor → ℕ → CallDb → Answer
reject now who id db = with_call id (reject_seen now who) db

unfoldable pub reject_for_booking : ℕ → Actor → ℕ → ℕ → CallDb → Answer
unfolding reject
reject_for_booking now who booking id db =
    with_call id
      (λ c b d. if c.booking_id == booking then reject now who id d else (d, err call_not_found)) db

unfoldable pub cancel : ℕ → Actor → ℕ → CallDb → Answer
cancel now who id db = with_call id (cancel_seen now who) db

unfoldable pub end_call : ℕ → Actor → ℕ → CallDb → Answer
end_call now who id db = with_call id (end_seen now who) db

unfoldable pub signal_target : ℕ → Actor → ℕ → CallDb → CallDb × Result CallError (ℕ × Role)
signal_target now who id db =
    if db.config.calls_enabled
    then with_call id (signal_target_seen now who) db
    else (db, err calls_disabled)

unfoldable pub for_each : (ℕ → CallDb → CallDb) → List ℕ → CallDb → CallDb
for_each f [] db = db
for_each f (id ∷ ids) db = for_each f ids (f id db)

-- expireStaleCalls, on the identifiers that its two queries select; every call is tested again in
-- the transaction that writes it.
unfoldable pub expire_stale_calls : ℕ → List ℕ → List ℕ → CallDb → CallDb
unfolding for_each
expire_stale_calls now ringing_ids accepted_ids db =
    for_each (expire_accepted_call now) accepted_ids
      (for_each (expire_one_ringing_call now) ringing_ids db)

-- A transaction of some request, on whatever the request read before.
pub data Request : Type 0 where
  opens : ℕ → ℕ → Actor → BookingRow → Participant → CallType → String → Request
  accepts rejects cancels ends signals : ℕ → Actor → Call → BookingRow → Request
  expires_ringing expires_accepted : ℕ → ℕ → Request

unfoldable pub serve : Request → CallDb → CallDb
serve (opens id now who b recipient type key) db = (open_call id now who b recipient type key db).0
serve (accepts now who c b) db = (accept_seen now who c b db).0
serve (rejects now who c b) db = (reject_seen now who c b db).0
serve (cancels now who c b) db = (cancel_seen now who c b db).0
serve (ends now who c b) db = (end_seen now who c b db).0
serve (signals now who c b) db = (signal_target_seen now who c b db).0
serve (expires_ringing now id) db = expire_one_ringing_call now id db
serve (expires_accepted now id) db = expire_accepted_call now id db

-- Requests of any clients, one transaction after the other.
unfoldable pub run : List Request → CallDb → CallDb
unfolding serve
run [] db = db
run (r ∷ rs) db = run rs (serve r db)
