-- ===== src/Calls.antt =====
-- The calls of a conversation: the data that src/modules/realtime/realtime-calls.service.ts reads
-- and writes (prisma/schema.prisma: ConversationCall, with the index of its migration), and its
-- transactions. Times are milliseconds; the free texts of reasons, titles and bodies are left out.
pub mod Handlers
pub mod Steps
pub mod Opening
pub mod Exclusive
pub mod Races
pub mod Requests
mod Tests
use latache_backend.Prelude.{
  ℕ, Bool, true, false, Option, none, some, List, [], ◌∷◌, ◌++◌, String, if◌then◌else◌, Result, ok,
  err, ◌==◌, str_eq, any, ◌&&◌, ◌||◌, leb, ◌+◌, ◌*◌, not,
}
use latache_backend.Prelude.Rows.{find, update}

pub data CallStatus : Type 0 where
  ringing accepted rejected cancelled ended missed : CallStatus

pub data CallType : Type 0 where
  voice video : CallType

pub data Role : Type 0 where
  customer tasker admin : Role

pub data AccountStatus : Type 0 where
  active pending_verification pending_approval suspended deactivated : AccountStatus

-- A participant of a booking, with the status of the profile of the role taken there.
pub record Participant : Type 0 where
  pub id : ℕ
  pub account_status : AccountStatus
  pub deleted_at : Option ℕ
  pub profile_status : Option AccountStatus

pub record BookingRow : Type 0 where
  pub id : ℕ
  pub status : String
  pub customer : Participant
  pub tasker : Participant

pub record Call : Type 0 where
  pub id : ℕ
  pub booking_id : ℕ
  pub initiator_id : ℕ
  pub recipient_id : ℕ
  pub ended_by_id : Option ℕ
  pub type : CallType
  pub status : CallStatus
  pub client_request_id : String
  pub expires_at : ℕ
  pub answered_at : Option ℕ
  pub ended_at : Option ℕ

-- Who asks: a user in the role of the session.
pub record Actor : Type 0 where
  pub user_id : ℕ
  pub role : Role

-- A row of the realtime outbox, without its payload.
pub data Room : Type 0 where
  user : ℕ → Room
  user_role : ℕ → Role → Room

pub record Event : Type 0 where
  pub room : Room
  pub name : String
  pub call_id : ℕ

pub data NoticeType : Type 0 where
  incoming_call missed_call : CallType → NoticeType
  call_ended : NoticeType

pub record CallNotice : Type 0 where
  pub user_id : ℕ
  pub role : Role
  pub type : NoticeType
  pub call_id : ℕ
  pub read_at : Option ℕ

pub record Config : Type 0 where
  pub calls_enabled : Bool
  pub ring_timeout_seconds : ℕ
  pub max_duration_seconds : ℕ
  pub allowed_booking_statuses : List String

-- `pushes` are the notifications handed to the push service.
pub record CallDb : Type 0 where
  pub config : Config
  pub bookings : ℕ → Option BookingRow
  pub calls : List Call
  pub outbox : List Event
  pub notices : List CallNotice
  pub pushes : List CallNotice

pub data CallError : Type 0 where
  calls_disabled conversation_not_found call_not_found booking_forbids : CallError
  recipient_unavailable request_reused participant_busy booking_busy : CallError
  wrong_role not_recipient not_initiator not_participant : CallError
  not_ringing not_accepted booking_gone invitation_expired : CallError

-- ACTIVE_CALL_STATUSES
abbrev pub is_active : CallStatus → Bool
is_active ringing = true
is_active accepted = true
is_active rejected = false
is_active cancelled = false
is_active ended = false
is_active missed = false

abbrev pub is_ringing : CallStatus → Bool
is_ringing ringing = true
is_ringing accepted = false
is_ringing rejected = false
is_ringing cancelled = false
is_ringing ended = false
is_ringing missed = false

abbrev pub is_accepted : CallStatus → Bool
is_accepted ringing = false
is_accepted accepted = true
is_accepted rejected = false
is_accepted cancelled = false
is_accepted ended = false
is_accepted missed = false

abbrev pub is_ended : CallStatus → Bool
is_ended ringing = false
is_ended accepted = false
is_ended rejected = false
is_ended cancelled = false
is_ended ended = true
is_ended missed = false

abbrev pub has_call_id : ℕ → Call → Bool
has_call_id id c = c.id == id

abbrev pub role_in : BookingRow → ℕ → Role
role_in b id = if id == b.customer.id then customer else tasker

-- `updateMany` on the row with an identifier, under a test of its state, and the row after it with
-- its booking; `none` where no row was updated. By its foreign key a call has a booking.
unfoldable pub update_call :
    (Call → Bool) → (Call → Call) → ℕ → CallDb → Option (CallDb × Call × BookingRow)
update_call test g id db = elim (find (has_call_id id) db.calls) [
  | none ↦ none
  | some c ↦
      if test c
      then (elim (db.bookings c.booking_id) [
        | none ↦ none
        | some b ↦ some (record db { calls = update (has_call_id id) g db.calls }, g c, b)
      ])
      else none
]

-- enqueueState
abbrev pub enqueue_state : Call → BookingRow → CallDb → CallDb
enqueue_state c b db = record db {
  outbox =
      db.outbox
      ++ record {
        room = user_role c.initiator_id (role_in b c.initiator_id);
        name = "call:state";
        call_id = c.id;
      }
        ∷ record {
          room = user_role c.recipient_id (role_in b c.recipient_id);
          name = "call:state";
          call_id = c.id;
        }
        ∷ [];
}

-- enqueueCallEndedPush: the notification is stored as read.
abbrev pub enqueue_call_ended_push : ℕ → Call → BookingRow → CallDb → CallDb
enqueue_call_ended_push now c b db =
    let notice : CallNotice = record {
      user_id = c.recipient_id;
      role = role_in b c.recipient_id;
      type = call_ended;
      call_id = c.id;
      read_at = some now;
    } in
    record db { notices = db.notices ++ notice ∷ []; pushes = db.pushes ++ notice ∷ [] }

-- The notification of a ringing or missed call, its event and its push.
abbrev pub notify_recipient : NoticeType → Call → Role → CallDb → CallDb
notify_recipient type c role db =
    let notice : CallNotice = record {
      user_id = c.recipient_id;
      role = role;
      type = type;
      call_id = c.id;
      read_at = none;
    } in
    record db {
      notices = db.notices ++ notice ∷ [];
      outbox =
          db.outbox
          ++ record {
            room = user_role c.recipient_id role;
            name = "notification:created";
            call_id = c.id;
          }
            ∷ [];
      pushes = db.pushes ++ notice ∷ [];
    }
