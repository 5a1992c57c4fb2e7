-- ===== src/Calls/Tests.antt =====
-- The theorems about src/modules/realtime/realtime-calls.service.ts at a sample booking between the
-- customer 7 and the Tasker 1.
use latache_backend.Prelude.{
  if◌then◌else◌, ℕ, refl, List, true, ◌≡◌, none, ◌∷◌, some, ok, err, [], arith, ◌==◌,
}
use latache_backend.Calls.{
  CallDb, active, voice, Call, CallError, BookingRow, Actor, Participant, update_call, customer,
  has_call_id, tasker, rejected, cancelled,
}
use latache_backend.Calls.Handlers.{
  accept_seen, finish_ringing, close_call, cancel_seen, cancel_by_system, declined, answer_call,
  stop_call,
}
use latache_backend.Calls.Requests.{open_call, run, Request, new_call, opens, accepts, ends}
use latache_backend.Prelude.Rows.{find, update}
use latache_backend.Calls.Steps.{IsExclusive}
use latache_backend.Calls.Exclusive.{run-IsExclusive, run-frozen}
use latache_backend.Calls.Races.{finish_ringing-accept_seen, accept_seen-cancel_seen}
use latache_backend.Calls.Opening.{open_call_once}

abbrev person : ℕ → Participant
person id = record {
  id = id;
  account_status = active;
  deleted_at = none;
  profile_status = some active;
}

abbrev visit : BookingRow
visit = record { id = 100; status = "confirmed"; customer = person 7; tasker = person 1 }

abbrev quiet : CallDb
quiet = record {
  config = record {
    calls_enabled = true;
    ring_timeout_seconds = 45;
    max_duration_seconds = 14400;
    allowed_booking_statuses = "confirmed" ∷ "in_progress" ∷ [];
  };
  bookings = λ b. if b == 100 then some visit else none;
  calls = [];
  outbox = [];
  notices = [];
  pushes = [];
}

abbrev caller : Actor
caller = record { user_id = 7; role = customer }

abbrev callee : Actor
callee = record { user_id = 1; role = tasker }

-- The call that the first request makes, while it rings.
abbrev ring : Call
ring = new_call 5 100 7 1 55000 voice "r1"

abbrev ringing_db : CallDb
ringing_db = (open_call 5 10000 caller visit (person 1) voice "r1" quiet).0

opens_now : open_call 5 10000 caller visit (person 1) voice "r1" quiet ≡ (ringing_db, ok ring)
unfolding open_call find
opens_now = refl

open_call_once_example :
    open_call 6 20000 caller visit (person 1) voice "r1" ringing_db ≡ (ringing_db, ok ring)
open_call_once_example =
    open_call_once 5 6 10000 20000 caller visit (person 1) voice "r1" quiet ringing_db ring
      opens_now

abbrev answered_db : CallDb
answered_db = (accept_seen 30000 callee ring visit ringing_db).0

accepts_now :
    accept_seen 30000 callee ring visit ringing_db ≡ (answered_db, ok (answer_call 30000 ring))
unfolding accept_seen open_call update_call find update
accepts_now = refl

accept_seen-cancel_seen_example :
    (e : CallError) × (cancel_seen 31000 caller ring visit answered_db ≡ (answered_db, err e))
accept_seen-cancel_seen_example =
    accept_seen-cancel_seen 30000 31000 callee caller ring visit visit ringing_db answered_db
      (answer_call 30000 ring) refl accepts_now

abbrev declined_db : CallDb
declined_db = (finish_ringing 30000 ring 1 declined ringing_db).0

declines_now :
    finish_ringing 30000 ring 1 declined ringing_db
    ≡ (declined_db, ok (close_call 30000 (some 1) rejected ring))
unfolding finish_ringing open_call update_call find update
declines_now = refl

finish_ringing-accept_seen_example :
    (e : CallError) × (accept_seen 31000 callee ring visit declined_db ≡ (declined_db, err e))
finish_ringing-accept_seen_example =
    finish_ringing-accept_seen 30000 31000 1 declined callee ring visit ringing_db declined_db
      (close_call 30000 (some 1) rejected ring) refl declines_now

abbrev traffic : List Request
traffic =
    opens 5 10000 caller visit (person 1) voice "r1"
    ∷ accepts 30000 callee ring visit
    ∷ opens 6 31000 callee visit (person 7) voice "r2"
    ∷ ends 32000 caller (answer_call 30000 ring) visit
    ∷ []

run-IsExclusive_example : IsExclusive (run traffic quiet)
run-IsExclusive_example = run-IsExclusive traffic quiet (λ user. omega arith)

abbrev over : Call
over = close_call 30000 (some 1) rejected ring

declined_found : find (has_call_id 5) declined_db.calls ≡ some over
unfolding finish_ringing open_call update_call find update
declined_found = refl

run-frozen_example : find (has_call_id 5) (run traffic declined_db).calls ≡ some over
run-frozen_example = run-frozen traffic declined_db 5 over declined_found refl

-- The system cancels an accepted call, where a request to accept read it before.
accepted_is_cancelled :
    find
      (has_call_id 5)
      (accept_seen 31000 callee ring (record visit { status = "completed" }) answered_db).0.calls
    ≡ some (stop_call 31000 cancelled (answer_call 30000 ring))
unfolding accept_seen cancel_by_system open_call update_call find update
accepted_is_cancelled = refl
