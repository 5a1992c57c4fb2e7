-- ===== src/Work/Tests.antt =====
-- The work on a booking from the arrival to its completion, and the theorems applied to it.
use latache_backend.Clock.{Text}
use latache_backend.Work.{
  Work, WorkDb, Image, arrived, Session, in_progress, WorkError, stopped, completed, is_completed,
}
use latache_backend.Work.Codes.{Purpose, start, is_six_digits, is_hex_digest, matches_otp}
use latache_backend.Work.Order.Runs.{
  Request, run, run-IsOrdered, serve, attaches_front_door, issues_start_code, starts_work,
  attaches_completion, issues_completion_code, finishes_work,
}
use latache_backend.Work.Order.{IsOrdered, IsInOrder}
use latache_backend.Work.Finishing.{issue_completion_code, finish_work, attach_completion}
use latache_backend.Prelude.{
  true, some, List, Result, ℕ, String, if◌then◌else◌, ◌∷◌, Option, Bool-cases, arith, ◌==◌, Bool,
  ◌>>=◌, [], none, ◌++◌, ◌≡◌, suc, ok, inl, refl, false, zero, some-value, err, inr,
}
use latache_backend.Work.Starting.{issue_start_code, start_work, attach_front_door}
use latache_backend.Work.Path.{issued_code_starts}
use latache_backend.Work.Path.Finish.{issued_code_finishes}

abbrev zeros : ℕ → Text
zeros zero = []
zeros (suc n) = 48 ∷ zeros n

-- A digest that shows the code.
abbrev plain_digest : Purpose → ℕ → Text → Text
plain_digest purpose id code = code ++ zeros 58

-- "123456"
abbrev first_code : Text
first_code = 49 ∷ 50 ∷ 51 ∷ 52 ∷ 53 ∷ 54 ∷ []

-- "654321"
abbrev second_code : Text
second_code = 54 ∷ 53 ∷ 52 ∷ 51 ∷ 50 ∷ 49 ∷ []

abbrev image_of : String → Image
image_of name = record {
  public_id = name;
  secure_url = name;
  resource_type = "image";
  bytes = 2000;
  mime_type = "image/jpeg";
}

abbrev at_the_door : Work
at_the_door = record {
  customer_id = 9;
  tasker_id = 1;
  status = arrived;
  work_verification_required = true;
  task_started_at = none;
  front_door_verified_at = none;
  start_work_otp_hash = none;
  start_work_otp_expires_at = none;
  start_work_otp_attempts = 0;
  start_work_verified_at = none;
  completion_proof_at = none;
  completion_otp_hash = none;
  completion_otp_expires_at = none;
  completion_otp_attempts = 0;
  completion_submitted_at = none;
  completion_approved_at = none;
  completion_approved_by_role = none;
  completion_verified_at = none;
  completion_verified_by_role = none;
  task_completed_at = none;
  session = none;
  front_door = none;
  completion = none;
}

abbrev site_of : Work → WorkDb
site_of work = record {
  works = λ b. if b == 3 then some work else none;
  public_ids = [];
  completed_tasks = λ t. 4;
  notices = [];
  events = [];
  audits = [];
}

at_the_door-IsInOrder : IsInOrder 5 at_the_door
at_the_door-IsInOrder = record {
  door = λ h. cc;
  started = λ h. cc;
  working = λ r h. cc;
  proved = λ h. cc;
  verified = λ h. cc;
  start_tries = omega arith;
  completion_tries = omega arith;
}

site-IsOrdered : IsOrdered 5 (site_of at_the_door)
site-IsOrdered id w h = elim (Bool-cases (id == 3)) [
  | inl own ↦ rw (← some-value (rw own at h)) at_the_door-IsInOrder
  | inr other ↦ cc (rw other at h)
]

-- The wrong code once, and the right one then.
abbrev shift : List Request
shift =
    attaches_front_door true 1 3 (some (image_of "door")) 10
    ∷ issues_start_code 9 3 first_code 100
    ∷ starts_work 1 3 second_code 11
    ∷ starts_work 1 3 first_code 12
    ∷ attaches_completion true 1 3 (some (image_of "done")) 50
    ∷ issues_completion_code 9 3 second_code 200
    ∷ finishes_work 1 3 second_code 60
    ∷ []

run-IsOrdered_example : IsOrdered 5 (run plain_digest 5 shift (site_of at_the_door))
run-IsOrdered_example = run-IsOrdered plain_digest 5 shift (site_of at_the_door) site-IsOrdered

abbrev is_completed_work : Option Work → Bool
is_completed_work none = false
is_completed_work (some w) = is_completed w.status

-- The finished work of that shift.
shift_completes :
    is_completed_work ((run plain_digest 5 shift (site_of at_the_door)).works 3) ≡ true
unfolding run serve attach_front_door issue_start_code start_work attach_completion
    issue_completion_code finish_work matches_otp ◌>>=◌
shift_completes = refl

abbrev proved_arrival : Work
proved_arrival = record at_the_door { front_door_verified_at = some 10 }

abbrev after_of : WorkDb → Result WorkError WorkDb → WorkDb
after_of db (ok after) = after
after_of db (err e) = db

abbrev code_given : WorkDb
code_given =
    after_of (site_of proved_arrival)
      (issue_start_code plain_digest 9 3 first_code 100 (site_of proved_arrival))

code_runs :
    issue_start_code plain_digest 9 3 first_code 100 (site_of proved_arrival) ≡ ok code_given
unfolding issue_start_code ◌>>=◌
code_runs = refl

first_code-digits : is_six_digits first_code ≡ true
unfolding is_six_digits
first_code-digits = refl

first_code-hex : is_hex_digest (plain_digest start 3 first_code) ≡ true
unfolding is_hex_digest
first_code-hex = refl

issued_code_starts_example :
    ((start_work plain_digest 5 1 3 first_code 12 code_given).1 ≡ ok tt)
    × ((w' : Work) × ((start_work plain_digest 5 1 3 first_code 12 code_given).0.works 3 ≡ some w')
        × (w'.status ≡ in_progress))
issued_code_starts_example =
    issued_code_starts plain_digest 5 3 first_code 12 100 first_code-digits (omega arith)
      (omega arith) 9 proved_arrival (site_of proved_arrival) code_given refl refl first_code-hex
      code_runs

abbrev stopped_session : Session
stopped_session = record {
  tasker_id = 1;
  status = stopped;
  started_at = 12;
  paused_at = none;
  accumulated_paused_secs = 0;
  stopped_at = some 50;
}

abbrev proved_work : Work
proved_work = record proved_arrival {
  status = in_progress;
  front_door = some (record { tasker_id = 1; image = image_of "door"; captured_at = 10 });
  start_work_verified_at = some 12;
  session = some stopped_session;
  completion = some (record { tasker_id = 1; image = image_of "done"; captured_at = 50 });
  completion_proof_at = some 50;
}

proved_work-IsInOrder : IsInOrder 5 proved_work
proved_work-IsInOrder = record {
  door = λ h. refl;
  started = λ h. (refl, refl);
  working = λ r h. refl;
  proved = λ h. (refl, refl, refl);
  verified = λ h. refl;
  start_tries = omega arith;
  completion_tries = omega arith;
}

abbrev last_code_given : WorkDb
last_code_given =
    after_of (site_of proved_work)
      (issue_completion_code plain_digest 9 3 first_code 100 (site_of proved_work))

last_code_runs :
    issue_completion_code plain_digest 9 3 first_code 100 (site_of proved_work) ≡ ok last_code_given
unfolding issue_completion_code ◌>>=◌
last_code_runs = refl

issued_code_finishes_example :
    ((finish_work plain_digest 5 1 3 first_code 60 last_code_given).1 ≡ ok tt)
    × ((finish_work plain_digest 5 1 3 first_code 60 last_code_given).0.completed_tasks 1 ≡ 5)
    × ((w' : Work) × ((finish_work plain_digest 5 1 3 first_code 60 last_code_given).0.works 3
          ≡ some w')
        × (w'.status ≡ completed))
issued_code_finishes_example =
    issued_code_finishes plain_digest 5 3 first_code 60 100 first_code-digits (omega arith)
      (omega arith) 9 proved_work (site_of proved_work) last_code_given refl proved_work-IsInOrder
      first_code-hex last_code_runs
