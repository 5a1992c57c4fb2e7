-- ===== src/Times/Tests.antt =====
-- A customer who asks a Tasker for a time, and the theorems applied to it.
use latache_backend.Clock.{Text}
use latache_backend.Times.{TimeDb, TimeRow, accepted, TimeError, no_longer_usable}
use latache_backend.Times.Requests.{
  Claim, Now, mark_fulfilled, assert_usable_for_booking, TimeInput, Offer, create_time, respond,
  expire_due_requests,
}
use latache_backend.Times.Single.Runs.{Request, run, run-IsSingle, serve, asks, answers, sweeps}
use latache_backend.Times.Use.{IsGranted, mark_fulfilled_once}
use latache_backend.Prelude.{
  ◌>>=◌, List, [], ◌∷◌, some, Result, none, ◌≡◌, true, length, arith, ok, refl, err,
}
use latache_backend.Times.Single.{IsSingle}
use latache_backend.Prelude.Rows.{find, update}

-- "2024-03-01"
abbrev march_first : Text
march_first = 50 ∷ 48 ∷ 50 ∷ 52 ∷ 45 ∷ 48 ∷ 51 ∷ 45 ∷ 48 ∷ 49 ∷ []

-- "14:05"
abbrev fourteen : Text
fourteen = 49 ∷ 52 ∷ 58 ∷ 48 ∷ 53 ∷ []

abbrev noon : Now
noon = record { at = 1000; today = march_first; minutes = 720 }

abbrev no_requests : TimeDb
no_requests = record { rows = []; notices = [] }

abbrev wish : TimeInput
wish = record { service_slug = "cleaning"; requested_date = march_first; requested_time = fourteen }

abbrev offer : Offer
offer = record { exists = true; active = true; service = some 4 }

-- A second request while the first waits, the answer, and the sweep.
abbrev talk : List Request
talk =
    asks 5 9 1 offer wish 500 noon
    ∷ asks 6 9 1 offer wish 500 noon
    ∷ answers 1 5 true 500 noon
    ∷ asks 7 9 1 offer wish 500 noon
    ∷ sweeps (7 ∷ 5 ∷ []) 1600
    ∷ []

talk_rows : length (run talk no_requests).rows ≡ 2
unfolding run serve create_time respond expire_due_requests find update ◌>>=◌
talk_rows = refl

run-IsSingle_example : IsSingle (run talk no_requests)
run-IsSingle_example = run-IsSingle talk no_requests (λ c t. omega arith)

abbrev agreed : TimeRow
agreed = record {
  id = 5;
  customer_id = 9;
  tasker_id = 1;
  service_id = 4;
  service_slug = "cleaning";
  requested_date = march_first;
  requested_time = fourteen;
  status = accepted;
  expires_at = 1500;
  responded_at = some 1000;
  fulfilled_at = none;
  booking_id = none;
}

abbrev agreement : TimeDb
agreement = record { rows = agreed ∷ []; notices = [] }

abbrev claim : Claim
claim = record {
  request_id = 5;
  customer_id = 9;
  tasker_id = 1;
  service_slug = "cleaning";
  date = march_first;
  time = fourteen;
}

claim_runs : assert_usable_for_booking claim 1200 agreement ≡ ok agreed
unfolding assert_usable_for_booking find ◌>>=◌
claim_runs = refl

abbrev used_of : Result TimeError TimeDb → TimeDb
used_of (ok after) = after
used_of (err e) = agreement

abbrev used_up : TimeDb
used_up = used_of (mark_fulfilled 5 70 1200 agreement)

use_runs : mark_fulfilled 5 70 1200 agreement ≡ ok used_up
unfolding mark_fulfilled find ◌>>=◌
use_runs = refl

mark_fulfilled_once_example :
    IsGranted claim 1200 agreed × (mark_fulfilled 5 71 1300 used_up ≡ err no_longer_usable)
mark_fulfilled_once_example =
    mark_fulfilled_once claim 70 71 1200 1300 agreement used_up agreed claim_runs use_runs
