-- ===== src/Calls/Opening.antt =====
-- Starting a call: initiate of src/modules/realtime/realtime-calls.service.ts.
use latache_backend.Prelude.{
  ℕ, List, ◌≡◌, any, false, String, ◌∷◌, ◌≤◌, arith, Option-cases, ◌++◌, [], sum_of-append, refl,
  inr, Bool-cases, not, ◌==◌, ◌||◌, inl, ==_iff, err, ok, true, ap, ok-value, sym, ◌∙◌, ==_refl,
  str_eq_refl, some,
}
use latache_backend.Calls.{
  voice, video, CallDb, Call, Actor, BookingRow, Participant, CallType, request_reused,
  participant_busy, booking_busy, has_call_id,
}
use latache_backend.Calls.Requests.{
  open_call, is_busy_with, has_request_key, same_type, is_active_in,
}
use latache_backend.Calls.Steps.{engagements, IsAnswer, is_engaged, if-IsAnswer, refuse-IsAnswer}
use latache_backend.Prelude.Rows.{find, find-append-some, find-append-none}
use latache_backend.Calls.Handlers.{Answer}

not_busy :
    (a b : ℕ) (cs : List Call)
    → any (is_busy_with a b) cs ≡ false
    → (engagements a cs ≡ 0) × (engagements b cs ≡ 0)
not_busy a b [] h = (refl, refl)
not_busy a b (c ∷ cs) h = (ground (arith, not_busy a b cs), ground (arith, not_busy a b cs))

-- A call of two users who are in none adds one engagement to each of them.
added-le :
    (a b user : ℕ) (cs : List Call) (c : Call)
    → c.initiator_id ≡ a
    → c.recipient_id ≡ b
    → any (is_busy_with a b) cs ≡ false
    → engagements user cs ≤ 1
    → engagements user (cs ++ c ∷ []) ≤ 1
added-le a b user cs c initiates receives free before =
    let none_yet = not_busy a b cs free in
    let sums = sum_of-append (is_engaged user) cs (c ∷ []) in
    elim (Bool-cases (user == a)) [
      | inl first ↦
          let same : user ≡ a = (==_iff user a).0 first in
          let zero_now : engagements user cs ≡ 0 = rw same none_yet.0 in
          ground (arith, sums, zero_now)
      | inr other ↦ elim (Bool-cases (user == b)) [
        | inl second ↦
            let same : user ≡ b = (==_iff user b).0 second in
            let zero_now : engagements user cs ≡ 0 = rw same none_yet.1 in
            ground (arith, sums, zero_now)
        | inr third ↦
            let zero_more : is_engaged user c ≡ 0 = ground arith in
            omega (arith, sums, zero_more, before)
      ]
    ]

pub open_call-IsAnswer :
    (id now : ℕ) (who : Actor) (b : BookingRow) (recipient : Participant) (type : CallType)
    (key : String) (db : CallDb)
    → IsAnswer db (open_call id now who b recipient type key db)
unfolding open_call
open_call-IsAnswer id now who b recipient type key db =
    elim (Option-cases (find (has_request_key who.user_id b.id key) db.calls)) [
      | inr (c, known) ↦
          rw (known, open_call)
            (if-IsAnswer (not (c.booking_id == b.id) || not (same_type c.type type))
              (refuse-IsAnswer db (err request_reused)) (refuse-IsAnswer db (ok c)))
      | inl new ↦
          rw (new, open_call)
            (elim (Bool-cases (any (is_busy_with who.user_id recipient.id) db.calls)) [
              | inl busy ↦ rw busy (refuse-IsAnswer db (err participant_busy))
              | inr free ↦ rw free (
                  if-IsAnswer (any (is_active_in b.id) db.calls)
                    (refuse-IsAnswer db (err booking_busy))
                    (record {
                      step = record {
                        frozen = λ i c h over. find-append-some (has_call_id i) db.calls _ c h;
                        exclusive = λ e user.
                            added-le who.user_id recipient.id user db.calls _ refl refl free
                              (e user);
                      };
                    }))
            ])
    ]

same_type_refl : (t : CallType) → same_type t t ≡ true
same_type_refl voice = refl
same_type_refl video = refl

-- Asking again with the same key, whenever, gives the call that the first request made or found, and
-- changes nothing.
pub open_call_once :
    (id id' now now' : ℕ) (who : Actor) (b : BookingRow) (recipient : Participant) (type : CallType)
    (key : String) (db after : CallDb) (c : Call)
    → open_call id now who b recipient type key db ≡ (after, ok c)
    → open_call id' now' who b recipient type key after ≡ (after, ok c)
unfolding open_call
open_call_once id id' now now' who b recipient type key db after c h =
    elim (Option-cases (find (has_request_key who.user_id b.id key) db.calls)) [
      | inr (c', known) ↦
          let h₁ = rw (known, open_call) at h in
          elim (Bool-cases (not (c'.booking_id == b.id) || not (same_type c'.type type))) [
            | inl differs ↦ cc (rw differs at h₁)
            | inr agrees ↦
                let h₂ = rw agrees at h₁ in
                let same : db ≡ after = ap (λ (x : Answer). x.0) h₂ in
                let row : c' ≡ c = ok-value (ap (λ (x : Answer). x.1) h₂) in
                let known' : find (has_request_key who.user_id b.id key) after.calls ≡ some c' =
                  ap (λ (d : CallDb). find (has_request_key who.user_id b.id key) d.calls)
                    (sym same)
                  ∙ known in
                rw (known', open_call, agrees, row) refl
          ]
      | inl new ↦
          let h₁ = rw (new, open_call) at h in
          elim (Bool-cases (any (is_busy_with who.user_id recipient.id) db.calls)) [
            | inl busy ↦ cc (rw busy at h₁)
            | inr free ↦
                let h₂ = rw free at h₁ in
                elim (Bool-cases (any (is_active_in b.id) db.calls)) [
                  | inl taken ↦ cc (rw taken at h₂)
                  | inr unused ↦
                      let h₃ = rw unused at h₂ in
                      let row = ok-value (ap (λ (x : Answer). x.1) h₃) in
                      let calls = ap (λ (x : Answer). x.0.calls) (sym h₃) in
                      let found =
                        ap (find (has_request_key who.user_id b.id key)) calls
                        ∙ find-append-none (has_request_key who.user_id b.id key) db.calls _ new
                            (rw (==_refl who.user_id, ==_refl b.id) (str_eq_refl key)) in
                      let kind = same_type_refl type in
                      rw (found, open_call, ==_refl b.id, kind, row) refl
                ]
          ]
    ]
