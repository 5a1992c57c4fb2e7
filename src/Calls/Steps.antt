-- ===== src/Calls/Steps.antt =====
-- What every transaction of src/modules/realtime/realtime-calls.service.ts keeps, and with them every
-- interleaving of requests.
use mathlib.Core.Bool.{false≢true}
use latache_backend.Prelude.{
  none, ℕ, if◌then◌else◌, ◌≤◌, List, Bool, sum_of, ◌≡◌, ◌&&◌, true, some, ◌==◌, false, ap, ◌||◌,
  Option-cases, ◌∙◌, inl, inr, Bool-cases, some-value, sym, arith,
}
use latache_backend.Calls.{CallDb, Call, update_call, is_active, BookingRow, has_call_id}
use latache_backend.Prelude.Rows.{find, update, find-update-other, sum_of-update}

-- 1 for an active call that the user makes or receives.
abbrev pub is_engaged : ℕ → Call → ℕ
is_engaged user c =
    if is_active c.status && (c.initiator_id == user || c.recipient_id == user) then 1 else 0

abbrev pub engagements : ℕ → List Call → ℕ
engagements user = sum_of (is_engaged user)

-- Nobody is in two calls at once.
abbrev pub IsExclusive : CallDb → Type 0
IsExclusive db = (user : ℕ) → engagements user db.calls ≤ 1

-- From one database to a later one: a call that was over stays as it was, and if nobody was in two
-- calls then nobody is.
pub record IsStep (db after : CallDb) : Type 0 where
  pub frozen :
      (id : ℕ) (c : Call)
      → find (has_call_id id) db.calls ≡ some c
      → is_active c.status ≡ false
      → find (has_call_id id) after.calls ≡ some c
  pub exclusive : IsExclusive db → IsExclusive after

pub IsStep-refl : (db : CallDb) → IsStep db db
IsStep-refl db = record { frozen = λ id c h over. h; exclusive = λ e. e }

pub IsStep-trans : (a b c : CallDb) → IsStep a b → IsStep b c → IsStep a c
IsStep-trans a b c s t = record {
  frozen = λ id x h over. t.frozen id x (s.frozen id x h over) over;
  exclusive = λ e. t.exclusive (s.exclusive e);
}

-- What the updates of the service keep of a row.
pub record KeepsParties (g : Call → Call) : Type 0 where
  pub id : (c : Call) → (g c).id ≡ c.id
  pub initiator : (c : Call) → (g c).initiator_id ≡ c.initiator_id
  pub recipient : (c : Call) → (g c).recipient_id ≡ c.recipient_id

pub update_call-inversion :
    (test : Call → Bool) (g : Call → Call) (id : ℕ) (db after : CallDb) (row : Call)
    (b : BookingRow)
    → update_call test g id db ≡ some (after, row, b)
    → (c : Call) × (find (has_call_id id) db.calls ≡ some c)
      × (test c ≡ true)
      × (after.calls ≡ update (has_call_id id) g db.calls)
      × (row ≡ g c)
unfolding update_call
update_call-inversion test g id db after row b h =
    elim (Option-cases (find (has_call_id id) db.calls)) [
      | inl missing ↦ cc (rw (missing, update_call) at h)
      | inr (c, found) ↦
          let h₁ = rw (found, update_call) at h in
          elim (Bool-cases (test c)) [
            | inr fails ↦ cc (rw fails at h₁)
            | inl passes ↦
                let h₂ = rw passes at h₁ in
                elim (Option-cases (db.bookings c.booking_id)) [
                  | inl none_there ↦ cc (rw none_there at h₂)
                  | inr (b', held) ↦
                      let same = some-value (rw held at h₂) in
                      (
                        c,
                        found,
                        passes,
                        ap (λ (x : CallDb × Call × BookingRow). x.0.calls) (sym same),
                        ap (λ (x : CallDb × Call × BookingRow). x.1) (sym same),
                      )
                ]
          ]
    ]

-- An update of an active call is such a step.
pub update_call-IsStep :
    (test : Call → Bool) (g : Call → Call) (id : ℕ) (db after : CallDb) (row : Call)
    (b : BookingRow)
    → ((c : Call) → test c ≡ true → is_active c.status ≡ true)
    → KeepsParties g
    → update_call test g id db ≡ some (after, row, b)
    → IsStep db after
update_call-IsStep test g id db after row b live keeps h =
    let (c, found, passes, calls, same) = update_call-inversion test g id db after row b h in
    record {
      frozen = λ j x held over.
          ap (find (has_call_id j)) calls
          ∙ find-update-other (has_call_id id) (has_call_id j) g db.calls c x
              (λ y. ap (λ i. i == j) (keeps.id y)) found held
              (λ e. false≢true (sym over ∙ ap (λ y. is_active y.status) (sym e) ∙ live c passes));
      exclusive = λ e user.
          let sums = sum_of-update (is_engaged user) (has_call_id id) g db.calls c found in
          let i = keeps.initiator c in
          let r = keeps.recipient c in
          let active = live c passes in
          let less : is_engaged user (g c) ≤ is_engaged user c = ground arith in
          rw calls (omega (arith, sums, e user, less));
    }

-- Rows of the other tables do not matter.
same_calls-IsStep :
    (db mid after : CallDb) → after.calls ≡ mid.calls → IsStep db mid → IsStep db after
same_calls-IsStep db mid after same s = record {
  frozen = λ id c h over. ap (find (has_call_id id)) same ∙ s.frozen id c h over;
  exclusive = λ e user. rw same (s.exclusive e user);
}

-- An answer whose database is such a step.
pub record IsAnswer {ℓ} {A : Type ℓ} (db : CallDb) (answer : CallDb × A) : Type 0 where
  pub step : IsStep db answer.0

pub if-IsAnswer {ℓ} :
    {A : Type ℓ} {db : CallDb} (t : Bool) {x y : CallDb × A}
    → IsAnswer db x
    → IsAnswer db y
    → IsAnswer db (if t then x else y)
if-IsAnswer true s u = s
if-IsAnswer false s u = u

pub refuse-IsAnswer {ℓ} : {A : Type ℓ} (db : CallDb) (a : A) → IsAnswer db (db, a)
refuse-IsAnswer db a = record { step = IsStep-refl db }

-- A transaction that updates an active call and then writes to the other tables.
module _ (test : Call → Bool) (g : Call → Call) (id : ℕ) (db : CallDb)
    (live : (c : Call) → test c ≡ true → is_active c.status ≡ true) (keeps : KeepsParties g)
    (f : Call → BookingRow → CallDb → CallDb)
    (aside : (c : Call) (b : BookingRow) (d : CallDb) → (f c b d).calls ≡ d.calls) where
  pub write-IsStep :
      IsStep db
        (elim (update_call test g id db) [ none ↦ db | some (after, row, b) ↦ f row b after ])
  write-IsStep = elim (Option-cases (update_call test g id db)) [
    | inl nothing ↦ rw nothing (IsStep-refl db)
    | inr ((after, row, b), done) ↦ rw done (
        same_calls-IsStep db after (f row b after) (aside row b after)
          (update_call-IsStep test g id db after row b live keeps done))
  ]

  pub update-IsAnswer {ℓ} :
      {A : Type ℓ} (refused : A) (answer : Call → A)
      → IsAnswer db (elim (update_call test g id db) as (λ _. CallDb × A) [
        | none ↦ (db, refused)
        | some (after, row, b) ↦ (f row b after, answer row)
      ])
  update-IsAnswer refused answer = elim (Option-cases (update_call test g id db)) [
    | inl nothing ↦ rw nothing (refuse-IsAnswer db refused)
    | inr ((after, row, b), done) ↦ rw done (record {
      step =
          same_calls-IsStep db after (f row b after) (aside row b after)
            (update_call-IsStep test g id db after row b live keeps done);
    })
  ]
