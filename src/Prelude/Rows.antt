-- ===== src/Prelude/Rows.antt =====
-- Rows of a database table: the row that a unique key selects, and its update. A key is a test on
-- rows; where it is unique, the first row that passes is the only one.
use Prim.Native.Nat.{ℕ, ◌+◌}
use mathlib.Core.Path.{◌≡◌, refl, sym, ap, ◌∙◌}
use mathlib.Core.Bool.{Bool, true, false}
use mathlib.Core.Logic.{◌≢◌, inl, inr}
use mathlib.Core.Option.{Option, none, some}
use mathlib.Core.List.{List, [], ◌∷◌}
use native.Mathlib.Omega.{arith}
use latache_backend.Prelude.Tests.{if◌then◌else◌, ◌==◌, ==_refl, Bool-cases}
use latache_backend.Prelude.Lists.{sum_of, All, any}
use latache_backend.Prelude.{◌≤◌, ◌++◌}

module _ {ℓ} {A : Type ℓ} where
  -- `findUnique`
  unfoldable pub find : (A → Bool) → List A → Option A
  find p [] = none
  find p (x ∷ xs) = if p x then some x else find p xs

  -- `update`: the row is replaced by its new version.
  unfoldable pub update : (A → Bool) → (A → A) → List A → List A
  update p g [] = []
  update p g (x ∷ xs) = if p x then g x ∷ xs else x ∷ update p g xs

  -- `updateMany`
  unfoldable pub update_many : (A → Bool) → (A → A) → List A → List A
  update_many p g [] = []
  update_many p g (x ∷ xs) = (if p x then g x else x) ∷ update_many p g xs

  pub find-holds : (p : A → Bool) (xs : List A) (a : A) → find p xs ≡ some a → p a ≡ true
  unfolding find
  find-holds p [] a h = cc
  find-holds p (x ∷ xs) a h = elim (Bool-cases (p x)) [
    | inl hit ↦ let e : x ≡ a = ground arith in rw (← e) hit
    | inr miss ↦ find-holds p xs a (ground arith)
  ]

  pub find-All {κ} :
      (P : A → Type κ) (p : A → Bool) (xs : List A) (a : A) → All P xs → find p xs ≡ some a → P a
  unfolding find
  find-All P p [] a k h = cc
  find-All P p (x ∷ xs) a k h = elim (Bool-cases (p x)) [
    | inl hit ↦ let e : x ≡ a = ground arith in rw (← e) k.0
    | inr miss ↦ find-All P p xs a k.1 (ground arith)
  ]

  -- An update keeps what holds of all rows, if it holds of the new version of the row.
  pub update-All {κ} :
      (P : A → Type κ) (p : A → Bool) (g : A → A) (xs : List A) (a : A)
      → find p xs ≡ some a
      → P (g a)
      → All P xs
      → All P (update p g xs)
  unfolding find update
  update-All P p g [] a h new k = k
  update-All P p g (x ∷ xs) a h new k = elim (Bool-cases (p x)) [
    | inl hit ↦ let e : x ≡ a = ground arith in let new' : P (g x) = rw e new in rw hit (new', k.1)
    | inr miss ↦ rw miss (k.0, update-All P p g xs a (ground arith) new k.1)
  ]

  -- The row is found again after its update, if the update keeps the key.
  pub find-update :
      (p : A → Bool) (g : A → A) (xs : List A) (a : A)
      → find p xs ≡ some a
      → p (g a) ≡ true
      → find p (update p g xs) ≡ some (g a)
  unfolding find update
  find-update p g [] a h k = cc
  find-update p g (x ∷ xs) a h k = elim (Bool-cases (p x)) [
    | inl hit ↦ let e : x ≡ a = ground arith in let k' : p (g x) ≡ true = rw e k in rw (hit, k', e)
    | inr miss ↦ rw (miss, miss) (find-update p g xs a (ground arith) k)
  ]

  -- A row at the end is found where no row before it has its key.
  pub find-append-none :
      (p : A → Bool) (xs : List A) (a : A)
      → find p xs ≡ none
      → p a ≡ true
      → find p (xs ++ a ∷ []) ≡ some a
  unfolding find
  find-append-none p [] a h k = rw k
  find-append-none p (x ∷ xs) a h k = elim (Bool-cases (p x)) [
    | inl hit ↦ cc (rw hit at h)
    | inr miss ↦ rw miss (find-append-none p xs a (rw miss at h) k)
  ]

  -- A row at the end hides none before it.
  pub find-append-some :
      (p : A → Bool) (xs ys : List A) (a : A) → find p xs ≡ some a → find p (xs ++ ys) ≡ some a
  unfolding find
  find-append-some p [] ys a h = cc
  find-append-some p (x ∷ xs) ys a h = elim (Bool-cases (p x)) [
    | inl hit ↦ rw hit (rw hit at h)
    | inr miss ↦ rw miss (find-append-some p xs ys a (rw miss at h))
  ]

  pub le-sum_of :
      (f : A → ℕ) (p : A → Bool) (xs : List A) (a : A) → find p xs ≡ some a → f a ≤ sum_of f xs
  unfolding find
  le-sum_of f p [] a h = cc
  le-sum_of f p (x ∷ xs) a h = ground (arith, le-sum_of f p xs a)

  pub sum_of-update :
      (f : A → ℕ) (p : A → Bool) (g : A → A) (xs : List A) (a : A)
      → find p xs ≡ some a
      → sum_of f (update p g xs) + f a ≡ sum_of f xs + f (g a)
  unfolding find update
  sum_of-update f p g [] a h = cc
  sum_of-update f p g (x ∷ xs) a h = ground (arith, sum_of-update f p g xs a)

  -- A row that is found at another place than the updated one is found unchanged.
  pub find-update-other :
      (p q : A → Bool) (g : A → A) (xs : List A) (a c : A)
      → ((x : A) → q (g x) ≡ q x)
      → find p xs ≡ some a
      → find q xs ≡ some c
      → a ≢ c
      → find q (update p g xs) ≡ some c
  unfolding find update
  find-update-other p q g [] a c keeps h k differ = cc
  find-update-other p q g (x ∷ xs) a c keeps h k differ = elim (Bool-cases (p x)) [
    | inl hit ↦
        let e : x ≡ a = ground arith in
        elim (Bool-cases (q x)) [
          | inl same ↦ let e' : x ≡ c = ground arith in absurd (differ (sym e ∙ e'))
          | inr other ↦ rw (hit, keeps x, other) (rw other at k)
        ]
    | inr miss ↦ elim (Bool-cases (q x)) [
      | inl same ↦ rw (miss, same) (rw same at k)
      | inr other ↦
          rw (miss, other)
            (find-update-other p q g xs a c keeps (rw miss at h) (rw other at k) differ)
    ]
  ]

  -- Two updates of a row are one.
  pub update-update :
      (p : A → Bool) (f g : A → A) (xs : List A)
      → ((x : A) → p (f x) ≡ p x)
      → update p g (update p f xs) ≡ update p (λ x. g (f x)) xs
  unfolding update
  update-update p f g [] keeps = refl
  update-update p f g (x ∷ xs) keeps = elim (Bool-cases (p x)) [
    | inl hit ↦ rw (hit, keeps x, hit) refl
    | inr miss ↦ rw (miss, miss) (ap (λ l. x ∷ l) (update-update p f g xs keeps))
  ]

  -- An update reaches the row at the end where no row before it has its key.
  pub update-append_fresh :
      (p : A → Bool) (g : A → A) (xs : List A) (a : A)
      → any p xs ≡ false
      → p a ≡ true
      → update p g (xs ++ a ∷ []) ≡ xs ++ g a ∷ []
  unfolding update
  update-append_fresh p g [] a h k = rw k refl
  update-append_fresh p g (x ∷ xs) a h k = elim (Bool-cases (p x)) [
    | inl hit ↦ cc (rw hit at h)
    | inr miss ↦ rw miss (ap (λ l. x ∷ l) (update-append_fresh p g xs a (rw miss at h) k))
  ]

  pub find-any : (p : A → Bool) (xs : List A) → any p xs ≡ false → find p xs ≡ none
  unfolding find
  find-any p [] h = refl
  find-any p (x ∷ xs) h = elim (Bool-cases (p x)) [
    | inl hit ↦ cc (rw hit at h)
    | inr miss ↦ rw miss (find-any p xs (rw miss at h))
  ]

-- A table whose primary key is a number.
module _ {ℓ} {A : Type ℓ} where
  abbrev pub put : ℕ → A → (ℕ → Option A) → ℕ → Option A
  put k v f j = if j == k then some v else f j

  pub put_self : (k : ℕ) (v : A) (f : ℕ → Option A) → put k v f k ≡ some v
  put_self k v f = rw (==_refl k)
