-- ===== src/Work/Codes.antt =====
-- hashOtp and matchesOtp of src/modules/bookings/booking-work-verification.service.ts. The digest of
-- a code is a parameter, `digest purpose booking code`, in hexadecimal digits.
use latache_backend.Clock.{Text, is_digit}
use latache_backend.Prelude.{
  List, Bool, ℕ, true, length, Option, ◌∷◌, if◌then◌else◌, ◌≡◌, ◌==◌, some, ==_refl, ◌&&◌, is_some,
  ◌-◌, false, [], refl, leb, none,
}

pub data Purpose : Type 0 where
  start completion : Purpose

-- The value of a hexadecimal digit of either case.
unfoldable pub hex_value : ℕ → Option ℕ
hex_value c =
    if is_digit c
    then some (c - 48)
    else if leb 97 c && leb c 102
    then some (c - 87)
    else if leb 65 c && leb c 70
    then some (c - 55)
    else none

-- `Buffer.from(text, 'hex')`, as the values of its digits; it ends at the first other character.
unfoldable pub hex_digits : Text → List ℕ
unfolding hex_value
hex_digits [] = []
hex_digits (c ∷ cs) = elim (hex_value c) [ none ↦ [] | some v ↦ v ∷ hex_digits cs ]

abbrev pub all_units : (ℕ → Bool) → Text → Bool
all_units p [] = true
all_units p (c ∷ cs) = p c && all_units p cs

-- `/^[0-9]{6}$/`
unfoldable pub is_six_digits : Text → Bool
is_six_digits code = length code == 6 && all_units is_digit code

-- `/^[a-f0-9]{64}$/i`
unfoldable pub is_hex_digest : Text → Bool
unfolding hex_value
is_hex_digest hash = length hash == 64 && all_units (λ c. is_some (hex_value c)) hash

-- `timingSafeEqual` of two buffers
unfoldable pub same_bytes : List ℕ → List ℕ → Bool
same_bytes [] [] = true
same_bytes [] (d ∷ ds) = false
same_bytes (c ∷ cs) [] = false
same_bytes (c ∷ cs) (d ∷ ds) = c == d && same_bytes cs ds

unfoldable pub matches_otp : (Purpose → ℕ → Text → Text) → Purpose → ℕ → Text → Text → Bool
unfolding is_six_digits is_hex_digest same_bytes hex_digits
matches_otp digest purpose id code expected_hash =
    if is_six_digits code && is_hex_digest expected_hash
    then same_bytes (hex_digits (digest purpose id code)) (hex_digits expected_hash)
    else false

same_bytes_refl : (cs : List ℕ) → same_bytes cs cs ≡ true
unfolding same_bytes
same_bytes_refl [] = refl
same_bytes_refl (c ∷ cs) = rw (same_bytes, ==_refl c, same_bytes_refl cs) refl

-- A code matches the digest that was made of it.
pub matches_otp_own :
    (digest : Purpose → ℕ → Text → Text) (purpose : Purpose) (id : ℕ) (code : Text)
    → is_six_digits code ≡ true
    → is_hex_digest (digest purpose id code) ≡ true
    → matches_otp digest purpose id code (digest purpose id code) ≡ true
unfolding matches_otp
matches_otp_own digest purpose id code six hex =
    rw (matches_otp, six, hex) (same_bytes_refl (hex_digits (digest purpose id code)))
