-- ===== src/Prelude/Text.antt =====
-- What the services do with texts: `trim`, its emptiness, and the length in UTF-16 units.
use Prim.Native.Char.{code}
use Prim.Native.String.{String}
use latache_backend.Prelude.{
  if◌then◌else◌, ℕ, Bool, true, leb, Option, ◌&&◌, false, ◌||◌, some, any, ◌==◌, ◌∷◌, [], ◌+◌, none,
}

-- The white space that `trim` takes off.
unfoldable pub is_space : ℕ → Bool
is_space c =
    (leb 9 c && leb c 13)
    || (any (λ s. s == c)
          (0x20 ∷ 0xa0 ∷ 0x1680 ∷ 0x2028 ∷ 0x2029 ∷ 0x202f ∷ 0x205f ∷ 0x3000 ∷ 0xfeff ∷ [])
        || (leb 0x2000 c && leb c 0x200a))

-- `!key.trim()`
unfoldable pub is_blank : String → Bool
unfolding is_space
is_blank String.[] = true
is_blank (String.◌∷◌ c s) = is_space (code c) && is_blank s

abbrev pub is_empty : String → Bool
is_empty String.[] = true
is_empty (String.◌∷◌ c s) = false

pub trim_start : String → String
unfolding is_space
trim_start String.[] = ""
trim_start (String.◌∷◌ c s) = if is_space (code c) then trim_start s else String.◌∷◌ c s

pub trim_end : String → String
unfolding is_space
trim_end String.[] = ""
trim_end (String.◌∷◌ c s) =
    let rest = trim_end s in if is_empty rest && is_space (code c) then "" else String.◌∷◌ c rest

-- `trim`
unfoldable pub trim : String → String
unfolding trim_start trim_end
trim s = trim_end (trim_start s)

-- `length`: a character beyond the basic plane takes two units.
unfoldable pub text_length : String → ℕ
text_length String.[] = 0
text_length (String.◌∷◌ c s) = (if leb 0x10000 (code c) then 2 else 1) + text_length s

-- `s?.trim() || null`
unfoldable pub trimmed : Option String → Option String
unfolding trim
trimmed none = none
trimmed (some s) = if is_empty (trim s) then none else some (trim s)
