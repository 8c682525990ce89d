-- ===== src/Prelude/Text.antt =====
-- C strings as lists of bytes without the closing zero, and the functions of <string.h> that the
-- program calls on them.
pub mod Laws
use Prim.Native.Char.{code}
use Prim.Native.String.{String}
use Prim.Native.Nat.{ℕ, ◌+◌}
use mathlib.Core.Bool.{Bool, true, false, ◌&&◌, ◌||◌}
use mathlib.Core.List.{List, [], ◌∷◌, map}
use wind_breaker.Prelude.Tests.{leb, ◌==◌, if◌then◌else◌}

-- The bytes of a literal.
abbrev pub codes : String → List ℕ
codes String.[] = []
codes (String.◌∷◌ c s) = code c ∷ codes s

-- `strcmp(a, b) == 0`.
unfoldable pub str_eq : List ℕ → List ℕ → Bool
str_eq [] [] = true
str_eq [] (b ∷ t) = false
str_eq (a ∷ s) [] = false
str_eq (a ∷ s) (b ∷ t) = a == b && str_eq s t

-- `strncmp(s, prefix, strlen(prefix)) == 0`.
unfoldable pub starts_with : List ℕ → List ℕ → Bool
starts_with [] s = true
starts_with (p ∷ prefix) [] = false
starts_with (p ∷ prefix) (c ∷ s) = p == c && starts_with prefix s

-- `strstr(s, needle) != NULL`.
unfoldable pub contains : List ℕ → List ℕ → Bool
unfolding starts_with
contains needle [] = starts_with needle []
contains needle (c ∷ s) = starts_with needle (c ∷ s) || contains needle s

-- `tolower` in the C locale.
unfoldable pub to_lower : ℕ → ℕ
to_lower c = if leb b'A' c && leb c b'Z' then c + 32 else c

-- `strcasecmp(a, b) == 0`.
unfoldable pub eq_nocase : List ℕ → List ℕ → Bool
unfolding str_eq to_lower
eq_nocase a b = str_eq (map to_lower a) (map to_lower b)

-- `strncasecmp(s, prefix, strlen(prefix)) == 0`.
unfoldable pub starts_with_nocase : List ℕ → List ℕ → Bool
unfolding starts_with to_lower
starts_with_nocase prefix s = starts_with (map to_lower prefix) (map to_lower s)

-- `strcasestr(s, needle) != NULL`.
unfoldable pub contains_nocase : List ℕ → List ℕ → Bool
unfolding contains to_lower
contains_nocase needle s = contains (map to_lower needle) (map to_lower s)
