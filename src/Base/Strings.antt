-- ===== src/Base/Strings.antt =====
-- The methods of Python's `str` that the modules call, on ASCII letters.
use Prim.Native.Char.{Char, code}
use Prim.Native.String.{String}
use mathlib.Core.Bool.{Bool, true, false, ◌&&◌, ◌||◌}
use community_aws.Base.Tests.{eqb, if◌then◌else◌}

-- the character of the second text at the place of `c` in the first
abbrev pick : Char → String → String → Char
pick c (String.◌∷◌ x xs) (String.◌∷◌ y ys) = if eqb (code c) (code x) then y else pick c xs ys
pick c String.[] _ = c
pick c (String.◌∷◌ x xs) String.[] = c

-- `s.upper()`
unfoldable pub upper : String → String
upper String.[] = String.[]
upper (String.◌∷◌ c s) =
    String.◌∷◌ (pick c "abcdefghijklmnopqrstuvwxyz" "ABCDEFGHIJKLMNOPQRSTUVWXYZ") (upper s)

-- `s.lower()`
unfoldable pub lower : String → String
lower String.[] = String.[]
lower (String.◌∷◌ c s) =
    String.◌∷◌ (pick c "ABCDEFGHIJKLMNOPQRSTUVWXYZ" "abcdefghijklmnopqrstuvwxyz") (lower s)

-- `t.startswith(s)`
abbrev pub starts_with : String → String → Bool
starts_with String.[] t = true
starts_with (String.◌∷◌ c s) String.[] = false
starts_with (String.◌∷◌ c s) (String.◌∷◌ e t) = eqb (code c) (code e) && starts_with s t

-- `s in t`, for two texts
abbrev pub is_within : String → String → Bool
is_within s String.[] = starts_with s String.[]
is_within s (String.◌∷◌ c t) = starts_with s (String.◌∷◌ c t) || is_within s t
