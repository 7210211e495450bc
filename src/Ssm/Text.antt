-- ===== src/Ssm/Text.antt =====
-- The methods of `str` that the connection calls, on texts as lists of code points.
use community_aws.Base.{
  ℕ, zero, suc, ◌+◌, ◌-◌, ◌*◌, String, Bool, true, false, ◌&&◌, ◌||◌, Option, none, some, List, [],
  ◌∷◌, leb, eqb, if◌then◌else◌, string_eq, nat_eq, bool_eq, option_eq,
}
use Prim.Native.Char.{code}
use mathlib.Core.Option
use community_aws.Base.Int.{ℤ, pos, negsuc}

abbrev pub Text : Type 0
Text = List ℕ

abbrev pub codes : String → Text
codes String.[] = []
codes (String.◌∷◌ c s) = code c ∷ codes s

-- the characters at which `splitlines` breaks a line
unfoldable pub is_break : ℕ → Bool
is_break c = leb 10 c && leb c 13 || leb 28 c && leb c 30 || eqb c 133 || eqb c 8232 || eqb c 8233

abbrev pub starts_newline : Text → Bool
starts_newline [] = false
starts_newline (c ∷ _) = eqb c 10

-- `c` in front of the first line
abbrev pub attach : ℕ → List Text → List Text
attach c [] = (c ∷ []) ∷ []
attach c (l ∷ ls) = (c ∷ l) ∷ ls

-- `s.splitlines()`: a carriage return right before a newline breaks no line of its own
unfoldable pub splitlines : Text → List Text
splitlines [] = []
splitlines (c ∷ s) =
    let rest = splitlines s in
    if eqb c 13 && starts_newline s then rest else if is_break c then [] ∷ rest else attach c rest

-- `l[-2]`
unfoldable pub second_last {ℓ} : {A : Type ℓ} → List A → Option A
second_last [] = none
second_last (x ∷ []) = none
second_last (x ∷ y ∷ []) = some x
second_last (x ∷ y ∷ z ∷ l) = second_last (y ∷ z ∷ l)

unfoldable pub starts_with : Text → Text → Bool
starts_with s [] = true
starts_with [] (p ∷ ps) = false
starts_with (c ∷ s) (p ∷ ps) = eqb c p && starts_with s ps

-- `p in s`
unfoldable pub has_text : Text → Text → Bool
has_text p [] = starts_with [] p
has_text p (c ∷ s) = starts_with (c ∷ s) p || has_text p s

-- the text split at the last place where `p` starts, if there is one: `s[:s.rfind(p)]` and
-- `s[s.rfind(p):]`
unfoldable pub split_last : Text → Text → Option (Text × Text)
split_last p [] = if starts_with [] p then some ([], []) else none
split_last p (c ∷ s) = elim (split_last p s) [
  | some (a, b) ↦ some (c ∷ a, b)
  | none ↦ if starts_with (c ∷ s) p then some ([], c ∷ s) else none
]

-- `s[:-1]` and `s[-1:]`
abbrev pub but_last : Text → Text
but_last [] = []
but_last (c ∷ []) = []
but_last (c ∷ d ∷ s) = c ∷ but_last (d ∷ s)

abbrev pub only_last : Text → Text
only_last [] = []
only_last (c ∷ []) = c ∷ []
only_last (c ∷ d ∷ s) = only_last (d ∷ s)

-- `s[:s.rfind(p)]` and `s[s.rfind(p):]`, where `rfind` gives -1 for a text that is not there
unfoldable pub before_last : Text → Text → Text
before_last p s = elim (split_last p s) [ some (a, b) ↦ a | none ↦ but_last s ]

unfoldable pub from_last : Text → Text → Text
from_last p s = elim (split_last p s) [ some (a, b) ↦ b | none ↦ only_last s ]

is_space : ℕ → Bool
is_space c = leb 9 c && leb c 13 || leb 28 c && leb c 32 || eqb c 133 || eqb c 160

is_digit : ℕ → Bool
is_digit c = leb 48 c && leb c 57

-- digits, with single underscores between them, after the value read so far; only spaces follow
all_space : Text → Bool
unfolding is_space
all_space [] = true
all_space (c ∷ s) = is_space c && all_space s

digits_from : ℕ → Bool → Text → Option ℕ
unfolding is_digit all_space
digits_from n after_digit [] = if after_digit then some n else none
digits_from n after_digit (c ∷ s) =
    let next = digits_from (n * 10 + (c - 48)) true s in
    let skip = digits_from n false s in
    if is_digit c
    then next
    else if eqb c 95 && after_digit
    then skip
    else if after_digit && all_space (c ∷ s)
    then some n
    else none

strip_left : Text → Text
unfolding is_space
strip_left [] = []
strip_left (c ∷ s) = let rest = strip_left s in if is_space c then rest else c ∷ s

negate : ℕ → ℤ
negate zero = pos zero
negate (suc n) = negsuc n

-- `int(s)`, for ASCII digits: none stands for a ValueError
unfoldable pub int_of : Text → Option ℤ
unfolding strip_left digits_from negate
int_of s = elim (strip_left s) [
  | [] ↦ none
  | c ∷ r ↦
      if eqb c 45
      then Option.map negate (digits_from 0 false r)
      else if eqb c 43
      then Option.map pos (digits_from 0 false r)
      else Option.map pos (digits_from 0 false (c ∷ r))
]

-- `s.replace('\n', '')`
unfoldable pub remove_newlines : Text → Text
remove_newlines [] = []
remove_newlines (c ∷ s) = if eqb c 10 then remove_newlines s else c ∷ remove_newlines s
