-- ===== src/S3Notification/Config.antt =====
-- The class `Config`: one notification of a bucket, and the one that the parameters ask for.
use community_aws.Base.{
  ℕ, zero, suc, ◌+◌, String, Bool, true, false, Option, none, some, List, [], ◌∷◌, ltb, eqb,
  if◌then◌else◌, Eq, String-discrete, string_eq, nat_eq, bool_eq, option_eq,
}
use community_aws.Base.Int.{ℤ, pos}
use Prim.Native.Nat.{◌/◌, ◌%◌}
use Prim.Native.Char.{code}

-- The dictionary `raw`. Its key Filter is the list of the FilterRules, names and values; `rest`
-- holds the keys that the module never writes (they count when two dictionaries are compared).
pub record Config : Type 0 where
  pub id : String
  pub lambda_function_arn : Option String
  pub events : List String
  pub filter_rules : Option (List (String × String))
  pub rest : List (String × String)

unfoldable pub Config-discrete : Discrete Config
unfolding String-discrete
Config-discrete = hlevel String-discrete

instance abbrev pub config_eq : Eq Config
config_eq = record { decides = Config-discrete }

pub record Params : Type 0 where
  pub event_name : String
  pub lambda_function_arn : Option String
  pub events : List String
  pub prefix : String
  pub suffix : String
  pub lambda_alias : Option String
  pub lambda_version : ℤ

abbrev pub joined : String → String → String
joined String.[] t = t
joined (String.◌∷◌ c s) t = String.◌∷◌ c (joined s t)

-- the digit at a place of a text of digits
digit_in : ℕ → String → String
digit_in n String.[] = ""
digit_in zero (String.◌∷◌ c s) = String.◌∷◌ c ""
digit_in (suc n) (String.◌∷◌ c s) = digit_in n s

-- `str(n)` for a number of at most `fuel` digits, in front of the digits that follow
decimal : ℕ → ℕ → String → String
unfolding digit_in
decimal zero n after = after
decimal (suc fuel) n after =
    let shown = joined (digit_in (n % 10) "0123456789") after in
    let rest = decimal fuel (n / 10) shown in if ltb n 10 then shown else rest

-- a number has no more digits than it counts, and one for zero
unfoldable pub str_nat : ℕ → String
unfolding decimal
str_nat n = decimal (n + 1) n ""

-- the order of texts by code points
text_leb : String → String → Bool
text_leb String.[] t = true
text_leb (String.◌∷◌ c s) String.[] = false
text_leb (String.◌∷◌ c s) (String.◌∷◌ d t) =
    let rest = text_leb s t in if eqb (code c) (code d) then rest else ltb (code c) (code d)

insert : String → List String → List String
unfolding text_leb
insert x [] = x ∷ []
insert x (y ∷ l) = if text_leb x y then x ∷ y ∷ l else y ∷ insert x l

-- `sorted(l)`
unfoldable pub sorted : List String → List String
unfolding insert
sorted [] = []
sorted (x ∷ l) = insert x (sorted l)

-- the variable `qualifier`, where an empty text counts as none
unfoldable pub qualifier : Params → Option String
unfolding str_nat
qualifier p = elim p.lambda_version [
  | pos (suc n) ↦ some (str_nat (suc n))
  | other ↦ elim p.lambda_alias [
    | none ↦ none
    | some String.[] ↦ none
    | some (String.◌∷◌ c s) ↦ some (String.◌∷◌ c s)
  ]
]

-- how `format` shows a text, or None
abbrev pub format : Option String → String
format none = "None"
format (some s) = s

unfoldable pub from_params : Params → Config
unfolding qualifier sorted
from_params p = record {
  id = p.event_name;
  lambda_function_arn = elim (qualifier p) [
    | some q ↦ some (joined (format p.lambda_function_arn) (joined ":" q))
    | none ↦ p.lambda_function_arn
  ];
  events = sorted p.events;
  filter_rules = some (("Prefix", p.prefix) ∷ ("Suffix", p.suffix) ∷ []);
  rest = [];
}
