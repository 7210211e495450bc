-- ===== src/S3Lifecycle/Rule.antt =====
-- The dictionaries of s3_lifecycle.py. A key that may be missing is an Option; `rest` holds the
-- keys that the module never reads (they count when two dictionaries are compared). In a
-- transition StorageClass is not optional: S3 returns it in each one, and the module writes it.
use community_aws.Base.{
  ℕ, String, Bool, true, false, ◌&&◌, not, Option, none, some, List, ℕ_discrete, Eq,
  String-discrete, string_eq, nat_eq, bool_eq, option_eq,
}
use community_aws.Base.Int.{ℤ, pos}

-- A date is the text of a parameter, or the datetime that boto3 returns.
pub data Date : Type 0 where
  text : String → Date
  datetime : ℕ → Date

pub record Filter : Type 0 where
  pub prefix : Option String
  pub rest : List (String × String)

pub record Expiration : Type 0 where
  pub days : Option ℤ
  pub date : Option Date
  pub rest : List (String × String)

pub record NoncurrentExpiration : Type 0 where
  pub noncurrent_days : Option ℤ
  pub rest : List (String × String)

pub record Transition : Type 0 where
  pub days : Option ℤ
  pub date : Option Date
  pub storage_class : String

pub record NoncurrentTransition : Type 0 where
  pub noncurrent_days : Option ℤ
  pub storage_class : String

pub record Rule : Type 0 where
  pub id : Option String
  pub filter : Option Filter
  pub status : String
  pub expiration : Option Expiration
  pub noncurrent_expiration : Option NoncurrentExpiration
  pub transitions : Option (List Transition)
  pub noncurrent_transitions : Option (List NoncurrentTransition)
  pub rest : List (String × String)

unfoldable pub Transition-discrete : Discrete Transition
unfolding String-discrete ℕ_discrete
Transition-discrete = hlevel (String-discrete, ℕ_discrete)

unfoldable pub NoncurrentTransition-discrete : Discrete NoncurrentTransition
unfolding String-discrete ℕ_discrete
NoncurrentTransition-discrete = hlevel (String-discrete, ℕ_discrete)

unfoldable pub Rule-discrete : Discrete Rule
unfolding String-discrete ℕ_discrete
Rule-discrete = hlevel (String-discrete, ℕ_discrete)

instance abbrev pub transition_eq : Eq Transition
transition_eq = record { decides = Transition-discrete }

instance abbrev pub noncurrent_transition_eq : Eq NoncurrentTransition
noncurrent_transition_eq = record { decides = NoncurrentTransition-discrete }

instance abbrev pub rule_eq : Eq Rule
rule_eq = record { decides = Rule-discrete }

-- `not rule.get('Transitions')`, and the other truth tests of a key that may be missing
abbrev pub no_items {ℓ} : {A : Type ℓ} → Option (List A) → Bool
no_items none = true
no_items (some List.[]) = true
no_items (some (List.◌∷◌ _ _)) = false

abbrev pub is_none {ℓ} : {A : Type ℓ} → Option A → Bool
is_none none = true
is_none (some _) = false

abbrev pub is_zero : ℤ → Bool
is_zero (pos ℕ.zero) = true
is_zero _ = false

-- `f.get('Prefix', '')`, for a filter that is {} if missing
abbrev pub filter_prefix_or : Option Filter → String
filter_prefix_or none = ""
filter_prefix_or (some f) = elim f.prefix [ none ↦ "" | some p ↦ p ]

-- `existing_rule.get('Filter', {}).get('Prefix', '')`
abbrev pub prefix_of : Rule → String
prefix_of r = filter_prefix_or r.filter

-- the truth of a dictionary: it has a key
abbrev pub has_expiration : Option Expiration → Bool
has_expiration none = false
has_expiration (some e) = not (is_none e.days && is_none e.date && no_items (some e.rest))

abbrev pub has_noncurrent_expiration : Option NoncurrentExpiration → Bool
has_noncurrent_expiration none = false
has_noncurrent_expiration (some e) = not (is_none e.noncurrent_days && no_items (some e.rest))
