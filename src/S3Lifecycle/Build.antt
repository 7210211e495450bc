-- ===== src/S3Lifecycle/Build.antt =====
-- The first half of `create_lifecycle_rule`: the rule that the parameters ask for.
use community_aws.Base.{
  String, Bool, Option, none, some, List, [], ◌∷◌, ◌++◌, upper, if◌then◌else◌, Result, ok, err,
  key_error, ◌>>=◌,
}
use community_aws.Base.Int.{ℤ}
use community_aws.S3Lifecycle.Rule.{
  text, Expiration, NoncurrentExpiration, Transition, NoncurrentTransition, Rule, is_zero,
}

-- the choices of the parameter `status`
pub data Status : Type 0 where
  enabled disabled : Status

-- `status.title()`
abbrev pub title : Status → String
title Status.enabled = "Enabled"
title Status.disabled = "Disabled"

-- an element of the parameter `transitions`
pub record TransitionParam : Type 0 where
  pub transition_date : Option String
  pub transition_days : Option ℤ
  pub storage_class : Option String

-- an element of the parameter `noncurrent_version_transitions`
pub record NoncurrentParam : Type 0 where
  pub transition_days : Option ℤ
  pub storage_class : Option String

pub record Params : Type 0 where
  pub expiration_date : Option String
  pub expiration_days : Option ℤ
  pub noncurrent_version_expiration_days : Option ℤ
  pub noncurrent_version_transition_days : Option ℤ
  pub noncurrent_version_transitions : Option (List NoncurrentParam)
  pub noncurrent_version_storage_class : String
  pub prefix : Option String
  pub rule_id : Option String
  pub status : Status
  pub storage_class : String
  pub transition_date : Option String
  pub transition_days : Option ℤ
  pub transitions : Option (List TransitionParam)
  pub purge_transitions : Bool

abbrev pub or_empty {ℓ} : {A : Type ℓ} → Option (List A) → List A
or_empty none = []
or_empty (some l) = l

-- `module.params.get("prefix") or ""`
abbrev pub prefix_param : Params → String
prefix_param p = elim p.prefix [ none ↦ "" | some s ↦ s ]

build_expiration : Params → Option Expiration
build_expiration p = elim p.expiration_days [
  | some n ↦ some (record { days = some n; date = none; rest = [] })
  | none ↦ elim p.expiration_date [
    | some d ↦ some (record { days = none; date = some (text d); rest = [] })
    | none ↦ none
  ]
]

-- the keys of one `t_out`, before the storage class: a zero or an empty text counts as missing
transition_date_of : TransitionParam → Option String
transition_date_of t = elim t.transition_date [ some String.[] ↦ none | other ↦ other ]

transition_days_of : TransitionParam → Option ℤ
transition_days_of t = elim t.transition_days [
  | none ↦ none
  | some n ↦ if is_zero n then none else some n
]

-- an element with no storage class is dropped
transition_out : TransitionParam → List Transition
unfolding transition_date_of transition_days_of
transition_out t = elim t.storage_class [
  | none ↦ []
  | some String.[] ↦ []
  | some (String.◌∷◌ c s) ↦ elim (transition_date_of t) [
    | some d ↦
        record { days = none; date = some (text d); storage_class = upper (String.◌∷◌ c s) } ∷ []
    | none ↦
        record { days = transition_days_of t; date = none; storage_class = upper (String.◌∷◌ c s) }
        ∷ []
  ]
]

transitions_out : List TransitionParam → List Transition
unfolding transition_out
transitions_out [] = []
transitions_out (t ∷ ts) = transition_out t ++ transitions_out ts

single_transition : Params → Option (List Transition)
single_transition p = elim p.transition_days [
  | some n ↦
      some (record { days = some n; date = none; storage_class = upper p.storage_class } ∷ [])
  | none ↦ elim p.transition_date [
    | some d ↦
        some
          (record { days = none; date = some (text d); storage_class = upper p.storage_class } ∷ [])
    | none ↦ none
  ]
]

build_transitions : Params → Option (List Transition)
unfolding single_transition transitions_out
build_transitions p = elim p.transitions [
  | none ↦ single_transition p
  | some ts ↦ some (or_empty (single_transition p) ++ transitions_out ts)
]

-- `noncurrent_version_transition['transition_days']` raises a KeyError where it is missing
noncurrent_out : List NoncurrentParam → Result (List NoncurrentTransition)
noncurrent_out [] = ok []
noncurrent_out (t ∷ ts) = elim t.transition_days [
  | none ↦ err (key_error "transition_days")
  | some n ↦ noncurrent_out ts >>= λ rest. elim t.storage_class [
    | none ↦ ok rest
    | some String.[] ↦ ok rest
    | some (String.◌∷◌ c s) ↦
        ok (record { noncurrent_days = some n; storage_class = upper (String.◌∷◌ c s) } ∷ rest)
  ]
]

single_noncurrent : Params → Option (List NoncurrentTransition)
single_noncurrent p = elim p.noncurrent_version_transition_days [
  | none ↦ none
  | some n ↦ some (
      record { noncurrent_days = some n; storage_class = upper p.noncurrent_version_storage_class }
      ∷ [])
]

build_noncurrent : Params → Result (Option (List NoncurrentTransition))
unfolding single_noncurrent noncurrent_out
build_noncurrent p = elim p.noncurrent_version_transitions [
  | none ↦ ok (single_noncurrent p)
  | some ts ↦ noncurrent_out ts >>= λ l. ok (some (or_empty (single_noncurrent p) ++ l))
]

build_noncurrent_expiration : Params → Option NoncurrentExpiration
build_noncurrent_expiration p = elim p.noncurrent_version_expiration_days [
  | none ↦ none
  | some n ↦ some (record { noncurrent_days = some n; rest = [] })
]

unfoldable pub build_rule : Params → Result Rule
unfolding build_expiration build_transitions build_noncurrent build_noncurrent_expiration
build_rule p = build_noncurrent p >>= λ noncurrent. ok (record {
  id = p.rule_id;
  filter = some (record { prefix = some (prefix_param p); rest = [] });
  status = title p.status;
  expiration = build_expiration p;
  noncurrent_expiration = build_noncurrent_expiration p;
  transitions = build_transitions p;
  noncurrent_transitions = noncurrent;
  rest = [];
})
