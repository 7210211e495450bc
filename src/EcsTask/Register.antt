-- ===== src/EcsTask/Register.antt =====
-- The conversions in front of a registration: the loops of `EcsTaskManager.register_task` over the
-- containers, the loop of `main` over their environments, and the keywords of the call. A port mapping
-- and a variable of the environment are dictionaries; any other value of theirs is a TypeError here.
use community_aws.Base.{
  String, Bool, ◌&&◌, not, Option, none, some, List, [], ◌∷◌, if◌then◌else◌, ◌==◌, string_eq,
  nat_eq, bool_eq, option_eq, key_error, value_error, type_error, fail_json, Result, ok, err, ◌>>=◌,
}
use community_aws.Base.Int.{ℤ}
use community_aws.EcsTask.Values.{
  Value, null, boolean, number, text, list, dict, Items, nil, cons, Fields, end, field, lookup,
  of_bool, equal,
}

-- what the module asks of Python and of Ansible: `int` on a text, `to_text`, and
-- `module.botocore_at_least`
pub record Host : Type 0 where
  pub parse_int : String → Option ℤ
  pub to_text : Value → String
  pub botocore_at_least : String → Bool

-- the keywords of `register_task_definition`; none for one that is not passed
pub record Registration : Type 0 where
  pub family : String
  pub task_role_arn : String
  pub container_definitions : List Fields
  pub volumes : List Fields
  pub network_mode : Option String
  pub cpu : Option String
  pub memory : Option String
  pub launch_type : Option String
  pub execution_role_arn : Option String

-- `d[k] = v` for a key that is there
unfoldable pub set_field : String → Value → Fields → Fields
set_field k v end = end
set_field k v (field j u d) = if j == k then field j v d else field j u (set_field k v d)

-- a text that is not empty: `if cpu`
abbrev pub non_empty : Option String → Option String
non_empty none = none
non_empty (some String.[]) = none
non_empty (some (String.◌∷◌ c s)) = some (String.◌∷◌ c s)

-- `for v in values`, for a loop that changes each dictionary in place
unfoldable pub each_dict : (Fields → Result Fields) → Items → Result Items
each_dict step nil = ok nil
each_dict step (cons (dict d) l) =
    step d >>= λ d'. each_dict step l >>= λ l'. ok (cons (dict d') l')
each_dict step (cons v l) = err type_error

-- the same over the value of a key
unfoldable pub each_in : String → (Fields → Result Fields) → Fields → Result Fields
unfolding lookup set_field each_dict
each_in k step d = elim (lookup k d) [
  | none ↦ ok d
  | some (list l) ↦ each_dict step l >>= λ l'. ok (set_field k (list l') d)
  | some (dict end) ↦ ok d
  | some (text String.[]) ↦ ok d
  | some v ↦ err type_error
]

unfoldable pub each_container : (Fields → Result Fields) → List Fields → Result (List Fields)
each_container step [] = ok []
each_container step (d ∷ l) = step d >>= λ d'. each_container step l >>= λ l'. ok (d' ∷ l')

module _ (h : Host) where
  -- `int(v)`
  abbrev pub int_of : Value → Result Value
  int_of (number n) = ok (number n)
  int_of (boolean b) = ok (number (of_bool b))
  int_of (text s) = elim (h.parse_int s) [ none ↦ err value_error | some n ↦ ok (number n) ]
  int_of _ = err type_error

  -- `if k in d: d[k] = int(d[k])`
  unfoldable pub int_at : String → Fields → Result Fields
  unfolding lookup set_field
  int_at k d = elim (lookup k d) [ none ↦ ok d | some v ↦ int_of v >>= λ n. ok (set_field k n d) ]

  -- a round of the loop over `portMappings`
  unfoldable pub port_mapping : String → Fields → Result Fields
  unfolding int_at
  port_mapping network_mode d = int_at "hostPort" d >>= int_at "containerPort" >>= λ d'.
      elim (lookup "hostPort" d') [
        | none ↦ ok d'
        | some v ↦
            if (network_mode == "awsvpc")
              && not (equal v (elim (lookup "containerPort" d') [ none ↦ null | some u ↦ u ]))
            then err (
                fail_json
                  "In awsvpc network mode, host port must be set to the same as container port or not be set")
            else ok d'
      ]

  -- a round of the loop over the containers
  unfoldable pub container : String → Fields → Result Fields
  unfolding int_at each_in port_mapping
  container network_mode d =
      int_at "memory" d
      >>= int_at "cpu"
      >>= int_at "memoryReservation"
      >>= each_in "portMappings" (port_mapping network_mode)

  unfoldable pub validated_containers : String → List Fields → Result (List Fields)
  unfolding each_container container
  validated_containers network_mode l = each_container (container network_mode) l

  -- `environment['value'] = to_text(environment['value'])`
  unfoldable pub environment_text : Fields → Result Fields
  unfolding lookup set_field
  environment_text d = elim (lookup "value" d) [
    | none ↦ err (key_error "value")
    | some v ↦ ok (set_field "value" (text (h.to_text v)) d)
  ]

  -- the loop of `main` over the containers
  unfoldable pub with_environment : List Fields → Result (List Fields)
  unfolding each_container each_in environment_text
  with_environment l = each_container (each_in "environment" environment_text) l
