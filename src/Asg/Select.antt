-- ===== src/Asg/Select.antt =====
-- `get_instances_by_launch_config`, `get_instances_by_launch_template` and
-- `list_purgeable_instances`. An instance without facts raises a KeyError.
pub mod Laws
use community_aws.Base.{
  ℕ, zero, suc, ◌+◌, ◌-◌, ◌*◌, ◌≤◌, ◌<◌, String, ◌≡◌, refl, sym, ap, ◌∙◌, ◌≢◌, ◌↔◌, ◌⊎◌, inl, inr,
  Bool, true, false, ◌&&◌, ◌||◌, not, Option, none, some, List, [], ◌∷◌, ◌++◌, map, arith,
  ℕ_discrete, ltb, leb, eqb, if◌then◌else◌, Bool-cases, Sum-cases, Option-cases, eqb_iff, length,
  take, drop, filter, any, all, All, filter-filter, filter-append, contains, contains-append,
  contains-filter, length-append, length-take, length-drop, take-append-drop, Eq, ◌==◌, ==_iff,
  ==_refl, ==_false, String-discrete, string_eq, nat_eq, bool_eq, option_eq, Option-discrete, upper,
  Error, key_error, value_error, type_error, index_error, unbound_local_error, fail_json,
  client_error, Result, ok, err, ◌>>=◌, ◌>>◌, or_raise, raise_if, >>=-eq-ok, for_each, Result-cases,
  ok_pair,
}
use community_aws.Asg.Properties.{Template, template_eq, Facts, Props, get_facts}

-- the pair (new_instances, old_instances), in the order of the lists
abbrev pub Split : Type 0
Split = List String × List String

abbrev pub is_some {ℓ} : {A : Type ℓ} → Option A → Bool
is_some none = false
is_some (some _) = true

-- `props['instance_facts'][i]`
abbrev pub facts_at : Props → String → Result Facts
facts_at props i = or_raise (key_error i) (get_facts i props.instance_facts)

-- One instance against the launch configuration of the group; it is read only where the instance
-- has no launch template.
unfoldable pub is_new_by_config : Props → String → Result Bool
is_new_by_config props i = facts_at props i >>= λ f.
    if is_some f.launch_template
    then ok false
    else or_raise (key_error "launch_config_name") props.launch_config_name >>= λ name.
        ok (f.launch_config_name == some name)

-- `props['launch_template']`: the key is there if the group has no launch configuration
abbrev pub template_key : Props → Option (Option Template)
template_key p = elim p.launch_config_name [ some _ ↦ none | none ↦ some p.launch_template ]

unfoldable pub is_new_by_template : Props → String → Result Bool
is_new_by_template props i = facts_at props i >>= λ f.
    if is_some f.launch_config_name
    then ok false
    else or_raise (key_error "launch_template") (template_key props) >>= λ t.
        ok (f.launch_template == t)

-- with the check off, an instance is new if it was not there at the start
abbrev pub is_new_since : List String → String → Result Bool
is_new_since initial i = ok (not (contains i initial))

-- the loops: each instance goes to the end of one of the two lists
unfoldable pub split_by : (String → Result Bool) → List String → Split → Result Split
split_by is_new [] s = ok s
split_by is_new (i ∷ l) (new, old) =
    is_new i >>= λ b. split_by is_new l (if b then (new ++ i ∷ [], old) else (new, old ++ i ∷ []))

unfoldable pub get_instances_by_launch_config : Props → Bool → List String → Result Split
get_instances_by_launch_config props lc_check initial_instances =
    split_by (if lc_check then is_new_by_config props else is_new_since initial_instances)
      props.instances ([], [])

unfoldable pub get_instances_by_launch_template : Props → Bool → List String → Result Split
get_instances_by_launch_template props lt_check initial_instances =
    split_by (if lt_check then is_new_by_template props else is_new_since initial_instances)
      props.instances ([], [])

-- the tests of `list_purgeable_instances`, which index where the functions above use `get`
unfoldable pub is_purgeable_by_config : Props → String → Result Bool
is_purgeable_by_config props i = facts_at props i >>= λ f.
    if is_some f.launch_template
    then ok true
    else or_raise (key_error "launch_config_name") f.launch_config_name >>= λ own.
        or_raise (key_error "launch_config_name") props.launch_config_name >>= λ name.
        ok (not (own == name))

unfoldable pub is_purgeable_by_template : Props → String → Result Bool
is_purgeable_by_template props i = facts_at props i >>= λ f.
    if is_some f.launch_config_name
    then ok true
    else or_raise (key_error "launch_template") f.launch_template >>= λ own.
        or_raise (key_error "launch_template") (template_key props) >>= λ t.
        ok (not (some own == t))

-- the loops that append to `instances_to_terminate`
unfoldable pub collect : (String → Result Bool) → List String → Result (List String)
collect test [] = ok []
collect test (i ∷ l) = test i >>= λ b. collect test l >>= λ rest. ok (if b then i ∷ rest else rest)

-- Which of the names `launch_config_name` and `launch_template` are keys of `module.params`.
pub record ParamKeys : Type 0 where
  pub launch_config_name : Bool
  pub launch_template : Bool

abbrev pub was_there : List String → String → Result Bool
was_there initial i = ok (contains i initial)

unfoldable pub list_purgeable_instances :
    ParamKeys → Props → Bool → Bool → List String → List String → Result (List String)
list_purgeable_instances keys props lc_check lt_check replace_instances initial_instances =
    let instances = filter (λ i. contains i props.instances) replace_instances in
    if keys.launch_config_name
    then collect (if lc_check then is_purgeable_by_config props else was_there initial_instances)
        instances
    else if keys.launch_template
    then collect (if lt_check then is_purgeable_by_template props else was_there initial_instances)
        instances
    else ok []
