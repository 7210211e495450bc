-- ===== src/ParameterGroup/Main.antt =====
-- `create`, `delete`, `modify`, `reset` and `main`. A run ends with the `changed` that is reported;
-- the response is left out, but for whether the group was there.
pub mod Laws
use community_aws.Base.{
  is_empty, ℕ, zero, suc, ◌+◌, ◌-◌, ◌*◌, ◌≤◌, ◌<◌, String, ◌≡◌, refl, sym, ap, ◌∙◌, ◌≢◌, ◌↔◌, ◌⊎◌,
  inl, inr, Bool, true, false, ◌&&◌, ◌||◌, not, Option, none, some, List, [], ◌∷◌, ◌++◌, map, arith,
  ℕ_discrete, ltb, leb, eqb, if◌then◌else◌, Bool-cases, Sum-cases, Option-cases, eqb_iff, length,
  take, drop, filter, any, all, All, filter-filter, filter-append, contains, contains-append,
  contains-filter, length-append, length-take, length-drop, take-append-drop, Eq, ◌==◌, ==_iff,
  ==_refl, ==_false, String-discrete, string_eq, nat_eq, bool_eq, option_eq, Option-discrete, upper,
  lower, lower, Error, key_error, value_error, type_error, index_error, unbound_local_error,
  fail_json, client_error, Result, ok, err, or_raise, raise_if, >>=-eq-ok, for_each, Result-cases,
  ok_pair, ok_inj, some_ok_pair,
}
use community_aws.Base.Run.{lift, Run, Outcome, done, raised, return_, raise, look, ◌>>=◌, ◌>>◌}
use community_aws.ParameterGroup.Client.{Value, Parameter, NameValue, Service}
use community_aws.ParameterGroup.Values.{
  Dict, modifiable_params, check_valid_modification, check_changed_parameter_values,
  format_parameters,
}

pub data State : Type 0 where
  present absent reset_ : State

-- An empty text or dictionary counts as a missing one.
pub record Params : Type 0 where
  pub group_family : String
  pub description : String
  pub state : State
  pub values : List (String × Value)

module _ (s : Service) where
  -- a call, with the text of the failure
  abbrev pub call : (s.World → s.World ⊎ String) → String → Run s.World (Unit {0})
  call f failure w = elim (f w) [ inl w' ↦ done (tt, w') | inr m ↦ raised (fail_json failure) ]

  -- none after a ClientError
  unfoldable pub get_info : Run s.World (Option (List Parameter))
  get_info = look (λ w. elim (s.describe_cache_parameters w) [ inl l ↦ some l | inr m ↦ none ])

  unfoldable pub make_current_modifiable_param_dict : Run s.World Dict
  unfolding get_info
  make_current_modifiable_param_dict = get_info >>= λ current_info. elim current_info [
    | none ↦ raise (fail_json "Could not connect to the cache parameter group.")
    | some parameters ↦ return_ (modifiable_params parameters [])
  ]

  unfoldable pub create : Params → Run s.World Bool
  create p =
      call (s.create_cache_parameter_group p.group_family p.description)
        "Unable to create cache parameter group."
      >> return_ true

  unfoldable pub delete : Run s.World Bool
  delete =
      call s.delete_cache_parameter_group "Unable to delete cache parameter group." >> return_ true

  unfoldable pub modify : List (String × Value) → Run s.World (Unit {0})
  modify values =
      call (s.modify_cache_parameter_group (format_parameters s values))
        "Unable to modify cache parameter group."

  -- the values, checked and set: its `changed` replaces the one before
  unfoldable pub set_values : List (String × Value) → Run s.World Bool
  unfolding make_current_modifiable_param_dict modify
  set_values values = make_current_modifiable_param_dict >>= λ d.
      lift (check_valid_modification s values d) >>= λ changed. modify values >> return_ changed

  unfoldable pub reset : List (String × Value) → Run s.World Bool
  unfolding make_current_modifiable_param_dict
  reset values = make_current_modifiable_param_dict >>= λ old.
      call (s.reset_cache_parameter_group (format_parameters s values) (is_empty values))
        "Unable to reset cache parameter group."
      >> make_current_modifiable_param_dict
      >>= λ new. lift (check_changed_parameter_values values old new)

  -- the state `present`, where the group was there or not
  unfoldable pub ensure_present : Params → Bool → Run s.World Bool
  unfolding create set_values
  ensure_present p exists =
      if exists
      then (if is_empty p.values then return_ false else set_values p.values)
      else create p >>= λ created.
          if is_empty p.values then return_ created else set_values p.values

  unfoldable pub take_action : Params → State → Bool → Run s.World Bool
  unfolding ensure_present delete reset
  take_action p present exists =
      if not exists && (p.group_family == "")
      then raise (fail_json "Creating a group requires a family group.")
      else ensure_present p exists
  take_action p absent exists = if exists then delete else return_ false
  take_action p reset_ exists =
      if not exists then raise (fail_json "No group to reset.") else reset p.values

  abbrev pub is_there : Option (List Parameter) → Bool
  is_there none = false
  is_there (some l) = true

  unfoldable pub main : Params → Run s.World Bool
  unfolding get_info take_action
  main p = get_info >>= λ info. take_action p p.state (is_there info)
