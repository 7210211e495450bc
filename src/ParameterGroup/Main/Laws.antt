-- ===== src/ParameterGroup/Main/Laws.antt =====
-- What a run reports that creates a group.
use community_aws.Base.{
  is_empty, String, ◌≡◌, refl, sym, inl, inr, Bool, false, List, [], ◌==◌, string_eq, nat_eq,
  bool_eq, option_eq, ok,
}
use community_aws.Base.Run.{done, ◌>>=◌}
use community_aws.ParameterGroup.Client.{Parameter, Service}
use community_aws.ParameterGroup.Values.{
  modifiable_params, check_valid_modification, format_parameters,
}
use mathlib.Core.Path.{subst}
use community_aws.ParameterGroup.Main.{
  present, Params, get_info, make_current_modifiable_param_dict, create, modify, set_values,
  ensure_present, take_action, main,
}

module _ (s : Service) (p : Params) (l : List Parameter) (changed : Bool) (w w' w'' : s.World) where
  set_values_lem :
      s.describe_cache_parameters w' ≡ inl l
      → check_valid_modification s p.values (modifiable_params l []) ≡ ok changed
      → s.modify_cache_parameter_group (format_parameters s p.values) w' ≡ inl w''
      → set_values s p.values w' ≡ done (changed, w'')
  unfolding set_values make_current_modifiable_param_dict get_info modify
  set_values_lem described checked modified = rw (described, ◌>>=◌, checked, modified) refl

  -- A run for the state `present` that creates the group, and then sets values, reports what the check
  -- of the values says, and not that the group was created: no change, where a new group has the
  -- values already.
  main-hides_create :
      (missing : String)
      → p.state ≡ present
      → (p.group_family == "") ≡ false
      → is_empty p.values ≡ false
      → s.describe_cache_parameters w ≡ inr missing
      → s.create_cache_parameter_group p.group_family p.description w ≡ inl w'
      → s.describe_cache_parameters w' ≡ inl l
      → check_valid_modification s p.values (modifiable_params l []) ≡ ok changed
      → s.modify_cache_parameter_group (format_parameters s p.values) w' ≡ inl w''
      → main s p w ≡ done (changed, w'')
  unfolding main get_info take_action ensure_present create
  main-hides_create missing is_present family some_values gone created described checked modified =
      let acted : take_action s p present false w ≡ done (changed, w'') =
        rw (family, created, ◌>>=◌, some_values) (set_values_lem described checked modified) in
      rw (gone, ◌>>=◌)
        (subst (λ state. take_action s p state false w ≡ done (changed, w'')) (sym is_present)
          acted)
