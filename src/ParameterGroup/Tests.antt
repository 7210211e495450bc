-- ===== src/ParameterGroup/Tests.antt =====
-- Runs on a service in memory, and the theorems at them.
use community_aws.Base.{
  String, ◌≡◌, refl, ◌↔◌, inl, inr, true, false, Option, none, some, List, [], ◌∷◌, if◌then◌else◌,
  All, String-discrete, string_eq, nat_eq, bool_eq, option_eq, Option-discrete, ok,
}
use community_aws.ParameterGroup.Client.{
  Value, text, number, boolean, Parameter, NameValue, Service,
}
use community_aws.ParameterGroup.Values.{
  Dict, modifiable_params, check_valid_modification, check_value, check_type, is_allowed,
}
use community_aws.ParameterGroup.Values.Laws.{IsValid, SomeChange, check_valid_modification_lem}
use community_aws.ParameterGroup.Main.{present, Params}

abbrev parameter : String → Parameter
parameter value = record {
  parameter_name = "lazyfree-lazy-expire";
  is_modifiable = true;
  allowed_values = some "yes,no";
  data_type = "string";
  parameter_value = some value;
}

abbrev show : Value → String
show (text t) = t
show (number n) = "0"
show (boolean b) = if b then "True" else "False"

abbrev set : List NameValue → List Parameter → List Parameter
set [] l = l
set ((k, v) ∷ values) l = parameter v ∷ []

-- the parameters of the group, none before it was created
abbrev memory : Service
memory = record {
  World = Option (List Parameter);
  to_text = show;
  describe_cache_parameters =
      λ w. elim w [ none ↦ inr "CacheParameterGroupNotFound" | some l ↦ inl l ];
  create_cache_parameter_group = λ family description w. inl (some (parameter "no" ∷ []));
  delete_cache_parameter_group = λ w. inl none;
  modify_cache_parameter_group = λ values w. elim w [
    | none ↦ inr "CacheParameterGroupNotFound"
    | some l ↦ inl (some (set values l))
  ];
  reset_cache_parameter_group = λ values all_ w. inl (some (parameter "no" ∷ []));
}

abbrev wanted : List (String × Value)
wanted = ("lazyfree-lazy-expire", text "no") ∷ []

abbrev params : Params
params = record { group_family = "redis5.0"; description = ""; state = present; values = wanted }

abbrev entries : Dict
entries = modifiable_params (parameter "no" ∷ []) []

check_valid_modification_lem_example :
    (check_valid_modification memory wanted entries ≡ ok false)
    ↔ (All (IsValid memory entries) wanted × ((false ≡ true) ↔ SomeChange memory entries wanted))
check_valid_modification_lem_example = check_valid_modification_lem memory entries wanted false

check-run : check_valid_modification memory wanted entries ≡ ok false
unfolding check_valid_modification check_value check_type is_allowed modifiable_params
    String-discrete Option-discrete
check-run = refl
