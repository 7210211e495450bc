-- ===== src/ParameterGroup/Values.antt =====
-- The dictionary of modifiable parameters, the check of the values asked for against it, and the
-- comparison of two such dictionaries.
pub mod Types
pub mod Laws
use community_aws.Base.{
  is_within, ℕ, zero, suc, ◌+◌, ◌-◌, ◌*◌, ◌≤◌, ◌<◌, String, ◌≡◌, refl, sym, ap, ◌∙◌, ◌≢◌, ◌↔◌, ◌⊎◌,
  inl, inr, Bool, true, false, ◌&&◌, ◌||◌, not, Option, none, some, List, [], ◌∷◌, ◌++◌, map, arith,
  ℕ_discrete, ltb, leb, eqb, if◌then◌else◌, Bool-cases, Sum-cases, Option-cases, eqb_iff, length,
  take, drop, filter, any, all, All, filter-filter, filter-append, contains, contains-append,
  contains-filter, length-append, length-take, length-drop, take-append-drop, Eq, ◌==◌, ==_iff,
  ==_refl, ==_false, String-discrete, string_eq, nat_eq, bool_eq, option_eq, Option-discrete, upper,
  lower, lower, Error, key_error, value_error, type_error, index_error, unbound_local_error,
  fail_json, client_error, Result, ok, err, ◌>>=◌, ◌>>◌, or_raise, raise_if, >>=-eq-ok, for_each,
  Result-cases, ok_pair, ok_inj, some_ok_pair,
}
use community_aws.ParameterGroup.Client.{
  Value, text, number, boolean, Parameter, NameValue, Service,
}
use Prim.Native.Char.{code}

-- the list of three that the dictionary has for a name
pub record Entry : Type 0 where
  pub allowed_values : Option String
  pub data_type : String
  pub parameter_value : Option String

unfoldable pub Entry-discrete : Discrete Entry
unfolding String-discrete
Entry-discrete = hlevel String-discrete

instance abbrev pub entry_eq : Eq Entry
entry_eq = record { decides = Entry-discrete }

abbrev pub Dict : Type 0
Dict = List (String × Entry)

abbrev pub lookup : String → Dict → Option Entry
lookup k [] = none
lookup k ((j, e) ∷ d) = if j == k then some e else lookup k d

abbrev pub put : String → Entry → Dict → Dict
put k e [] = (k, e) ∷ []
put k e ((j, f) ∷ d) = if j == k then (k, e) ∷ d else (j, f) ∷ put k e d

abbrev pub entry_of : Parameter → Entry
entry_of x = record {
  allowed_values = x.allowed_values;
  data_type = x.data_type;
  parameter_value = x.parameter_value;
}

-- the loop of `make_current_modifiable_param_dict`
unfoldable pub modifiable_params : List Parameter → Dict → Dict
modifiable_params [] d = d
modifiable_params (x ∷ l) d =
    modifiable_params l (if x.is_modifiable then put x.parameter_name (entry_of x) d else d)

-- `isinstance(value, int)`: a Boolean is one
abbrev pub is_int : Value → Bool
is_int (text s) = false
is_int (number n) = true
is_int (boolean b) = true

-- The check of the type. The conversions in the code are for an expected type that is `str`, which
-- `string_types` is not, and for a Boolean that is no `int`, which there is not; so that a value is
-- left as it is, or refused. A data type of another name is a KeyError.
unfoldable pub check_type : String → Value → Result (Unit {0})
check_type data_type value =
    if data_type == "integer"
    then raise_if (not (is_int value)) (fail_json "is not an allowed value for the parameter")
    else if data_type == "string"
    then (elim value [
      | text s ↦ ok tt
      | number n ↦ err (fail_json "is not an allowed value for the parameter")
      | boolean b ↦ err (fail_json "is not an allowed value for the parameter")
    ])
    else err (key_error data_type)

module _ (s : Service) where
  -- the allowed values are one text, in which the value is looked for
  unfoldable pub is_allowed : Option String → Value → Bool
  is_allowed none value = true
  is_allowed (some choices) value =
      (choices == "") || is_within (s.to_text value) choices || is_int value

  -- `to_text(values[parameter]) != modifiable_params[parameter][2]`
  abbrev pub differs : Value → Entry → Bool
  differs value e = not (some (s.to_text value) == e.parameter_value)

  -- one round of the loop
  unfoldable pub check_value : Dict → String × Value → Bool → Result Bool
  unfolding check_type is_allowed
  check_value d (parameter, value) changed_with_update =
      or_raise (fail_json "is not a modifiable parameter.") (lookup parameter d) >>= λ e.
      check_type e.data_type value
      >> raise_if (not (is_allowed e.allowed_values value)) (fail_json "is not an allowed value")
      >> ok (if differs value e then true else changed_with_update)

  -- the values are returned as they were
  unfoldable pub check_valid_modification : List (String × Value) → Dict → Result Bool
  unfolding check_value
  check_valid_modification values d = for_each (check_value d) values false

  -- the values in the form of the calls
  abbrev pub format_parameters : List (String × Value) → List NameValue
  format_parameters [] = []
  format_parameters ((k, v) ∷ l) = (k, s.to_text v) ∷ format_parameters l

-- a loop of `check_changed_parameter_values`, over some names, which stops at the first change
unfoldable pub any_changed : List String → Dict → Dict → Result Bool
any_changed [] old_parameters new_parameters = ok false
any_changed (parameter ∷ l) old_parameters new_parameters =
    let rest = any_changed l old_parameters new_parameters in
    or_raise (key_error parameter) (lookup parameter old_parameters) >>= λ old.
    or_raise (key_error parameter) (lookup parameter new_parameters) >>= λ new.
    if old == new then rest else ok true

abbrev pub names : {A : Type 0} → List (String × A) → List String
names [] = []
names ((k, v) ∷ l) = k ∷ names l

unfoldable pub check_changed_parameter_values : List (String × Value) → Dict → Dict → Result Bool
unfolding any_changed
check_changed_parameter_values [] old_parameters new_parameters =
    any_changed (names old_parameters) old_parameters new_parameters
check_changed_parameter_values (v ∷ values) old_parameters new_parameters =
    any_changed (names (v ∷ values)) old_parameters new_parameters
