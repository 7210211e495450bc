-- ===== src/EcsTask/Match.antt =====
-- The search for a revision that has what is asked for: `_right_has_values_of_left`,
-- `_task_definition_matches` and the loop over the revisions of a family.
pub mod Agree
pub mod Laws
pub mod Same
use community_aws.Base.{
  some_inj, IsPart, is_within_lem, is_within, is_empty, ℕ, zero, suc, ◌+◌, ◌-◌, ◌*◌, ◌≤◌, ◌<◌,
  String, ◌≡◌, refl, sym, ap, ◌∙◌, ◌≢◌, ◌↔◌, ◌⊎◌, inl, inr, Bool, true, false, ◌&&◌, ◌||◌, not,
  Option, none, some, List, [], ◌∷◌, ◌++◌, map, arith, ℕ_discrete, ltb, leb, eqb, if◌then◌else◌,
  Bool-cases, Sum-cases, Option-cases, eqb_iff, length, take, drop, filter, any, all, All,
  filter-filter, filter-append, contains, contains-append, contains-filter, length-append,
  length-take, length-drop, take-append-drop, Eq, ◌==◌, ==_iff, ==_refl, ==_false, String-discrete,
  string_eq, nat_eq, bool_eq, option_eq, Option-discrete, upper, lower, lower, Error, key_error,
  value_error, type_error, index_error, unbound_local_error, fail_json, client_error, Result, ok,
  err, ◌>>=◌, ◌>>◌, or_raise, raise_if, >>=-eq-ok, for_each, Result-cases, ok_pair, ok_inj,
  some_ok_pair,
}
use community_aws.EcsTask.Values.{
  Value, list, Items, nil, cons, Fields, end, field, lookup, length_items, equal, truthy, truthy_at,
  length_or, value_in,
}

-- what the module reads of a task definition that the service describes
pub record TaskDef : Type 0 where
  pub task_definition_arn : String
  pub revision : ℕ
  pub status : String
  pub task_role_arn : Option String
  -- none for a missing key or None
  pub volumes : List Fields
  pub container_definitions : List Fields

-- what is asked for: `requested_volumes`, `requested_containers` and `requested_task_role_arn`
pub record Requested : Type 0 where
  pub volumes : List Fields
  pub containers : List Fields
  pub task_role_arn : String

-- the loop over `left_list`
unfoldable pub all_in : Items → Value → Result Bool
all_in nil right = ok true
all_in (cons v l) right = value_in v right >>= λ found. if found then all_in l right else ok false

-- the block of the two lists, with `right[k]`
unfoldable pub lists_agree : Items → Value → Result Bool
unfolding all_in
lists_agree l right =
    length_or right >>= λ n. if eqb (length_items l) n then all_in l right else ok false

-- `v == right[k]`, false for a key that is missing
abbrev pub equal_at : Value → Option Value → Bool
equal_at v none = false
equal_at v (some u) = equal v u

-- behind the first test: whether the key's values are lists that agree
unfoldable pub as_lists : Value → Option Value → Result Bool
unfolding lists_agree
as_lists (list l) (some u) = lists_agree l u
as_lists _ _ = ok false

-- a round of the first loop, with what `right` has for the key
unfoldable pub agrees : Value → Option Value → Result Bool
unfolding as_lists equal
agrees v r = if (not (truthy v) && not (truthy_at r)) || equal_at v r then ok true else as_lists v r

-- the first loop
unfoldable pub left_agrees : Fields → Fields → Result Bool
unfolding agrees lookup
left_agrees end right = ok true
left_agrees (field k v left) right =
    agrees v (lookup k right) >>= λ b. if b then left_agrees left right else ok false

abbrev pub has_key : String → Fields → Bool
has_key k d = elim (lookup k d) [ none ↦ false | some v ↦ true ]

-- the second loop
unfoldable pub right_agrees : Fields → Fields → Bool
unfolding lookup
right_agrees end left = true
right_agrees (field k v right) left =
    if truthy v && not (has_key k left) then false else right_agrees right left

unfoldable pub right_has_values_of_left : Fields → Fields → Result Bool
unfolding left_agrees right_agrees
right_has_values_of_left left right =
    left_agrees left right >>= λ b. if b then ok (right_agrees right left) else ok false

-- the inner loop, for a volume or a container that is asked for
unfoldable pub found_in : Fields → List Fields → Result Bool
unfolding right_has_values_of_left
found_in wanted [] = ok false
found_in wanted (actual ∷ existing) =
    right_has_values_of_left wanted actual >>= λ b. if b then ok true else found_in wanted existing

unfoldable pub all_found : List Fields → List Fields → Result Bool
unfolding found_in
all_found [] existing = ok true
all_found (wanted ∷ l) existing =
    found_in wanted existing >>= λ b. if b then all_found l existing else ok false

-- the test of the lengths, and the loop
unfoldable pub same_entries : List Fields → List Fields → Result Bool
unfolding all_found
same_entries wanted existing =
    if eqb (length wanted) (length existing) then all_found wanted existing else ok false

abbrev pub role_of : Option String → String
role_of none = ""
role_of (some r) = r

-- whether the function returns the task definition
unfoldable pub task_definition_matches : Requested → TaskDef → Result Bool
unfolding same_entries
task_definition_matches r td =
    if not (td.status == "ACTIVE")
    then ok false
    else if not (r.task_role_arn == role_of td.task_role_arn)
    then ok false
    else (same_entries r.volumes td.volumes >>= λ b.
        if b then same_entries r.containers td.container_definitions else ok false)

-- the loop over the revisions
unfoldable pub find_existing : Requested → List TaskDef → Result (Option TaskDef)
unfolding task_definition_matches
find_existing r [] = ok none
find_existing r (td ∷ tds) =
    task_definition_matches r td >>= λ b. if b then ok (some td) else find_existing r tds
