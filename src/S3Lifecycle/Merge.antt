-- ===== src/S3Lifecycle/Merge.antt =====
-- `merge_transitions`, `compare_rule` and `update_or_append_rule`: how the new rule takes over an
-- existing one. The new rule is a shared object that these functions change in place, so each
-- returns it; the transitions of an existing rule are only read.
pub mod Laws
use community_aws.Base.{
  String, Bool, true, false, ◌&&◌, not, Option, none, some, List, [], ◌∷◌, ◌++◌, if◌then◌else◌, all,
  contains, ◌==◌, string_eq, nat_eq, bool_eq, option_eq, key_error, Result, ok, err, ◌>>=◌,
}
use community_aws.S3Lifecycle.Rule.{
  Transition, Rule, transition_eq, noncurrent_transition_eq, rule_eq, no_items, is_none,
  has_expiration, has_noncurrent_expiration,
}
use community_aws.S3Lifecycle.Build.{or_empty}

-- a dictionary of transitions, keyed by their storage class: `d[t['StorageClass']] = t`
unfoldable pub put_class : Transition → List Transition → List Transition
put_class t [] = t ∷ []
put_class t (u ∷ d) = if u.storage_class == t.storage_class then t ∷ d else u ∷ put_class t d

put_classes : List Transition → List Transition → List Transition
put_classes [] d = d
put_classes (t ∷ ts) d = put_classes ts (put_class t d)

unfoldable pub by_class : List Transition → List Transition
unfolding put_classes
by_class ts = put_classes ts []

unfoldable pub get_class : String → List Transition → Option Transition
get_class c [] = none
get_class c (t ∷ d) = if t.storage_class == c then some t else get_class c d

-- `updated_rule['Transitions'].append(transition)`
append_transition : Transition → Rule → Result Rule
append_transition t r = elim r.transitions [
  | none ↦ err (key_error "Transitions")
  | some l ↦ ok (record r { transitions = some (l ++ t ∷ []) })
]

-- the last loop, over the items of `updating_transitions`
unfoldable pub merge_items : List Transition → List Transition → Rule → Result Rule
unfolding append_transition
merge_items updated [] r = ok r
merge_items updated (t ∷ ts) r =
    (if is_none (get_class t.storage_class updated) then append_transition t r else ok r)
    >>= merge_items updated ts

unfoldable pub merge_transitions : Rule → Rule → Result Rule
unfolding merge_items by_class get_class
merge_transitions updated updating =
    merge_items (by_class (or_empty updated.transitions)) (by_class (or_empty updating.transitions))
      updated

-- `rule.pop('Transitions', [])` and `rule.pop('NoncurrentVersionTransitions', [])` on a copy
abbrev pub without_transitions : Rule → Rule
without_transitions r = record r { transitions = none; noncurrent_transitions = none }

unfoldable pub compare_rule : Rule → Rule → Bool → Bool
compare_rule rule_a rule_b purge_transitions =
    if purge_transitions
    then rule_a == rule_b
    else if not (without_transitions rule_a == without_transitions rule_b)
    then false
    else all (λ t. contains t (or_empty rule_b.transitions)) (or_empty rule_a.transitions)
      && all (λ t. contains t (or_empty rule_b.noncurrent_transitions))
          (or_empty rule_a.noncurrent_transitions)

-- the three assignments made when the status changes
carry_over : Rule → Rule → Rule
carry_over new_rule existing_rule = record new_rule {
  transitions =
      if no_items new_rule.transitions && not (no_items existing_rule.transitions)
      then existing_rule.transitions
      else new_rule.transitions;
  expiration =
      if not (has_expiration new_rule.expiration) && has_expiration existing_rule.expiration
      then existing_rule.expiration
      else new_rule.expiration;
  noncurrent_expiration =
      if not (has_noncurrent_expiration new_rule.noncurrent_expiration)
        && has_noncurrent_expiration existing_rule.noncurrent_expiration
      then existing_rule.noncurrent_expiration
      else new_rule.noncurrent_expiration;
}

-- The new rule as it is left, and whether anything changed. Each branch appends the new rule to
-- the configuration, and returns `appended` as True.
unfoldable pub update_or_append_rule : Rule → Rule → Bool → Result (Rule × Bool)
unfolding carry_over merge_transitions compare_rule
update_or_append_rule new_rule existing_rule purge_transitions =
    if not (existing_rule.status == new_rule.status)
    then ok (carry_over new_rule existing_rule, true)
    else (if purge_transitions then ok new_rule else merge_transitions new_rule existing_rule)
      >>= λ merged. ok (merged, not (compare_rule merged existing_rule purge_transitions))
