-- ===== src/S3Lifecycle/Create.antt =====
-- The second half of `create_lifecycle_rule`: the new configuration of the bucket.
pub mod Laws
use community_aws.Base.{
  ℕ, zero, suc, ◌+◌, ◌-◌, ◌*◌, ◌≤◌, ◌<◌, String, ◌≡◌, refl, sym, ap, ◌∙◌, ◌≢◌, ◌↔◌, ◌⊎◌, inl, inr,
  Bool, true, false, ◌&&◌, ◌||◌, not, Option, none, some, List, [], ◌∷◌, ◌++◌, map, arith,
  ℕ_discrete, ltb, leb, eqb, if◌then◌else◌, Bool-cases, Option-cases, eqb_iff, length, take, drop,
  filter, any, all, All, filter-filter, filter-append, contains, contains-append, contains-filter,
  length-append, Eq, ◌==◌, ==_iff, ==_refl, ==_false, String-discrete, string_eq, nat_eq, bool_eq,
  option_eq, Option-discrete, upper, Error, key_error, value_error, type_error, index_error,
  unbound_local_error, fail_json, client_error, Result, ok, err, ◌>>=◌, ◌>>◌, or_raise, raise_if,
  >>=-eq-ok, for_each, Result-cases,
}
use community_aws.S3Lifecycle.Rule.{Rule, is_none, prefix_of}
use community_aws.S3Lifecycle.Merge.{update_or_append_rule}

-- An element of `lifecycle_configuration['Rules']`: an existing rule, or the new rule. The new
-- rule is one object, so a later change of it shows wherever it was appended.
pub data Entry : Type 0 where
  existing : Rule → Entry
  new_rule : Entry

abbrev pub entry_rule : Rule → Entry → Rule
entry_rule rule (existing r) = r
entry_rule rule new_rule = rule

pub record Progress : Type 0 where
  pub rule : Rule
  pub entries : List Entry
  pub changed : Bool
  pub appended : Bool

-- `existing_rule.pop('ID')`
abbrev pub pop_id : Rule → Result Rule
pop_id r = if is_none r.id then err (key_error "ID") else ok (record r { id = none })

-- the first two tests of the loop's body
unfoldable pub release_id : Option String → Rule → Rule → Result Rule
release_id rule_id rule e =
    if (rule.id == e.id) && not (prefix_of rule == prefix_of e)
    then pop_id e
    else if is_none rule_id && (prefix_of rule == prefix_of e)
    then pop_id e
    else ok e

-- the third test
take_in : Bool → Rule → Progress → Result Progress
take_in purge e s =
    if s.rule.id == e.id
    then (update_or_append_rule s.rule e purge >>= λ (rule, changed_). ok (record {
      rule = rule;
      entries = s.entries ++ new_rule ∷ [];
      changed = changed_ || s.changed;
      appended = true;
    }))
    else ok (record s { entries = s.entries ++ existing e ∷ [] })

unfoldable pub visit : Option String → Bool → Rule → Progress → Result Progress
unfolding release_id take_in
visit rule_id purge e s = release_id rule_id s.rule e >>= λ e'. take_in purge e' s

-- what is appended after the loop
finish : Progress → List Rule × Bool
finish s =
    if s.appended
    then (map (entry_rule s.rule) s.entries, s.changed)
    else (map (entry_rule s.rule) (s.entries ++ new_rule ∷ []), true)

abbrev pub start : Rule → Progress
start rule = record { rule = rule; entries = []; changed = false; appended = false }

-- The rules to write and whether they differ, from the built rule and the current rules.
unfoldable pub new_configuration :
    Option String → Bool → Rule → List Rule → Result (List Rule × Bool)
unfolding visit finish
new_configuration rule_id purge rule [] = ok (rule ∷ [], true)
new_configuration rule_id purge rule (r ∷ rs) =
    for_each (visit rule_id purge) (r ∷ rs) (start rule) >>= λ s. ok (finish s)
