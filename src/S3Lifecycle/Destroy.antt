-- ===== src/S3Lifecycle/Destroy.antt =====
-- `destroy_lifecycle_rule`, and the calls that `create_lifecycle_rule` makes.
pub mod Laws
use community_aws.Base.{
  ℕ, zero, suc, ◌+◌, ◌-◌, ◌*◌, ◌≤◌, ◌<◌, String, ◌≡◌, refl, sym, ap, ◌∙◌, ◌≢◌, ◌↔◌, ◌⊎◌, inl, inr,
  Bool, true, false, ◌&&◌, ◌||◌, not, Option, none, some, List, [], ◌∷◌, ◌++◌, map, arith,
  ℕ_discrete, ltb, leb, eqb, if◌then◌else◌, Bool-cases, Sum-cases, Option-cases, eqb_iff, length,
  take, drop, filter, any, all, All, filter-filter, filter-append, contains, contains-append,
  contains-filter, length-append, Eq, ◌==◌, ==_iff, ==_refl, ==_false, String-discrete, string_eq,
  nat_eq, bool_eq, option_eq, Option-discrete, upper, Error, key_error, value_error, type_error,
  index_error, unbound_local_error, fail_json, client_error, Result, ok, err, ◌>>=◌, ◌>>◌, or_raise,
  raise_if, >>=-eq-ok, for_each, Result-cases, ok_pair,
}
use community_aws.S3Lifecycle.Rule.{Rule}
use community_aws.S3Lifecycle.Client.{Client, current_rules, or_fail}
use community_aws.S3Lifecycle.Build.{Params, build_rule, prefix_param}
use community_aws.S3Lifecycle.Create.{new_configuration}

-- `existing_rule['Filter']['Prefix']`
abbrev pub filter_prefix : Rule → Result String
filter_prefix r =
    or_raise (key_error "Filter") r.filter >>= λ f. or_raise (key_error "Prefix") f.prefix

-- whether the rule is the one to delete: by its ID if one is given, else by its prefix
unfoldable pub is_target : Option String → String → Rule → Result Bool
is_target (some i) prefix r = or_raise (key_error "ID") r.id >>= λ j. ok (i == j)
is_target none prefix r = filter_prefix r >>= λ q. ok (prefix == q)

-- the loops over the current rules: what is kept, and whether a rule was dropped
unfoldable pub remaining : Option String → String → List Rule → Result (List Rule × Bool)
remaining rule_id prefix [] = ok ([], false)
remaining rule_id prefix (r ∷ rs) = is_target rule_id prefix r >>= λ target.
    remaining rule_id prefix rs >>= λ (kept, changed).
    ok (if target then (kept, true) else (r ∷ kept, changed))

module _ (client : Client) where
  open client use {
    World, get_bucket_lifecycle_configuration, put_bucket_lifecycle_configuration,
    delete_bucket_lifecycle,
  }

  write_rules : List Rule → List Rule → Bool → World → Result (Bool × World)
  write_rules (k ∷ kept) current changed w =
      or_fail (put_bucket_lifecycle_configuration (k ∷ kept) w) >>= λ w'. ok (changed, w')
  write_rules [] (r ∷ rs) changed w = or_fail (delete_bucket_lifecycle w) >>= λ w'. ok (true, w')
  write_rules [] [] changed w = ok (changed, w)

  -- the result is `changed` of `exit_json`, and the state of the bucket
  unfoldable pub destroy_lifecycle_rule : Params → World → Result (Bool × World)
  unfolding write_rules
  destroy_lifecycle_rule p w = do
    current ← current_rules (get_bucket_lifecycle_configuration w)
    (kept, changed) ← remaining p.rule_id (prefix_param p) current
    write_rules kept current changed w

  unfoldable pub create_lifecycle_rule : Params → World → Result (Bool × World)
  create_lifecycle_rule p w = do
    current ← current_rules (get_bucket_lifecycle_configuration w)
    rule ← build_rule p
    (rules, changed) ← new_configuration p.rule_id p.purge_transitions rule current
    w' ← or_fail (put_bucket_lifecycle_configuration rules w)
    ok (changed, w')
