-- ===== src/S3Lifecycle/Tests.antt =====
-- Runs of the functions of s3_lifecycle.py on small configurations, and the theorems applied there.
use community_aws.Base.{
  String, ◌≡◌, refl, inl, Bool, true, false, Option, none, some, List, [], ◌∷◌, ◌++◌, map,
  if◌then◌else◌, any, String-discrete, string_eq, nat_eq, bool_eq, option_eq, Option-discrete,
  upper, ok,
}
use community_aws.Base.Int.{pos}
use community_aws.S3Lifecycle.Rule.{Transition, Rule, Rule-discrete, prefix_of, rule_eq}
use community_aws.S3Lifecycle.Build.{enabled, Params, build_rule}
use community_aws.S3Lifecycle.Merge.{put_class, merge_transitions, update_or_append_rule}
use community_aws.S3Lifecycle.Merge.Laws.{with_transitions}
use community_aws.S3Lifecycle.Create.{entry_rule, new_rule, new_configuration}
use community_aws.S3Lifecycle.Create.Laws.{
  image, is_replaced, new_configuration_lem, new_configuration_unchanged,
}
use community_aws.S3Lifecycle.Client.{Client, Fetched, rules, no_configuration, IsS3}
use community_aws.S3Lifecycle.Destroy.{remaining, is_target, destroy_lifecycle_rule}
use community_aws.S3Lifecycle.Destroy.Laws.{destroy_twice}

abbrev to_ia : Transition
to_ia = record { days = some (pos 30); date = none; storage_class = "STANDARD_IA" }

abbrev to_glacier : Transition
to_glacier = record { days = some (pos 90); date = none; storage_class = "GLACIER" }

abbrev rule_of : String → String → Option (List Transition) → Rule
rule_of i prefix ts = record {
  id = some i;
  filter = some (record { prefix = some prefix; rest = [] });
  status = "Enabled";
  expiration = none;
  noncurrent_expiration = none;
  transitions = ts;
  noncurrent_transitions = none;
  rest = [];
}

abbrev logs : Rule
logs = rule_of "logs" "logs/" (some (to_ia ∷ []))

abbrev backups : Rule
backups = rule_of "backups" "backups/" (some (to_glacier ∷ []))

abbrev bare : Rule
bare = rule_of "logs" "logs/" none

-- `transitions: [{transition_days: 30, storage_class: standard_ia}]` for the rule `logs`
abbrev params : Params
params = record {
  expiration_date = none;
  expiration_days = none;
  noncurrent_version_expiration_days = none;
  noncurrent_version_transition_days = none;
  noncurrent_version_transitions = none;
  noncurrent_version_storage_class = "glacier";
  prefix = some "logs/";
  rule_id = some "logs";
  status = enabled;
  storage_class = "glacier";
  transition_date = none;
  transition_days = none;
  transitions = some (
      record {
        transition_date = none;
        transition_days = some (pos 30);
        storage_class = some "standard_ia";
      }
      ∷ []);
  purge_transitions = true;
}

build-logs : build_rule params ≡ ok logs
unfolding build_rule upper
build-logs = refl

merge-two : merge_transitions logs backups ≡ ok (with_transitions logs (to_ia ∷ to_glacier ∷ []))
unfolding merge_transitions put_class String-discrete
merge-two = refl

create-two :
    new_configuration (some "logs") true logs (backups ∷ bare ∷ []) ≡ ok (backups ∷ logs ∷ [], true)
unfolding new_configuration update_or_append_rule String-discrete Rule-discrete Option-discrete
create-two = refl

-- A rule ID with another prefix is taken from the existing rule.
create-moved :
    new_configuration (some "logs") true logs (rule_of "logs" "old/" none ∷ [])
    ≡ ok (record (rule_of "logs" "old/" none) { id = none } ∷ logs ∷ [], true)
unfolding new_configuration update_or_append_rule String-discrete Rule-discrete Option-discrete
create-moved = refl

new_configuration_lem_example :
    (final : Rule) × (final.id ≡ some "logs")
    × (final.filter ≡ logs.filter)
    × (backups ∷ logs ∷ []
        ≡ map (entry_rule final) (
            map (image (some "logs") (prefix_of logs)) (backups ∷ bare ∷ [])
            ++ (if any (is_replaced (some "logs") (prefix_of logs)) (backups ∷ bare ∷ [])
                then []
                else new_rule ∷ [])))
new_configuration_lem_example =
    new_configuration_lem "logs" true logs (backups ∷ bare ∷ []) (backups ∷ logs ∷ []) true refl
      create-two

new_configuration_unchanged_example :
    new_configuration (some "logs") true logs (backups ∷ logs ∷ [])
    ≡ ok (backups ∷ logs ∷ [], false)
unfolding String-discrete Option-discrete
new_configuration_unchanged_example =
    new_configuration_unchanged "logs" logs (backups ∷ logs ∷ []) refl
      ((λ h. cc), ((λ h. refl), tt)) refl

remaining-run : remaining (some "logs") "" (backups ∷ logs ∷ []) ≡ ok (backups ∷ [], true)
unfolding remaining is_target String-discrete
remaining-run = refl

-- a bucket in memory
abbrev memory : Client
memory = record {
  World = Fetched;
  get_bucket_lifecycle_configuration = λ w. w;
  put_bucket_lifecycle_configuration = λ l w. inl (rules l);
  delete_bucket_lifecycle = λ w. inl no_configuration;
}

memory-IsS3 : IsS3 memory
memory-IsS3 = record { get-put = λ l w w' ids h. cc; get-delete = λ w w' h. cc }

destroy-run :
    destroy_lifecycle_rule memory params (rules (backups ∷ logs ∷ []))
    ≡ ok (true, rules (backups ∷ []))
unfolding destroy_lifecycle_rule remaining is_target String-discrete
destroy-run = refl

destroy_again :
    destroy_lifecycle_rule memory params (rules (backups ∷ [])) ≡ ok (false, rules (backups ∷ []))
unfolding destroy_lifecycle_rule remaining is_target String-discrete
destroy_again = refl

destroy_twice_example : ◌≡◌ {A = Bool} false false
destroy_twice_example =
    destroy_twice memory memory-IsS3 params (backups ∷ logs ∷ []) (rules (backups ∷ logs ∷ []))
      (rules (backups ∷ [])) (rules (backups ∷ [])) true false refl ((λ h. cc), ((λ h. cc), tt))
      destroy-run destroy_again
