-- ===== src/EcsTask/Main/Tests.antt =====
-- Runs on a small service: it keeps one definition, and refuses to register another.
use community_aws.Base.{
  String, ◌≡◌, refl, sym, ap, ◌⊎◌, Bool, true, false, Option, none, some, List, [], ◌∷◌, ◌++◌, map,
  String-discrete, string_eq, nat_eq, bool_eq, option_eq, Option-discrete, client_error, ok, err,
  ok_pair, ok_inj,
}
use mathlib.Core.Path.{subst}
use community_aws.Base.Int.{ℤ, pos}
use community_aws.Base.Run.{done, done_inj}
use community_aws.EcsTask.Values.{Fields}
use community_aws.EcsTask.Match.{TaskDef, find_existing}
use community_aws.EcsTask.Match.Same.{IsProper, ProperFields, Filling, IsCurrent, falsy-IsKept}
use community_aws.EcsTask.Register.{Host, Registration, with_environment, validated_containers}
use community_aws.EcsTask.Manager.{
  TaskName, arn, Ecs, describe_task, fetch, describe_each, describe_task_definitions, register_task,
  deregister_task,
}
use community_aws.EcsTask.Main.{
  State, present, absent, Params, check_botocore, check_present, with_revision, existing_revision,
  existing_definition, unchanged, changed_to, task_to_describe, create, ensure_present,
  ensure_absent, main,
}
use community_aws.EcsTask.Values.{text, number, end, field, lookup, equal}
use community_aws.EcsTask.Match.{
  right_has_values_of_left, left_agrees, right_agrees, agrees, as_lists,
}
use community_aws.EcsTask.Register.{int_at, container, each_container, each_in, set_field}
use community_aws.EcsTask.Manager.{sorted_by_revision, insert_by_revision}
use community_aws.EcsTask.Main.CheckMode.{main-keeps}
use community_aws.EcsTask.Main.Next.{IsActiveAt, IsNext}
use community_aws.EcsTask.Main.Present.{main-revision}
use community_aws.EcsTask.Main.Twice.{IsRegistering, IsAsked, main-twice}
use community_aws.EcsTask.Main.Absent.{IsInactive, IsDeregistering, main-IsInactive}

-- The service adds the units of CPU, 0, to a container.
abbrev filling : Filling
filling = record { volume = λ d. d; container = λ d. field "cpu" (number (pos 0)) d }

abbrev as_registered : Registration → TaskDef
as_registered r = record {
  task_definition_arn = "arn-1";
  revision = 1;
  status = "ACTIVE";
  task_role_arn = some r.task_role_arn;
  volumes = r.volumes;
  container_definitions = map filling.container r.container_definitions;
}

abbrev small : Ecs
small = record {
  World = Option TaskDef;
  list_task_definitions = λ family token w. elim w [
    | none ↦ ok ([], none)
    | some td ↦ ok (td.task_definition_arn ∷ [], none)
  ];
  describe_task_definition =
      λ name w. elim w [ none ↦ err (client_error "unknown") | some td ↦ ok td ];
  register_task_definition = λ r w. elim w [
    | none ↦ ok (as_registered r, some (as_registered r))
    | some td ↦ err (client_error "limit")
  ];
  deregister_task_definition = λ name w. elim w [
    | none ↦ err (client_error "unknown")
    | some td ↦ ok (some (record td { status = "INACTIVE" }))
  ];
}

small-IsDeregistering : IsDeregistering small
small-IsDeregistering = record { deregisters = deregistered }
  where
    deregistered :
        (name : TaskName) (w w' : Option TaskDef)
        → small.deregister_task_definition name w ≡ ok w'
        → (td : TaskDef) × (small.describe_task_definition name w' ≡ ok td)
          × (td.status ≡ "INACTIVE")
    deregistered name none w' h = cc
    deregistered name (some td) w' h =
        (record td { status = "INACTIVE" }, rw (← ok_inj h) refl, refl)

listed :
    (r : Registration) (w w' : Option TaskDef) (td : TaskDef) (tds : List TaskDef)
    → small.register_task_definition r w ≡ ok (td, w')
    → describe_task_definitions small 1 r.family w ≡ done (tds, w)
    → describe_task_definitions small 1 r.family w' ≡ done (tds ++ td ∷ [], w')
unfolding describe_task_definitions fetch describe_each sorted_by_revision insert_by_revision
listed r (some x) w' td tds h k = cc
listed r none w' td tds h k = rw (← (ok_pair h).0, ← (ok_pair h).1, ← (done_inj k).0) refl

map_same : (l : List Fields) → map (λ d. d) l ≡ l
map_same [] = refl
map_same (d ∷ l) = ap (λ m. d ∷ m) (map_same l)

registered :
    (r : Registration) (w w' : Option TaskDef) (td : TaskDef)
    → small.register_task_definition r w ≡ ok (td, w')
    → IsCurrent filling
        (record {
          volumes = r.volumes;
          containers = r.container_definitions;
          task_role_arn = r.task_role_arn;
        })
        td
registered r (some x) w' td h = cc
registered r none w' td h =
    subst
      (IsCurrent filling (record {
        volumes = r.volumes;
        containers = r.container_definitions;
        task_role_arn = r.task_role_arn;
      }))
      (ok_pair h).0
      (record {
        is_active = refl;
        has_role = refl;
        has_volumes = sym (map_same r.volumes);
        has_containers = refl;
      })

small-IsRegistering : IsRegistering small 1 filling
small-IsRegistering = record { lists = listed; registers = registered }

abbrev host : Host
host = record { parse_int = λ s. none; to_text = λ v. "text"; botocore_at_least = λ version. true }

abbrev app : Fields
app = field "name" (text "app") (field "memory" (number (pos 512)) end)

abbrev asked : State → Option ℤ → Bool → Params
asked state revision check = record {
  state = state;
  arn = some "arn-1";
  family = some "web";
  revision = revision;
  force_create = false;
  containers = app ∷ [];
  network_mode = "bridge";
  task_role_arn = "role";
  execution_role_arn = "";
  volumes = [];
  launch_type = none;
  cpu = none;
  memory = none;
  check_mode = check;
}

abbrev web : TaskDef
web = record {
  task_definition_arn = "arn-1";
  revision = 1;
  status = "ACTIVE";
  task_role_arn = some "role";
  volumes = [];
  container_definitions = filling.container app ∷ [];
}

checked_run : main small host 1 (asked present none true) none ≡ done (changed_to none, none)
unfolding main check_botocore with_environment each_container each_in ensure_present check_present
    describe_task_definitions fetch describe_each sorted_by_revision existing_definition
    find_existing create lookup String-discrete Option-discrete
checked_run = refl

main-keeps_example : ◌≡◌ {A = Option TaskDef} none none
main-keeps_example =
    main-keeps small host 1 (asked present none true) none none (changed_to none) refl checked_run

revision_run :
    main small host 1 (asked present (some (pos 1)) false) none
    ≡ done (changed_to (some web), some web)
unfolding main check_botocore with_environment each_container each_in ensure_present check_present
    describe_task_definitions fetch describe_each sorted_by_revision existing_definition
    existing_revision with_revision create register_task validated_containers container int_at
    set_field lookup String-discrete Option-discrete
revision_run = refl

main-revision_example :
    (family : String) × (tds : List TaskDef) × (some "web" ≡ some family)
    × (describe_task_definitions small 1 family none ≡ done (tds, none))
    × (((td : TaskDef) × IsActiveAt (pos 1) tds td
          × (changed_to (some web) ≡ unchanged (some td))
          × (some web ≡ none))
        ⊎ ((true ≡ true) × ((false ≡ true) ⊎ IsNext (pos 1) tds)))
main-revision_example =
    main-revision small host 1 (asked present (some (pos 1)) false) (pos 1) none (some web)
      (changed_to (some web)) refl refl revision_run

plain_run :
    main small host 1 (asked present none false) none ≡ done (changed_to (some web), some web)
unfolding main check_botocore with_environment each_container each_in ensure_present check_present
    describe_task_definitions fetch describe_each sorted_by_revision existing_definition
    find_existing create register_task validated_containers container int_at set_field lookup
    String-discrete Option-discrete
plain_run = refl

app_same : right_has_values_of_left app (filling.container app) ≡ ok true
unfolding right_has_values_of_left left_agrees right_agrees agrees as_lists lookup equal
    String-discrete
app_same = refl

app-ProperFields : ProperFields app
unfolding IsProper lookup String-discrete
app-ProperFields = (refl, (tt, (refl, (tt, tt))))

no_cpu : lookup "cpu" app ≡ none
unfolding lookup String-discrete
no_cpu = refl

asked_plainly : IsAsked host (asked present none false) filling (app ∷ [])
unfolding with_environment each_container each_in validated_containers container int_at set_field
    lookup String-discrete
asked_plainly = record {
  is_present = refl;
  no_revision = refl;
  not_forced = refl;
  no_check = refl;
  texts = refl;
  numbers = refl;
  complete = record {
    volumes_kept = tt;
    containers_kept = (falsy-IsKept "cpu" (number (pos 0)) app app-ProperFields no_cpu refl, tt);
    volumes_comparable = tt;
    containers_comparable = (((true, app_same), tt), tt);
  };
}

main-twice_example :
    main small host 1 (asked present none false) (some web) ≡ done (unchanged (some web), some web)
main-twice_example =
    main-twice small host 1 (asked present none false) filling (app ∷ []) none (some web)
      (changed_to (some web)) small-IsRegistering asked_plainly plain_run

removal_run :
    main small host 1 (asked absent none false) (some web)
    ≡ done (changed_to (some web), some (record web { status = "INACTIVE" }))
unfolding main check_botocore with_environment each_container each_in ensure_absent task_to_describe
    describe_task deregister_task lookup String-discrete Option-discrete
removal_run = refl

named_run : task_to_describe (asked absent none false) ≡ ok (arn "arn-1")
unfolding task_to_describe
named_run = refl

main-IsInactive_example : IsInactive small (arn "arn-1") (some (record web { status = "INACTIVE" }))
main-IsInactive_example =
    main-IsInactive small small-IsDeregistering host 1 (asked absent none false) refl (arn "arn-1")
      (some web) (some (record web { status = "INACTIVE" })) (changed_to (some web)) refl named_run
      removal_run
