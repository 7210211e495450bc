-- ===== src/EcsTask/Tests.antt =====
-- Two dictionaries that match, and the definitions of a family on two pages.
use community_aws.Base.{
  ℕ, String, ◌≡◌, refl, ◌↔◌, true, none, some, List, [], ◌∷◌, arith, if◌then◌else◌, ◌==◌,
  String-discrete, string_eq, nat_eq, bool_eq, option_eq, client_error, ok, err,
}
use community_aws.Base.Int.{pos}
use community_aws.Base.Run.{done}
use community_aws.EcsTask.Values.{Fields}
use community_aws.EcsTask.Match.{TaskDef}
use community_aws.EcsTask.Manager.{arn, family_revision, Ecs, describe_task_definitions}
use community_aws.EcsTask.Values.{
  text, number, list, nil, cons, end, field, lookup, equal, item_in, value_in,
}
use community_aws.EcsTask.Match.{
  right_has_values_of_left, left_agrees, right_agrees, agrees, as_lists, lists_agree, all_in,
}
use community_aws.EcsTask.Match.Laws.{Unique, AgreeAt, right_has_values_of_left_lem}
use community_aws.EcsTask.Manager.Laws.{last_page, page, IsSorted, describe_task_definitions_lem}
use mathlib.Core.List.{Perm}

abbrev first : Fields
first = field "name" (text "app") (field "links" (list (cons (text "a") (cons (text "b") nil))) end)

abbrev second : Fields
second =
    field "cpu" (number (pos 0))
      (field "links" (list (cons (text "b") (cons (text "a") nil))) (field "name" (text "app") end))

first-Unique : Unique first
unfolding lookup String-discrete
first-Unique = (refl, (refl, tt))

second-Unique : Unique second
unfolding lookup String-discrete
second-Unique = (refl, (refl, (refl, tt)))

right_has_values_of_left_lem_example :
    (right_has_values_of_left first second ≡ ok true)
    ↔ ((k : String) → AgreeAt (lookup k first) (lookup k second))
right_has_values_of_left_lem_example =
    right_has_values_of_left_lem first second first-Unique second-Unique

they_agree : right_has_values_of_left first second ≡ ok true
unfolding right_has_values_of_left left_agrees right_agrees agrees as_lists lists_agree all_in
    lookup equal item_in value_in String-discrete
they_agree = refl

abbrev one : TaskDef
one = record {
  task_definition_arn = "arn-1";
  revision = 1;
  status = "ACTIVE";
  task_role_arn = none;
  volumes = [];
  container_definitions = first ∷ [];
}

abbrev two : TaskDef
two = record one { task_definition_arn = "arn-2"; revision = 2 }

-- two pages, the later revision on the first
abbrev paged : Ecs
paged = record {
  World = ℕ;
  list_task_definitions = λ family token w. elim token [
    | none ↦ ok ("arn-2" ∷ [], some "next")
    | some t ↦ ok ("arn-1" ∷ [], none)
  ];
  describe_task_definition = λ name w. elim name [
    | arn a ↦ if a == "arn-1" then ok one else ok two
    | family_revision f r ↦ err (client_error "unknown")
  ];
  register_task_definition = λ r w. err (client_error "limit");
  deregister_task_definition = λ name w. ok w;
}

describe_task_definitions_lem_example :
    (l : List TaskDef) × (describe_task_definitions paged 3 "web" 0 ≡ done (l, 0))
    × Perm (two ∷ one ∷ []) l
    × IsSorted l
unfolding String-discrete
describe_task_definitions_lem_example =
    describe_task_definitions_lem paged "web" 3 2 ("arn-2" ∷ "arn-1" ∷ []) (two ∷ one ∷ []) 0
      (page {n = 1} {token = none} {next = "next"} {arns = "arn-2" ∷ []} {rest = "arn-1" ∷ []} refl
        (last_page refl))
      (omega arith) (refl, (refl, tt))
