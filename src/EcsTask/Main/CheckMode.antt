-- ===== src/EcsTask/Main/CheckMode.antt =====
-- In check mode a run of the module changes nothing.
use community_aws.Base.{
  ℕ, zero, suc, String, ◌≡◌, true, Option, none, some, List, [], ◌∷◌, ◌++◌, ◌==◌, string_eq, nat_eq,
  bool_eq, option_eq, Result,
}
use community_aws.Base.Run.{Run, done, return_}
use community_aws.Base.Rules.{Keeps, keeps, Closed, of_if, of_lift}
use community_aws.EcsTask.Values.{Fields}
use community_aws.EcsTask.Match.{TaskDef}
use community_aws.EcsTask.Register.{Host, with_environment}
use community_aws.EcsTask.Manager.{
  TaskName, Ecs, ask, describe_task, fetch, describe_each, describe_task_definitions,
}
use community_aws.EcsTask.Main.{
  State, present, absent, Params, Report, check_botocore, check_present, existing_definition,
  changed_to, task_to_describe, create, use_or_create, ensure_present, remove, ensure_absent,
  run_state, main,
}

module _ (c : Ecs) where
  abbrev keeping : Closed c.World
  keeping = keeps c.World

  ask-Keeps : {A : Type 0} (call : c.World → Result A) → Keeps (ask c call)
  ask-Keeps call = keeping.of_bind _ _ (keeping.of_look call) (of_lift keeping)

  next-Keeps :
      (arns : List String) (o : Option String) {more : String → Run c.World (List String)}
      → ((t : String) → Keeps (more t))
      → Keeps {W = c.World} {A = List String} (elim o [ none ↦ return_ arns | some t ↦ more t ])
  next-Keeps arns none k = keeping.of_return arns
  next-Keeps arns (some t) k = k t

  fetch-Keeps :
      (pages : ℕ) (family : String) (arns : List String) (token : Option String)
      → Keeps (fetch c pages family arns token)
  unfolding fetch
  fetch-Keeps zero family arns token = λ w w' a h. cc
  fetch-Keeps (suc pages) family arns token =
      keeping.of_bind _ _ (ask-Keeps _)
        (λ (more, next). next-Keeps _ next (λ t. fetch-Keeps pages family (arns ++ more) (some t)))

  describe_each-Keeps : (arns : List String) → Keeps (describe_each c arns)
  unfolding describe_each
  describe_each-Keeps [] = keeping.of_return []
  describe_each-Keeps (a ∷ arns) =
      keeping.of_bind _ _ (ask-Keeps _)
        (λ td. keeping.of_bind _ _ (describe_each-Keeps arns) (λ tds. keeping.of_return _))

  pub describe_task_definitions-Keeps :
      (pages : ℕ) (family : String) → Keeps (describe_task_definitions c pages family)
  unfolding describe_task_definitions
  describe_task_definitions-Keeps pages family =
      keeping.of_bind _ _ (fetch-Keeps pages family [] none)
        (λ arns. keeping.of_bind _ _ (describe_each-Keeps arns) (λ tds. keeping.of_return _))

  describe_task-Keeps : (name : TaskName) → Keeps (describe_task c name)
  unfolding describe_task
  describe_task-Keeps name = ask-Keeps _

  module _ (h : Host) (pages : ℕ) (p : Params) (checked : p.check_mode ≡ true) where
    create-Keeps : (family : String) (l : List Fields) → Keeps (create c h pages p family l)
    unfolding create
    create-Keeps family l = rw checked (keeping.of_return (changed_to none))

    use_or_create-Keeps :
        (family : String) (l : List Fields) (o : Option TaskDef)
        → Keeps (use_or_create c h pages p family l o)
    use_or_create-Keeps family l none = create-Keeps family l
    use_or_create-Keeps family l (some td) =
        of_if keeping p.force_create _ _ (create-Keeps family l) (keeping.of_return _)

    remove-Keeps : (name : TaskName) (o : Option TaskDef) → Keeps (remove c h pages p name o)
    remove-Keeps name none = keeping.of_return _
    remove-Keeps name (some td) =
        of_if keeping (td.status == "INACTIVE") _ _ (keeping.of_return _)
          (rw checked (keeping.of_return (changed_to (some td))))

    run_state-Keeps : (l : List Fields) (st : State) → Keeps (run_state c h pages p l st)
    unfolding ensure_present ensure_absent
    run_state-Keeps l present = keeping.of_bind _ _ (of_lift keeping (check_present p)) (λ family.
        keeping.of_bind _ _ (describe_task_definitions-Keeps pages family) (λ tds.
          keeping.of_bind _ _ (of_lift keeping (existing_definition p l tds))
            (use_or_create-Keeps family l)))
    run_state-Keeps l absent =
        keeping.of_bind _ _ (of_lift keeping (task_to_describe p))
          (λ name. keeping.of_bind _ _ (describe_task-Keeps name) (remove-Keeps name))

  -- In check mode a run of the module that ends with a report leaves the service as it was, for both
  -- states.
  pub main-keeps :
      (h : Host) (pages : ℕ) (p : Params) (w w' : c.World) (r : Report)
      → p.check_mode ≡ true
      → main c h pages p w ≡ done (r, w')
      → w' ≡ w
  unfolding main
  main-keeps h pages p w w' r checked ran =
      keeping.of_bind _ _ (of_lift keeping (check_botocore h p))
        (λ u.
          keeping.of_bind _ _ (of_lift keeping (with_environment h p.containers))
            (λ l. run_state-Keeps h pages p checked l p.state))
        w w' r ran
