-- ===== src/EcsTask/Main.antt =====
-- The function `main`: a revision is registered unless there is one, or a named one is deregistered.
-- The texts of the errors leave out the values that the module puts into them.
pub mod CheckMode
pub mod Next
pub mod Present
pub mod Twice
pub mod Absent
mod Tests
use community_aws.Base.{
  some_inj, is_within, is_empty, ℕ, zero, suc, ◌+◌, ◌-◌, ◌*◌, ◌≤◌, ◌<◌, String, ◌≡◌, refl, sym, ap,
  ◌∙◌, ◌≢◌, ◌↔◌, ◌⊎◌, inl, inr, Bool, true, false, ◌&&◌, ◌||◌, not, Option, none, some, List, [],
  ◌∷◌, ◌++◌, map, arith, ℕ_discrete, ltb, leb, eqb, if◌then◌else◌, Bool-cases, Sum-cases,
  Option-cases, eqb_iff, length, take, drop, filter, any, all, All, filter-filter, filter-append,
  contains, contains-append, contains-filter, length-append, length-take, length-drop,
  take-append-drop, Eq, ◌==◌, ==_iff, ==_refl, ==_false, String-discrete, string_eq, nat_eq,
  bool_eq, option_eq, Option-discrete, upper, lower, lower, Error, key_error, value_error,
  type_error, index_error, unbound_local_error, fail_json, client_error, Result, ok, err, ◌>>◌,
  or_raise, raise_if, >>=-eq-ok, for_each, Result-cases, ok_pair, ok_inj, some_ok_pair,
}
use community_aws.Base.Int.{ℤ, pos, ◌+ℤ◌, eqb_ℤ}
use community_aws.Base.Run.{Run, Outcome, done, raised, endless, return_, look, lift, raise, ◌>>=◌}
use community_aws.EcsTask.Values.{Fields}
use community_aws.EcsTask.Match.{TaskDef, Requested, find_existing}
use community_aws.EcsTask.Register.{Host, non_empty, with_environment}
use community_aws.EcsTask.Manager.{
  TaskName, arn, family_revision, Ecs, describe_task, describe_task_definitions, register_task,
  deregister_task,
}

pub data State : Type 0 where
  present absent : State

-- `module.params`; an empty list stands for a list that is not given, too
pub record Params : Type 0 where
  pub state : State
  pub arn : Option String
  pub family : Option String
  pub revision : Option ℤ
  pub force_create : Bool
  pub containers : List Fields
  pub network_mode : String
  pub task_role_arn : String
  pub execution_role_arn : String
  pub volumes : List Fields
  pub launch_type : Option String
  pub cpu : Option String
  pub memory : Option String
  pub check_mode : Bool

-- `results`
pub record Report : Type 0 where
  pub changed : Bool
  pub taskdefinition : Option TaskDef

is_given : Option String → Bool
is_given o = elim (non_empty o) [ none ↦ false | some s ↦ true ]

-- the two tests of the version of botocore
unfoldable pub check_botocore : Host → Params → Result (Unit {0})
unfolding is_given
check_botocore h p =
    raise_if (is_given p.launch_type && not (h.botocore_at_least "1.8.4"))
      (fail_json "botocore needs to be version 1.8.4 or higher to use launch_type")
    >> raise_if (is_given (some p.execution_role_arn) && not (h.botocore_at_least "1.10.44"))
        (fail_json "botocore needs to be version 1.10.44 or higher to use execution_role_arn")

-- the three tests at the start of the branch of `present`
unfoldable pub check_present : Params → Result String
check_present p =
    if is_empty p.containers
    then err (fail_json "To use task definitions, a list of containers must be specified")
    else elim (non_empty p.family) [
      | none ↦ err (fail_json "To use task definitions, a family must be specified")
      | some family ↦
          if (p.launch_type == some "FARGATE") && not (p.network_mode == "awsvpc")
          then err (fail_json "To use FARGATE launch type, network_mode must be awsvpc")
          else ok family
    ]

-- `[td for td in … if td['revision'] == revision]`, and the first of them
unfoldable pub with_revision : ℤ → List TaskDef → Option TaskDef
with_revision r [] = none
with_revision r (td ∷ tds) = if eqb_ℤ (pos td.revision) r then some td else with_revision r tds

-- `revision` of the last of a list that is not empty
abbrev pub last_revision : TaskDef → List TaskDef → ℕ
last_revision td [] = td.revision
last_revision td (x ∷ l) = last_revision x l

-- the revision that the next registration has
abbrev pub next_revision : List TaskDef → ℕ
next_revision [] = 1
next_revision (td ∷ tds) = last_revision td tds + 1

-- the block on an explicit revision, with the definition that was found
abbrev pub check_revision : ℤ → List TaskDef → Option TaskDef → Result (Option TaskDef)
check_revision r tds (some td) =
    if td.status == "ACTIVE"
    then ok (some td)
    else err (fail_json "A task already exists for the revision, but it is inactive")
check_revision r tds none =
    if eqb_ℤ (pos (next_revision tds)) r
    then ok none
    else err (fail_json "You have specified another revision than the one that would be created")

unfoldable pub existing_revision : ℤ → List TaskDef → Result (Option TaskDef)
unfolding with_revision
existing_revision r tds = check_revision r tds (with_revision r tds)

-- `if 'revision' in module.params and module.params['revision']`
abbrev pub given_revision : Option ℤ → Option ℤ
given_revision none = none
given_revision (some r) = if eqb_ℤ r (pos 0) then none else some r

abbrev pub requested : Params → List Fields → Requested
requested p containers = record {
  volumes = p.volumes;
  containers = containers;
  task_role_arn = p.task_role_arn;
}

-- `existing`
unfoldable pub existing_definition : Params → List Fields → List TaskDef → Result (Option TaskDef)
unfolding existing_revision find_existing
existing_definition p containers tds = elim (given_revision p.revision) [
  | some r ↦ existing_revision r tds
  | none ↦ find_existing (requested p containers) tds
]

abbrev pub unchanged : Option TaskDef → Report
unchanged td = record { changed = false; taskdefinition = td }

abbrev pub changed_to : Option TaskDef → Report
changed_to td = record { changed = true; taskdefinition = td }

-- the task to describe, for `absent`
unfoldable pub task_to_describe : Params → Result TaskName
task_to_describe p = elim p.arn [
  | some a ↦ ok (arn a)
  | none ↦ elim p.family [
    | none ↦
        err (fail_json "To use task definitions, an arn or family and revision must be specified")
    | some family ↦ elim p.revision [
      | none ↦
          err (fail_json "To use task definitions, an arn or family and revision must be specified")
      | some r ↦ ok (family_revision family r)
    ]
  ]
]

module _ (c : Ecs) (h : Host) (pages : ℕ) where
  -- the registration, or what check mode does instead
  unfoldable pub create : Params → String → List Fields → Run c.World Report
  unfolding register_task
  create p family containers =
      if p.check_mode
      then return_ (changed_to none)
      else (register_task c h family p.task_role_arn p.execution_role_arn p.network_mode containers
            p.volumes p.launch_type p.cpu p.memory
          >>= λ td. return_ (changed_to (some td)))

  abbrev use_or_create : Params → String → List Fields → Option TaskDef → Run c.World Report
  use_or_create p family containers none = create p family containers
  use_or_create p family containers (some td) =
      if p.force_create then create p family containers else return_ (unchanged (some td))

  unfoldable pub ensure_present : Params → List Fields → Run c.World Report
  unfolding check_present describe_task_definitions existing_definition create
  ensure_present p containers = lift (check_present p) >>= λ family.
      describe_task_definitions c pages family >>= λ tds.
      lift (existing_definition p containers tds) >>= λ existing.
      use_or_create p family containers existing

  abbrev remove : Params → TaskName → Option TaskDef → Run c.World Report
  remove p name none = return_ (unchanged none)
  remove p name (some td) =
      if td.status == "INACTIVE"
      then return_ (unchanged (some td))
      else if p.check_mode
      then return_ (changed_to (some td))
      else deregister_task c name >>= λ _. return_ (changed_to (some td))

  unfoldable pub ensure_absent : Params → Run c.World Report
  unfolding task_to_describe describe_task deregister_task
  ensure_absent p = lift (task_to_describe p) >>= λ name.
      describe_task c name >>= λ existing. remove p name existing

  abbrev pub run_state : Params → List Fields → State → Run c.World Report
  run_state p containers present = ensure_present p containers
  run_state p containers absent = ensure_absent p

  unfoldable pub main : Params → Run c.World Report
  unfolding check_botocore with_environment ensure_present ensure_absent
  main p = lift (check_botocore h p) >>= λ _.
      lift (with_environment h p.containers) >>= λ containers. run_state p containers p.state
