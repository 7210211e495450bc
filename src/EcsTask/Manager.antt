-- ===== src/EcsTask/Manager.antt =====
-- The class `EcsTaskManager`: the calls of the service, which are parameters, and the methods on
-- them. `describe_task_definitions` takes the number of the pages that it may read; it is endless when
-- there are more.
pub mod Laws
use community_aws.Base.{
  some_inj, is_within, is_empty, ℕ, zero, suc, ◌+◌, ◌-◌, ◌*◌, ◌≤◌, ◌<◌, String, ◌≡◌, refl, sym, ap,
  ◌∙◌, ◌≢◌, ◌↔◌, ◌⊎◌, inl, inr, Bool, true, false, ◌&&◌, ◌||◌, not, Option, none, some, List, [],
  ◌∷◌, ◌++◌, map, arith, ℕ_discrete, ltb, leb, eqb, if◌then◌else◌, Bool-cases, Sum-cases,
  Option-cases, eqb_iff, length, take, drop, filter, any, all, All, filter-filter, filter-append,
  contains, contains-append, contains-filter, length-append, length-take, length-drop,
  take-append-drop, Eq, ◌==◌, ==_iff, ==_refl, ==_false, String-discrete, string_eq, nat_eq,
  bool_eq, option_eq, Option-discrete, upper, lower, lower, Error, key_error, value_error,
  type_error, index_error, unbound_local_error, fail_json, client_error, Result, ok, err, ◌>>◌,
  or_raise, raise_if, >>=-eq-ok, for_each, Result-cases, ok_pair, ok_inj, some_ok_pair,
}
use community_aws.Base.Run.{Run, Outcome, done, raised, endless, return_, look, lift, raise, ◌>>=◌}
use community_aws.EcsTask.Values.{Fields}
use community_aws.EcsTask.Match.{TaskDef}
use community_aws.EcsTask.Register.{Host, Registration, non_empty, validated_containers}
use community_aws.Base.Int.{ℤ}

-- an ARN, or the text of a family, a colon and a revision
pub data TaskName : Type 0 where
  arn : String → TaskName
  family_revision : String → ℤ → TaskName

-- A ClientError is a `client_error` with its message.
pub record Ecs : Type 1 where
  pub World : Type 0
  -- the ARNs of a page, and `nextToken`
  pub list_task_definitions : String → Option String → World → Result (List String × Option String)
  pub describe_task_definition : TaskName → World → Result TaskDef
  pub register_task_definition : Registration → World → Result (TaskDef × World)
  pub deregister_task_definition : TaskName → World → Result World

-- the body of `register_task` in front of the call
abbrev pub registration :
    String
    → String
    → String
    → String
    → List Fields
    → List Fields
    → Option String
    → Option String
    → Option String
    → Registration
registration family role execution_role network_mode containers volumes launch_type cpu memory =
    record {
      family = family;
      task_role_arn = role;
      container_definitions = containers;
      volumes = volumes;
      network_mode = if network_mode == "default" then none else some network_mode;
      cpu = non_empty cpu;
      memory = non_empty memory;
      launch_type = non_empty launch_type;
      execution_role_arn = non_empty (some execution_role);
    }

-- `sorted(…, key=lambda td: td['revision'])`: in ascending order, equal keys in the order they had
unfoldable pub insert_by_revision : TaskDef → List TaskDef → List TaskDef
insert_by_revision td [] = td ∷ []
insert_by_revision td (x ∷ l) =
    if leb td.revision x.revision then td ∷ x ∷ l else x ∷ insert_by_revision td l

unfoldable pub sorted_by_revision : List TaskDef → List TaskDef
unfolding insert_by_revision
sorted_by_revision [] = []
sorted_by_revision (td ∷ l) = insert_by_revision td (sorted_by_revision l)

module _ (c : Ecs) where
  abbrev pub ask : {A : Type 0} → (c.World → Result A) → Run c.World A
  ask call = look call >>= lift

  abbrev pub none_if_refused : Result TaskDef → Result (Option TaskDef)
  none_if_refused (ok td) = ok (some td)
  none_if_refused (err (client_error m)) = ok none
  none_if_refused (err e) = err e

  -- `describe_task`
  unfoldable pub describe_task : TaskName → Run c.World (Option TaskDef)
  describe_task name = ask (λ w. none_if_refused (c.describe_task_definition name w))

  -- the loop of `fetch`, with the ARNs of the pages before and the token
  unfoldable pub fetch : ℕ → String → List String → Option String → Run c.World (List String)
  fetch zero family arns token w = endless
  fetch (suc pages) family arns token w =
      let page = ask (c.list_task_definitions family (non_empty token)) >>= λ (more, next).
      elim next [
        | none ↦ return_ (arns ++ more)
        | some t ↦ fetch pages family (arns ++ more) (some t)
      ] in
      page w

  unfoldable pub describe_each : List String → Run c.World (List TaskDef)
  describe_each [] = return_ []
  describe_each (a ∷ arns) = ask (c.describe_task_definition (arn a)) >>= λ td.
      describe_each arns >>= λ tds. return_ (td ∷ tds)

  unfoldable pub describe_task_definitions : ℕ → String → Run c.World (List TaskDef)
  unfolding fetch describe_each sorted_by_revision
  describe_task_definitions pages family = fetch pages family [] none >>= λ arns.
      describe_each arns >>= λ tds. return_ (sorted_by_revision tds)

  -- the call of `register_task`: a ClientError is passed to `fail_json`
  abbrev pub register_call : Registration → Run c.World TaskDef
  register_call r w = elim (c.register_task_definition r w) [
    | ok (td, w') ↦ done (td, w')
    | err (client_error m) ↦ raised (fail_json m)
    | err e ↦ raised e
  ]

  unfoldable pub register_task :
      Host
      → String
      → String
      → String
      → String
      → List Fields
      → List Fields
      → Option String
      → Option String
      → Option String
      → Run c.World TaskDef
  unfolding validated_containers
  register_task h family role execution_role network_mode containers volumes launch_type cpu
        memory =
      lift (validated_containers h network_mode containers) >>= λ valid.
      register_call
        (registration family role execution_role network_mode valid volumes launch_type cpu memory)

  unfoldable pub deregister_task : TaskName → Run c.World (Unit {0})
  deregister_task name w = elim (c.deregister_task_definition name w) [
    | ok w' ↦ done (tt, w')
    | err e ↦ raised e
  ]
