-- ===== src/EcsTask/Main/Absent.antt =====
-- What a run for `absent` leaves.
use community_aws.Base.{
  some_inj, ℕ, ◌≡◌, ap, ◌⊎◌, inl, inr, false, Option, none, some, Bool-cases, ◌==◌, ==_iff,
  string_eq, nat_eq, bool_eq, option_eq, key_error, value_error, type_error, index_error,
  unbound_local_error, fail_json, client_error, Result, ok, err, Result-cases, ok_inj,
}
use mathlib.Core.Path.{subst}
use community_aws.Base.Run.{done, return_, lift, ◌>>=◌, bind-eq-done, done_inj}
use community_aws.EcsTask.Match.{TaskDef}
use community_aws.EcsTask.Register.{Host, with_environment}
use community_aws.EcsTask.Manager.{TaskName, Ecs, describe_task, deregister_task}
use community_aws.EcsTask.Main.{
  absent, Params, Report, check_botocore, changed_to, task_to_describe, remove, ensure_absent,
  run_state, main,
}
use community_aws.EcsTask.Manager.{none_if_refused}
use community_aws.EcsTask.Main.Next.{lift_done}

-- A definition that is deregistered is still described, as INACTIVE.
pub record IsDeregistering (c : Ecs) : Type 0 where
  pub deregisters :
      (name : TaskName) (w w' : c.World)
      → c.deregister_task_definition name w ≡ ok w'
      → (td : TaskDef) × (c.describe_task_definition name w' ≡ ok td) × (td.status ≡ "INACTIVE")

-- the service refuses to describe the definition, or describes it as INACTIVE
abbrev pub IsInactive : (c : Ecs) → TaskName → c.World → Type 0
IsInactive c name w =
    (none_if_refused c (c.describe_task_definition name w) ≡ ok none)
    ⊎ ((td : TaskDef) × (c.describe_task_definition name w ≡ ok td) × (td.status ≡ "INACTIVE"))

module _ (c : Ecs) (law : IsDeregistering c) (h : Host) (pages : ℕ) (p : Params)
    (no_check : p.check_mode ≡ false) where
  deregister_task-IsInactive :
      (name : TaskName) (w w' : c.World) (u : Unit {0})
      → deregister_task c name w ≡ done (u, w')
      → IsInactive c name w'
  unfolding deregister_task
  deregister_task-IsInactive name w w' u ran =
      elim (Result-cases (c.deregister_task_definition name w)) [
        | inl (v, e) ↦
            subst (IsInactive c name) (done_inj (rw (e, deregister_task) at ran)).1
              (inr (law.deregisters name w v e))
        | inr (x, e) ↦ cc (rw (e, deregister_task) at ran)
      ]

  remove-IsInactive :
      (name : TaskName) (o : Option TaskDef) (w w' : c.World) (report : Report)
      → none_if_refused c (c.describe_task_definition name w) ≡ ok o
      → remove c h pages p name o w ≡ done (report, w')
      → IsInactive c name w'
  remove-IsInactive name none w w' report described ran =
      subst (IsInactive c name) (done_inj ran).1 (inl described)
  remove-IsInactive name (some td) w w' report described ran =
      elim (Bool-cases (td.status == "INACTIVE")) [
        | inl inactive ↦ subst (IsInactive c name) (done_inj (rw inactive at ran)).1 (
            inr (
              td,
              described_as (c.describe_task_definition name w) td described,
              (==_iff td.status "INACTIVE").0 inactive,
            ))
        | inr active ↦
            let (u, v, deregistered, after) =
              bind-eq-done (deregister_task c name) (λ _. return_ (changed_to (some td))) w w'
                report (rw (active, no_check) at ran) in
            subst (IsInactive c name) (done_inj after).1
              (deregister_task-IsInactive name w v u deregistered)
      ]
    where
      described_as :
          (r : Result TaskDef) (td : TaskDef) → none_if_refused c r ≡ ok (some td) → r ≡ ok td
      described_as (ok x) td k = ap ok (some_inj (ok_inj k))
      described_as (err (client_error m)) td k = cc
      described_as (err (key_error m)) td k = cc
      described_as (err (fail_json m)) td k = cc
      described_as (err value_error) td k = cc
      described_as (err type_error) td k = cc
      described_as (err index_error) td k = cc
      described_as (err unbound_local_error) td k = cc

  -- After a run for `absent`, out of check mode, that ends with a report, the definition that the
  -- parameters name is one that the service refuses to describe, or describes as INACTIVE.
  pub main-IsInactive :
      (name : TaskName) (w w' : c.World) (report : Report)
      → p.state ≡ absent
      → task_to_describe p ≡ ok name
      → main c h pages p w ≡ done (report, w')
      → IsInactive c name w'
  unfolding main ensure_absent describe_task
  main-IsInactive name w w' report st named ran =
      let (u, v0, new, next0) = bind-eq-done (lift (check_botocore h p)) _ w w' report ran in
      let (l, v1, texts, next1) =
        bind-eq-done (lift (with_environment h p.containers)) _ v0 w' report next0 in
      let here : ensure_absent c h pages p v1 ≡ done (report, w') =
        subst (λ x. run_state c h pages p l x v1 ≡ done (report, w')) st next1 in
      let (o, v2, described, next2) =
        bind-eq-done (describe_task c name) _ v1 w' report (rw (named, ◌>>=◌) at here) in
      let (decision, same) =
        lift_done (none_if_refused c (c.describe_task_definition name v1)) o v1 v2 described in
      remove-IsInactive name o v1 w' report decision
        (subst (λ x. remove c h pages p name o x ≡ done (report, w')) same next2)
