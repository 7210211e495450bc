-- ===== src/EcsTask/Main/Twice.antt =====
-- A second run of the module finds what the first one registered.
use community_aws.Base.{
  ℕ, String, ◌≡◌, refl, sym, ◌∙◌, inl, inr, true, false, Option, none, some, List, [], ◌∷◌, ◌++◌,
  string_eq, nat_eq, bool_eq, option_eq, key_error, value_error, type_error, index_error,
  unbound_local_error, fail_json, client_error, ok, Result-cases, ok_inj,
}
use mathlib.Core.Path.{subst}
use community_aws.Base.Run.{done, return_, lift, ◌>>=◌, bind-eq-done, done_inj}
use community_aws.EcsTask.Values.{Fields}
use community_aws.EcsTask.Match.{TaskDef, Requested, task_definition_matches, find_existing}
use community_aws.EcsTask.Match.Same.{
  Filling, IsCurrent, IsComplete, task_definition_matches-current,
}
use community_aws.EcsTask.Register.{Host, Registration, with_environment, validated_containers}
use community_aws.EcsTask.Manager.{
  Ecs, registration, describe_task_definitions, register_call, register_task,
}
use community_aws.EcsTask.Main.{
  present, Params, Report, check_botocore, check_present, given_revision, requested,
  existing_definition, unchanged, changed_to, create, use_or_create, ensure_present, main,
}
use community_aws.EcsTask.Main.Next.{lift_done}
use community_aws.EcsTask.Main.Present.{main-present, ensure_present-done}

find_existing-append :
    (r : Requested) (tds l : List TaskDef)
    → find_existing r tds ≡ ok none
    → find_existing r (tds ++ l) ≡ find_existing r l
unfolding find_existing
find_existing-append r [] l h = refl
find_existing-append r (td ∷ tds) l h = elim (Result-cases (task_definition_matches r td)) [
  | inr (e, failed) ↦ cc (rw failed at h)
  | inl (true, same) ↦ cc (rw same at h)
  | inl (false, other) ↦ rw other (find_existing-append r tds l (rw other at h))
]

-- What a registration leaves: the service lists it behind the definitions of the family that it listed
-- before, active, with the role that was asked for, and with the volumes and containers, into which
-- it fills what it likes.
pub record IsRegistering (c : Ecs) (pages : ℕ) (f : Filling) : Type 0 where
  pub lists :
      (r : Registration) (w w' : c.World) (td : TaskDef) (tds : List TaskDef)
      → c.register_task_definition r w ≡ ok (td, w')
      → describe_task_definitions c pages r.family w ≡ done (tds, w)
      → describe_task_definitions c pages r.family w' ≡ done (tds ++ td ∷ [], w')
  pub registers :
      (r : Registration) (w w' : c.World) (td : TaskDef)
      → c.register_task_definition r w ≡ ok (td, w')
      → IsCurrent f
          (record {
            volumes = r.volumes;
            containers = r.container_definitions;
            task_role_arn = r.task_role_arn;
          })
          td

register_call-done :
    (c : Ecs) (r : Registration) (w w' : c.World) (td : TaskDef)
    → register_call c r w ≡ done (td, w')
    → c.register_task_definition r w ≡ ok (td, w')
register_call-done c r w w' td h = elim (Result-cases (c.register_task_definition r w)) [
  | inl ((x, v), e) ↦ let k = done_inj (rw (e, register_call) at h) in e ∙ rw (k.0, k.1) refl
  | inr (client_error m, e) ↦ cc (rw (e, register_call) at h)
  | inr (key_error m, e) ↦ cc (rw (e, register_call) at h)
  | inr (fail_json m, e) ↦ cc (rw (e, register_call) at h)
  | inr (value_error, e) ↦ cc (rw (e, register_call) at h)
  | inr (type_error, e) ↦ cc (rw (e, register_call) at h)
  | inr (index_error, e) ↦ cc (rw (e, register_call) at h)
  | inr (unbound_local_error, e) ↦ cc (rw (e, register_call) at h)
]

-- what a run for `present` without a revision is asked for
pub record IsAsked (h : Host) (p : Params) (f : Filling) (l : List Fields) : Type 0 where
  pub is_present : p.state ≡ present
  pub no_revision : given_revision p.revision ≡ none
  pub not_forced : p.force_create ≡ false
  pub no_check : p.check_mode ≡ false
  -- the containers, with the texts of their environments
  pub texts : with_environment h p.containers ≡ ok l
  -- their numbers are integers already
  pub numbers : validated_containers h p.network_mode l ≡ ok l
  -- what the service fills in makes no difference
  pub complete : IsComplete f (requested p l)

module _ (c : Ecs) (h : Host) (pages : ℕ) (p : Params) (f : Filling) (l : List Fields)
    (a : IsAsked h p f l) where
  abbrev asked_registration : String → Registration
  asked_registration family =
      registration family p.task_role_arn p.execution_role_arn p.network_mode l p.volumes
        p.launch_type p.cpu p.memory

  create-registers :
      (family : String) (w w' : c.World) (report : Report)
      → create c h pages p family l w ≡ done (report, w')
      → (td : TaskDef) × (report ≡ changed_to (some td))
        × (c.register_task_definition (asked_registration family) w ≡ ok (td, w'))
  unfolding create register_task
  create-registers family w w' report ran =
      let (td, v, registered, after) =
        bind-eq-done (register_call c (asked_registration family))
          (λ td. return_ (changed_to (some td))) w w' report
          (rw (a.no_check, a.numbers, ◌>>=◌) at ran) in
      let e = done_inj after in
      (
        td,
        sym e.0,
        register_call-done c (asked_registration family) w w' td (
            subst (λ x. register_call c (asked_registration family) w ≡ done (td, x)) e.1
              registered),
      )

  existing_definition-searched :
      (tds : List TaskDef) → existing_definition p l tds ≡ find_existing (requested p l) tds
  unfolding existing_definition
  existing_definition-searched tds = rw (a.no_revision, existing_definition) refl

  -- a run that finds a definition
  main-found :
      (family : String) (tds : List TaskDef) (td : TaskDef) (w : c.World)
      → check_botocore h p ≡ ok tt
      → check_present p ≡ ok family
      → describe_task_definitions c pages family w ≡ done (tds, w)
      → find_existing (requested p l) tds ≡ ok (some td)
      → main c h pages p w ≡ done (unchanged (some td), w)
  unfolding main ensure_present
  main-found family tds td w new checked described found =
      rw
        (
          new,
          ◌>>=◌,
          a.texts,
          a.is_present,
          checked,
          described,
          existing_definition-searched tds,
          found,
          a.not_forced,
        )
        refl

  -- the definitions after a registration have one that matches
  registered-found :
      (law : IsRegistering c pages f) (family : String) (tds : List TaskDef) (td : TaskDef)
      (w w' : c.World)
      → c.register_task_definition (asked_registration family) w ≡ ok (td, w')
      → find_existing (requested p l) tds ≡ ok none
      → find_existing (requested p l) (tds ++ td ∷ []) ≡ ok (some td)
  unfolding find_existing
  registered-found law family tds td w w' registered missing =
      find_existing-append (requested p l) tds (td ∷ []) missing
      ∙ rw
          (task_definition_matches-current f (requested p l) td a.complete
            (law.registers (asked_registration family) w w' td registered))
          refl

  again :
      (law : IsRegistering c pages f) (family : String) (tds : List TaskDef) (o : Option TaskDef)
      (w w' : c.World) (report : Report)
      → check_botocore h p ≡ ok tt
      → check_present p ≡ ok family
      → describe_task_definitions c pages family w ≡ done (tds, w)
      → find_existing (requested p l) tds ≡ ok o
      → use_or_create c h pages p family l o w ≡ done (report, w')
      → main c h pages p w' ≡ done (unchanged report.taskdefinition, w')
  again law family tds none w w' report new checked described missing ran =
      let (td, e, registered) = create-registers family w w' report ran in
      rw e (
        main-found family (tds ++ td ∷ []) td w' new checked
          (law.lists (asked_registration family) w w' td tds registered described)
          (registered-found law family tds td w w' registered missing))
  again law family tds (some td) w w' report new checked described found ran =
      let e = done_inj (rw a.not_forced at ran) in
      subst (λ (x : Report). main c h pages p w' ≡ done (unchanged x.taskdefinition, w')) e.0
        (subst (λ v. main c h pages p v ≡ done (unchanged (some td), v)) e.1
          (main-found family tds td w new checked described found))

-- Where a run for `present`, without a revision, that is not forced and not in check mode, ends with a
-- report, a second run reports the same definition, unchanged, and leaves the service as it is:
-- it registers no revision again. The service may fill in what it likes, but what it fills into the
-- volumes and containers of this request has to be false, or to agree with what was asked for, and the
-- comparisons with it may not raise; the numbers of the containers have to be integers already.
pub main-twice :
    (c : Ecs) (h : Host) (pages : ℕ) (p : Params) (f : Filling) (l : List Fields) (w w' : c.World)
    (report : Report)
    → IsRegistering c pages f
    → IsAsked h p f l
    → main c h pages p w ≡ done (report, w')
    → main c h pages p w' ≡ done (unchanged report.taskdefinition, w')
unfolding main ensure_present
main-twice c h pages p f l w w' report law a ran =
    let (u, v0, new, next0) = bind-eq-done (lift (check_botocore h p)) _ w w' report ran in
    let (l', made, here) = main-present c h pages p w w' report a.is_present ran in
    let same : l' ≡ l = ok_inj (sym made ∙ a.texts) in
    let ran' = subst (λ x. ensure_present c h pages p x w ≡ done (report, w')) same here in
    let (family, tds, o, checked, described, decision, after) =
      ensure_present-done c h pages p l w w' report ran' in
    again c h pages p f l a law family tds o w w' report
      (lift_done (check_botocore h p) u w v0 new).0 checked described
      (sym (existing_definition-searched c h pages p f l a tds) ∙ decision) after
