-- ===== src/EcsTask/Main/Present.antt =====
-- The revision that a run with an explicit revision reports or registers.
use community_aws.Base.{
  ℕ, String, ◌≡◌, refl, sym, ap, ◌∙◌, ◌⊎◌, inl, inr, Bool, true, false, Option, none, some, List,
  if◌then◌else◌, Bool-cases, string_eq, nat_eq, bool_eq, option_eq, ok,
}
use mathlib.Core.Path.{subst}
use community_aws.Base.Int.{ℤ}
use community_aws.Base.Run.{Run, Outcome, done, return_, lift, bind-eq-done, done_inj}
use community_aws.EcsTask.Values.{Fields}
use community_aws.EcsTask.Match.{TaskDef}
use community_aws.EcsTask.Register.{Host, with_environment}
use community_aws.EcsTask.Manager.{Ecs, describe_task_definitions, register_task}
use community_aws.EcsTask.Main.{
  present, Params, Report, check_botocore, check_present, with_revision, existing_revision,
  check_revision, given_revision, existing_definition, unchanged, changed_to, create, use_or_create,
  ensure_present, run_state, main,
}
use community_aws.EcsTask.Main.CheckMode.{describe_task_definitions-Keeps}
use community_aws.EcsTask.Main.Next.{
  lift_done, with_revision-found, IsNext, IsActiveAt, check_revision-cases, check_present-family,
}

module _ (c : Ecs) (h : Host) (pages : ℕ) (p : Params) where
  create-changed :
      (family : String) (l : List Fields) (w w' : c.World) (report : Report)
      → create c h pages p family l w ≡ done (report, w')
      → report.changed ≡ true
  unfolding create
  create-changed family l w w' report ran = elim (Bool-cases p.check_mode) [
    | inl check ↦ ap (λ (x : Report). x.changed) (sym (done_inj (rw check at ran)).0)
    | inr no_check ↦
        let (td, v, registered, after) =
          bind-eq-done
            (register_task c h family p.task_role_arn p.execution_role_arn p.network_mode l
              p.volumes p.launch_type p.cpu p.memory)
            (λ td. return_ (changed_to (some td))) w w' report (rw no_check at ran) in
        ap (λ (x : Report). x.changed) (sym (done_inj after).0)
  ]

  -- the report of a definition that is there, and one of a change
  abbrev Reused : ℤ → List TaskDef → c.World → c.World → Report → Type 0
  Reused r tds w w' report =
      (td : TaskDef) × IsActiveAt r tds td × (report ≡ unchanged (some td)) × (w' ≡ w)

  abbrev Created : ℤ → List TaskDef → Report → Type 0
  Created r tds report = (report.changed ≡ true) × ((p.force_create ≡ true) ⊎ IsNext r tds)

  if_true :
      {b : Bool} (m n : Run c.World Report) {o : Outcome (Report × c.World)} {w : c.World}
      → b ≡ true
      → (if b then m else n) w ≡ o
      → m w ≡ o
  if_true {b = true} m n e k = k
  if_true {b = false} m n e k = cc

  use_or_create-revision :
      (family : String) (l : List Fields) (r : ℤ) (tds : List TaskDef) (o : Option TaskDef)
      (w w' : c.World) (report : Report)
      → ((td : TaskDef) × (o ≡ some td) × IsActiveAt r tds td) ⊎ ((o ≡ none) × IsNext r tds)
      → use_or_create c h pages p family l o w ≡ done (report, w')
      → Reused r tds w w' report ⊎ Created r tds report
  use_or_create-revision family l r tds none w w' report answer ran = elim answer [
    | inl (td, wrong, active) ↦ cc wrong
    | inr (e, next) ↦ inr (create-changed family l w w' report ran, inr next)
  ]
  use_or_create-revision family l r tds (some td) w w' report answer ran =
      elim (Bool-cases p.force_create) [
        | inl force ↦ inr (
          create-changed family l w w' report
              (if_true (create c h pages p family l) (return_ (unchanged (some td))) force ran),
          inl force,
        )
        | inr no_force ↦
            let e = done_inj (rw no_force at ran) in
            elim answer [
              | inl (x, same, active) ↦
                  inl (x, active, sym e.0 ∙ ap (λ y. unchanged y) same, sym e.1)
              | inr (wrong, next) ↦ cc wrong
            ]
      ]

  existing_definition-given :
      (l : List Fields) (r : ℤ) (tds : List TaskDef)
      → given_revision p.revision ≡ some r
      → existing_definition p l tds ≡ check_revision r tds (with_revision r tds)
  unfolding existing_definition existing_revision
  existing_definition-given l r tds given = rw (given, existing_definition) refl

  -- what a run for `present` that ends went through
  pub ensure_present-done :
      (l : List Fields) (w w' : c.World) (report : Report)
      → ensure_present c h pages p l w ≡ done (report, w')
      → (family : String) × (tds : List TaskDef) × (o : Option TaskDef) × (check_present p
          ≡ ok family)
        × (describe_task_definitions c pages family w ≡ done (tds, w))
        × (existing_definition p l tds ≡ ok o)
        × (use_or_create c h pages p family l o w ≡ done (report, w'))
  unfolding ensure_present
  ensure_present-done l w w' report ran =
      let (family, v1, checked, next1) = bind-eq-done (lift (check_present p)) _ w w' report ran in
      let (tds, v2, described, next2) =
        bind-eq-done (describe_task_definitions c pages family) _ v1 w' report next1 in
      let (o, v3, decided, next3) =
        bind-eq-done (lift (existing_definition p l tds)) _ v2 w' report next2 in
      let (family_ok, same1) = lift_done (check_present p) family w v1 checked in
      let same2 : v2 ≡ w =
        describe_task_definitions-Keeps c pages family v1 v2 tds described ∙ same1 in
      let (decision, same3) = lift_done (existing_definition p l tds) o v2 v3 decided in
      (
        family,
        tds,
        o,
        family_ok,
        subst (λ x. describe_task_definitions c pages family x ≡ done (tds, w)) same1
            (subst (λ x. describe_task_definitions c pages family v1 ≡ done (tds, x)) same2
              described),
        decision,
        subst (λ x. use_or_create c h pages p family l o x ≡ done (report, w')) (same3 ∙ same2)
            next3,
      )

  ensure_present-revision :
      (l : List Fields) (r : ℤ) (w w' : c.World) (report : Report)
      → given_revision p.revision ≡ some r
      → ensure_present c h pages p l w ≡ done (report, w')
      → (family : String) × (tds : List TaskDef) × (p.family ≡ some family)
        × (describe_task_definitions c pages family w ≡ done (tds, w))
        × (Reused r tds w w' report ⊎ Created r tds report)
  ensure_present-revision l r w w' report given ran =
      let (family, tds, o, checked, described, decision, after) =
        ensure_present-done l w w' report ran in
      (
        family,
        tds,
        check_present-family p family checked,
        described,
        use_or_create-revision family l r tds o w w' report
            (check_revision-cases r tds (with_revision r tds) o (λ td. with_revision-found r tds td)
              (sym (existing_definition-given l r tds given) ∙ decision))
            after,
      )

  pub main-present :
      (w w' : c.World) (report : Report)
      → p.state ≡ present
      → main c h pages p w ≡ done (report, w')
      → (l : List Fields) × (with_environment h p.containers ≡ ok l)
        × (ensure_present c h pages p l w ≡ done (report, w'))
  unfolding main
  main-present w w' report st ran =
      let (u, v1, checked, next1) = bind-eq-done (lift (check_botocore h p)) _ w w' report ran in
      let (l, v2, texts, next2) =
        bind-eq-done (lift (with_environment h p.containers)) _ v1 w' report next1 in
      let (made, same2) = lift_done (with_environment h p.containers) l v1 v2 texts in
      let same : v2 ≡ w = same2 ∙ (lift_done (check_botocore h p) u w v1 checked).1 in
      (
        l,
        made,
        subst (λ x. ensure_present c h pages p l x ≡ done (report, w')) same
            (at_present l v2 next2),
      )
    where
      at_present :
          (l : List Fields) (v : c.World)
          → run_state c h pages p l p.state v ≡ done (report, w')
          → ensure_present c h pages p l v ≡ done (report, w')
      at_present l v k = subst (λ x. run_state c h pages p l x v ≡ done (report, w')) st k

-- A run with an explicit revision that ends with a report either reports an active definition with
-- that revision, of those that the service lists for the family that was asked for, unchanged, and
-- leaves the service as it was, or it reports a change; and it changes only if a registration is
-- forced, or the revision that was asked for is one more than that of the last definition that the
-- service lists, or 1 if it lists none.
pub main-revision :
    (c : Ecs) (h : Host) (pages : ℕ) (p : Params) (r : ℤ) (w w' : c.World) (report : Report)
    → p.state ≡ present
    → given_revision p.revision ≡ some r
    → main c h pages p w ≡ done (report, w')
    → (family : String) × (tds : List TaskDef) × (p.family ≡ some family)
      × (describe_task_definitions c pages family w ≡ done (tds, w))
      × (((td : TaskDef) × IsActiveAt r tds td × (report ≡ unchanged (some td)) × (w' ≡ w))
          ⊎ ((report.changed ≡ true) × ((p.force_create ≡ true) ⊎ IsNext r tds)))
main-revision c h pages p r w w' report st given ran =
    let (l, made, here) = main-present c h pages p w w' report st ran in
    ensure_present-revision c h pages p l r w w' report given here
