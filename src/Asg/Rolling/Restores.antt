-- ===== src/Asg/Rolling/Restores.antt =====
-- The sizes of the group when a rolling replacement is over.
use community_aws.Base.{
  ℕ, ◌≡◌, refl, sym, inl, inr, Bool, true, if◌then◌else◌, string_eq, nat_eq, bool_eq, option_eq, ok,
  Result-cases,
}
use mathlib.Core.Path.{subst}
use community_aws.Base.Int.{ℤ}
use community_aws.Base.Run.{Run, done, return_, lift, ◌>>=◌, ◌>>◌, bind-eq-done, done_inj}
use community_aws.Asg.Properties.{Group, Props, get_properties}
use community_aws.Asg.Wait.{Service, first_group}
use community_aws.Asg.Batch.{int_or}
use community_aws.Asg.Replace.{ReplaceParams, Sizes, Plan, start_replace}
use community_aws.Asg.Cloud.{Cloud, Update, size_update, describe_group, update_asg, update_size}
use community_aws.Asg.Rolling.{
  Waiting, sizes_of, instances_to_replace, await_new, roll_all, set_sizes, enlarge, roll_group,
  follow, replace,
}

-- The group that is described after an update has the sizes of the update, and keeps those that the
-- update does not give.
pub record IsUpdating (s : Service) (c : Cloud s) : Type 0 where
  pub updates :
      (u : Update) (w w' : s.World)
      → c.update_auto_scaling_group u w ≡ ok w'
      → (g : Group) × (first_group (s.describe w') ≡ ok g)
        × (g.min_size ≡ u.min_size)
        × (g.max_size ≡ int_or u.max_size g.max_size)
        × (g.desired_capacity ≡ int_or u.desired_capacity g.desired_capacity)

-- the state describes a group with the sizes, and the properties are that group's
abbrev pub HasSizes : (s : Service) → Sizes → Props → s.World → Type 0
HasSizes s sizes props w =
    (g : Group) × (first_group (s.describe w) ≡ ok g)
    × (g.min_size ≡ sizes.min_size)
    × (g.max_size ≡ sizes.max_size)
    × (g.desired_capacity ≡ sizes.desired_capacity)
    × (props ≡ get_properties g)

abbrev Results : {W A : Type 0} → (A → W → Type 0) → Run W A → Type 0
Results {W} {A} Q m = (w w' : W) (a : A) → m w ≡ done (a, w') → Q a w'

Results-bind :
    {W A B : Type 0} (Q : B → W → Type 0) (m : Run W A) (next : A → Run W B)
    → ((a : A) → Results Q (next a))
    → Results Q (m >>= next)
Results-bind Q m next k w w' b h = let (a, v, e, f) = bind-eq-done m next w w' b h in k a v w' b f

module _ (s : Service) (c : Cloud s) (law : IsUpdating s c) (fuel : ℕ) (wt : Waiting) where
  abbrev Rolled : Sizes → Bool × Props → s.World → Type 0
  Rolled sizes (changed, props) w = (changed ≡ true) × HasSizes s sizes props w

  -- the update and the description behind the loop
  set_sizes-Rolled :
      (g : Group) (sizes : Sizes) → Results (Rolled sizes) (set_sizes s c fuel g sizes)
  unfolding set_sizes update_size update_asg describe_group
  set_sizes-Rolled g sizes w w' r h =
      elim (Result-cases (c.update_auto_scaling_group (size_update g sizes) w)) [
        | inr (x, failed) ↦ cc (rw (failed, ◌>>=◌) at h)
        | inl (v, changed) ↦
            let (g', got, least, most, desired) = law.updates (size_update g sizes) w v changed in
            let e = done_inj (rw (changed, ◌>>=◌, got) at h) in
            subst (λ x. Rolled sizes x w') e.0
              (refl, (g', rw (← e.1) got, least, most, desired, refl))
      ]

  roll_group-Rolled :
      (p : ReplaceParams) (g : Group) (n : ℤ) (sizes : Sizes)
      → Results (Rolled (sizes_of p g)) (roll_group s c fuel wt p g n sizes)
  unfolding roll_group
  roll_group-Rolled p g n sizes = Results-bind _ (describe_group s) _ (λ g1.
      Results-bind _ (enlarge s c fuel wt g1 n sizes) _ (λ u.
        Results-bind _ (describe_group s) _ (λ g2.
          Results-bind _ (roll_all s c fuel wt p.batch (instances_to_replace p g g2) n) _
            (λ v. set_sizes-Rolled g2 (sizes_of p g)))))

  -- A replacement that rolls and ends with a result reports a change. The group that the service
  -- describes then has the sizes that were asked for, with those that the group had at the start for
  -- the ones that were not, and the reported properties are that group's.
  pub replace-restores :
      (p : ReplaceParams) (g : Group) (n : ℤ) (sizes : Sizes) (w w' : s.World) (changed : Bool)
      (props : Props)
      → first_group (s.describe w) ≡ ok g
      → start_replace p g ≡ ok (Plan.roll n sizes)
      → replace s c fuel wt p w ≡ done ((changed, props), w')
      → (changed ≡ true) × HasSizes s (sizes_of p g) props w'
  unfolding replace describe_group follow
  replace-restores p g n sizes w w' changed props got planned h =
      let (g1, v, there, next) = bind-eq-done (describe_group s) _ w w' (changed, props) h in
      let same : g ≡ g1 = (done_inj (rw got at there)).0 in
      let (plan, v2, decided, followed) =
        bind-eq-done
          ((if wt.wait_for_instances then await_new s c fuel wt g1.min_size else return_ tt)
            >> lift (start_replace p g1))
          (λ plan. follow s c fuel wt p g1 plan) v w' (changed, props) next in
      let (u, v3, waited_, lifted) =
        bind-eq-done
          (if wt.wait_for_instances then await_new s c fuel wt g1.min_size else return_ tt)
          (λ u. lift (start_replace p g1)) v v2 plan decided in
      let planned' : start_replace p g1 ≡ ok (Plan.roll n sizes) = rw (← same) planned in
      let rolled : Plan.roll n sizes ≡ plan = (done_inj (rw planned' at lifted)).0 in
      let ran =
        subst (λ x. follow s c fuel wt p g1 x v2 ≡ done ((changed, props), w')) (sym rolled)
          followed in
      subst (λ x. Rolled (sizes_of p x) (changed, props) w') (sym same)
        (roll_group-Rolled p g1 n sizes v2 w' (changed, props) ran)
