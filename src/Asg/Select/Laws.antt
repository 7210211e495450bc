-- ===== src/Asg/Select/Laws.antt =====
-- New and old instances, and the instances to terminate.
use community_aws.Base.{
  String, ◌≡◌, refl, ap, ◌∙◌, inl, inr, Bool, true, false, ◌||◌, some, List, [], ◌∷◌, ◌++◌, arith,
  if◌then◌else◌, Option-cases, filter, All, contains, contains-append, contains-filter, string_eq,
  nat_eq, bool_eq, option_eq, Result, ok, Result-cases, ok_pair, ok_inj,
}
use mathlib.Core.List.{Perm, append-nil, append_assoc, perm_middle}
use mathlib.Core.List.Perm
use mathlib.Core.Path.{subst}
use community_aws.Asg.Properties.{Template, template_eq, Facts, Props, get_facts}
use community_aws.Asg.Select.{
  is_new_by_config, split_by, get_instances_by_launch_config, get_instances_by_launch_template,
  is_purgeable_by_config, collect, ParamKeys, list_purgeable_instances,
}

moved_perm :
    {a : List String} (i : String) (new old l : List String)
    → Perm a (((new ++ i ∷ []) ++ old) ++ l)
    → Perm a ((new ++ old) ++ i ∷ l)
moved_perm i new old l h = Perm.trans h (
    rw (append_assoc new (i ∷ []) old, append_assoc new (i ∷ old) l, append_assoc new old (i ∷ l))
      (Perm.append_left new (Perm.symm (perm_middle old l))))

split_by-perm :
    (t : String → Result Bool) (l : List String) (new old new' old' : List String)
    → split_by t l (new, old) ≡ ok (new', old')
    → Perm (new' ++ old') ((new ++ old) ++ l)
unfolding split_by
split_by-perm t [] new old new' old' h =
    rw (append-nil, (ok_pair h).0, (ok_pair h).1) (Perm.refl (new' ++ old'))
split_by-perm t (i ∷ l) new old new' old' h = elim (Result-cases (t i)) [
  | inr (e, raised) ↦ cc (rw raised at h)
  | inl (true, tested) ↦
      moved_perm i new old l (split_by-perm t l (new ++ i ∷ []) old new' old' (rw tested at h))
  | inl (false, tested) ↦
      subst (λ x. Perm (new' ++ old') x) (simp append_assoc)
        (split_by-perm t l new (old ++ i ∷ []) new' old' (rw tested at h))
]

-- Whatever the check, the new and the old instances together are the instances of the group, each
-- in one of the two lists, by launch configuration and by launch template.
get_instances-perm :
    (by_config : Bool) (props : Props) (check : Bool) (initial new old : List String)
    → (if by_config
        then get_instances_by_launch_config props check initial
        else get_instances_by_launch_template props check initial)
      ≡ ok (new, old)
    → Perm (new ++ old) props.instances
unfolding get_instances_by_launch_config get_instances_by_launch_template
get_instances-perm true props check initial new old h =
    split_by-perm _ props.instances [] [] new old h
get_instances-perm false props check initial new old h =
    split_by-perm _ props.instances [] [] new old h

All-if :
    (P : String → Type 0) (b : Bool) (i : String) (l : List String)
    → (b ≡ true → P i)
    → All P l
    → All P (if b then i ∷ l else l)
All-if P true i l p h = (p refl, h)
All-if P false i l p h = h

collect-All :
    (P : String → Type 0) (t : String → Result Bool) (l out : List String)
    → ((i : String) → t i ≡ ok true → P i)
    → collect t l ≡ ok out
    → All P out
unfolding collect
collect-All P t [] out k h = subst (All P) (ok_inj h) tt
collect-All P t (i ∷ l) out k h = elim (Result-cases (t i)) [
  | inr (e, raised) ↦ cc (rw raised at h)
  | inl (b, tested) ↦ elim (Result-cases (collect t l)) [
    | inr (e, raised) ↦ cc (rw (tested, raised) at h)
    | inl (rest, done) ↦
        subst (All P) (ok_inj (rw (tested, done) at h))
          (All-if P b i rest (λ e. k i (tested ∙ ap ok e)) (collect-All P t l rest k done))
  ]
]

-- With the check on, an instance that may be terminated is not a new one.
purgeable-not-new :
    (props : Props) (i : String)
    → is_purgeable_by_config props i ≡ ok true
    → is_new_by_config props i ≡ ok false
unfolding is_purgeable_by_config is_new_by_config
purgeable-not-new props i h = elim (Option-cases (get_facts i props.instance_facts)) [
  | inl missing ↦ cc (rw missing at h)
  | inr (f, e) ↦ elim (Option-cases f.launch_template) [
    | inr (t, has) ↦ rw (e, has)
    | inl bare ↦ elim (Option-cases f.launch_config_name) [
      | inl missing ↦ cc (rw (e, bare, missing) at h)
      | inr (own, is_own) ↦ elim (Option-cases props.launch_config_name) [
        | inl missing ↦ cc (rw (e, bare, is_own, missing) at h)
        | inr (name, is_name) ↦
            let k = rw (e, bare, is_own, is_name) at h in
            rw (e, bare, is_own, is_name) (ground (arith, k))
      ]
    ]
  ]
]

split_by-old :
    (t : String → Result Bool) (i : String) (l new old new' old' : List String)
    → split_by t l (new, old) ≡ ok (new', old')
    → t i ≡ ok false
    → (contains i l || contains i old) ≡ true
    → contains i old' ≡ true
unfolding split_by
split_by-old t i [] new old new' old' h f c = rw (← (ok_pair h).1) c
split_by-old t i (j ∷ l) new old new' old' h f c = elim (Result-cases (t j)) [
  | inr (e, raised) ↦ cc (rw raised at h)
  | inl (true, tested) ↦
      split_by-old t i l (new ++ j ∷ []) old new' old' (rw tested at h) f (ground (arith, tested))
  | inl (false, tested) ↦
      split_by-old t i l new (old ++ j ∷ []) new' old' (rw tested at h) f
        (ground (arith, contains-append i old (j ∷ [])))
]

contains-filter_of :
    (i : String) (p : String → Bool) (l : List String)
    → contains i (filter p l) ≡ true
    → (p i ≡ true) × (contains i l ≡ true)
contains-filter_of i p l h = ground (arith, contains-filter i p l)

collect-contains :
    (t : String → Result Bool) (i : String) (l out : List String)
    → collect t l ≡ ok out
    → t i ≡ ok true
    → contains i l ≡ true
    → contains i out ≡ true
unfolding collect
collect-contains t i [] out h p c = cc
collect-contains t i (j ∷ l) out h p c = elim (Result-cases (t j)) [
  | inr (e, raised) ↦ cc (rw raised at h)
  | inl (b, tested) ↦ elim (Result-cases (collect t l)) [
    | inr (e, raised) ↦ cc (rw (tested, raised) at h)
    | inl (rest, done) ↦
        rw (← ok_inj (rw (tested, done) at h))
          (ground (arith, p, tested, collect-contains t i l rest done p))
  ]
]

collect-of :
    (t : String → Result Bool) (i : String) (l out : List String)
    → collect t l ≡ ok out
    → contains i out ≡ true
    → (t i ≡ ok true) × (contains i l ≡ true)
unfolding collect
collect-of t i [] out h c = cc (rw (← ok_inj h) at c)
collect-of t i (j ∷ l) out h c = elim (Result-cases (t j)) [
  | inr (e, raised) ↦ cc (rw raised at h)
  | inl (b, tested) ↦ elim (Result-cases (collect t l)) [
    | inr (e, raised) ↦ cc (rw (tested, raised) at h)
    | inl (rest, done) ↦
        let k = rw (← ok_inj (rw (tested, done) at h)) at c in
        ground (arith, k, tested, collect-of t i l rest done)
  ]
]

-- With the launch configuration checked and the parameter's key there, every instance that
-- `list_purgeable_instances` names is one of those it was given, is in the group, and is an old
-- instance by `get_instances_by_launch_config`.
pub purgeable_is_old :
    (keys : ParamKeys) (props : Props) (lt_check : Bool) (replace initial new old out : List String)
    (i : String)
    → keys.launch_config_name ≡ true
    → get_instances_by_launch_config props true initial ≡ ok (new, old)
    → list_purgeable_instances keys props true lt_check replace initial ≡ ok out
    → contains i out ≡ true
    → (contains i replace ≡ true) × (contains i props.instances ≡ true) × (contains i old ≡ true)
unfolding list_purgeable_instances get_instances_by_launch_config
purgeable_is_old keys props lt_check replace initial new old out i key split listed c =
    let (purgeable, among) =
      collect-of (is_purgeable_by_config props) i _ out (rw key at listed) c in
    let (present, given) = contains-filter_of i (λ k. contains k props.instances) replace among in
    (
      given,
      present,
      split_by-old (is_new_by_config props) i props.instances [] [] new old split
          (purgeable-not-new props i purgeable) (ground (arith, present)),
    )

-- With the key `launch_config_name` among the parameters and `lc_check` on, an instance of the
-- group that was launched from a template is named whatever its template is, also the group's own.
purgeable_by_any_template :
    (keys : ParamKeys) (props : Props) (lt_check : Bool) (replace initial out : List String)
    (i : String) (f : Facts) (t : Template)
    → keys.launch_config_name ≡ true
    → list_purgeable_instances keys props true lt_check replace initial ≡ ok out
    → contains i replace ≡ true
    → contains i props.instances ≡ true
    → get_facts i props.instance_facts ≡ some f
    → f.launch_template ≡ some t
    → contains i out ≡ true
unfolding list_purgeable_instances is_purgeable_by_config
purgeable_by_any_template keys props lt_check replace initial out i f t key listed given present
      known has =
    collect-contains (is_purgeable_by_config props) i _ out (rw key at listed) (rw (known, has))
      (contains-filter i (λ k. contains k props.instances) replace ∙ rw (present, given))
