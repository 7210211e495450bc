-- ===== src/EcsTask/Match/Same.antt =====
-- What is asked for matches what the service makes of it, if that makes no difference.
use community_aws.Base.{
  some_inj, suc, String, ◌≡◌, refl, sym, ap, ◌∙◌, ◌⊎◌, inl, inr, Bool, true, false, none, some,
  List, [], ◌∷◌, map, arith, Bool-cases, Option-cases, eqb_iff, length, All, ◌==◌, ==_iff, ==_refl,
  string_eq, nat_eq, bool_eq, option_eq, ok,
}
use mathlib.Core.Path.{subst}
use community_aws.Base.Int.{ℤ, pos, negsuc, eqb_ℤ}
use community_aws.EcsTask.Values.{
  truthy, Value, null, boolean, number, text, list, dict, Items, nil, cons, Fields, end, field,
  lookup, length_fields, equal, equal_items, equal_fields,
}
use community_aws.EcsTask.Match.{
  TaskDef, Requested, right_has_values_of_left, found_in, all_found, same_entries,
  task_definition_matches, role_of,
}
use community_aws.EcsTask.Match.Laws.{Unique, AgreeAt, right_has_values_of_left_lem}

-- every dictionary in a value has different keys
unfoldable mutual
  pub IsProper : Value → Type 0
  IsProper (list l) = ProperItems l
  IsProper (dict d) = ProperFields d
  IsProper _ = Unit

  ProperItems : Items → Type 0
  ProperItems nil = Unit
  ProperItems (cons v l) = IsProper v × ProperItems l

  pub ProperFields : Fields → Type 0
  ProperFields end = Unit
  ProperFields (field k v d) = (lookup k d ≡ none) × (IsProper v × ProperFields d)

-- the first dictionary's entries are in the second
abbrev Within : Fields → Fields → Type 0
Within d e = (k : String) (v : Value) → lookup k d ≡ some v → lookup k e ≡ some v

eqb_ℤ-refl : (n : ℤ) → eqb_ℤ n n ≡ true
eqb_ℤ-refl (pos n) = ground arith
eqb_ℤ-refl (negsuc n) = ground arith

first-Within :
    (k : String) (v : Value) (d e : Fields) → Within (field k v d) e → lookup k e ≡ some v
unfolding lookup
first-Within k v d e h = h k v (rw (==_refl k) refl)

rest-Within :
    (k : String) (v : Value) (d e : Fields)
    → lookup k d ≡ none
    → Within (field k v d) e
    → Within d e
unfolding lookup
rest-Within k v d e missing h j u got = elim (Bool-cases (k == j)) [
  | inl same ↦ cc (sym missing ∙ rw (← (==_iff k j).0 same) at got)
  | inr other ↦ h j u (rw other got)
]

mutual
  unfolding equal IsProper

  equal_refl : (v : Value) → IsProper v → equal v v ≡ true
  equal_refl null p = refl
  equal_refl (boolean b) p = ==_refl b
  equal_refl (number n) p = eqb_ℤ-refl n
  equal_refl (text s) p = ==_refl s
  equal_refl (list l) p = equal_items_refl l p
  equal_refl (dict d) p =
      rw ((eqb_iff (length_fields d) (length_fields d)).1 refl)
        (equal_fields-Within d d p (λ k v got. got))

  equal_items_refl : (l : Items) → ProperItems l → equal_items l l ≡ true
  equal_items_refl nil p = refl
  equal_items_refl (cons v l) p = rw (equal_refl v p.0, equal_items_refl l p.1)

  equal_fields-Within : (d e : Fields) → ProperFields d → Within d e → equal_fields d e ≡ true
  equal_fields-Within end e p h = refl
  equal_fields-Within (field k v d) e p h = rw (
    first-Within k v d e h,
    equal_refl v p.1.0,
    equal_fields-Within d e p.1.1 (rest-Within k v d e p.0 h),
  )

ProperFields-Unique : (d : Fields) → ProperFields d → Unique d
unfolding IsProper
ProperFields-Unique end p = tt
ProperFields-Unique (field k v d) p = (p.0, ProperFields-Unique d p.1.1)

lookup-IsProper :
    (d : Fields) (k : String) (v : Value) → ProperFields d → lookup k d ≡ some v → IsProper v
unfolding IsProper lookup
lookup-IsProper end k v p got = cc
lookup-IsProper (field j u d) k v p got = elim (Bool-cases (j == k)) [
  | inl same ↦ subst IsProper (some_inj (rw same at got)) p.1.0
  | inr other ↦ lookup-IsProper d k v p.1.1 (rw other at got)
]

AgreeAt-same : (d : Fields) (k : String) → ProperFields d → AgreeAt (lookup k d) (lookup k d)
AgreeAt-same d k p = elim (Option-cases (lookup k d)) [
  | inl missing ↦ rw missing refl
  | inr (v, got) ↦ rw got (inr (v, refl, inl (equal_refl v (lookup-IsProper d k v p got))))
]

-- The second dictionary has what the first one has, and what else it has is false.
pub record IsKept (d e : Fields) : Type 0 where
  pub asked_keys : Unique d
  pub described_keys : Unique e
  pub agree : (k : String) → AgreeAt (lookup k d) (lookup k e)

-- A key with a false value makes no difference.
pub falsy-IsKept :
    (k : String) (v : Value) (d : Fields)
    → ProperFields d
    → lookup k d ≡ none
    → truthy v ≡ false
    → IsKept d (field k v d)
unfolding lookup
falsy-IsKept k v d p missing falsy = record {
  asked_keys = ProperFields-Unique d p;
  described_keys = (missing, ProperFields-Unique d p);
  agree = λ j. elim (Bool-cases (k == j)) [
    | inl same ↦
        let gone : lookup j d ≡ none =
          subst (λ x. lookup x d ≡ none) ((==_iff k j).0 same) missing in
        rw (same, gone) falsy
    | inr other ↦ rw other (AgreeAt-same d j p)
  ];
}

IsKept-lem : (d e : Fields) → IsKept d e → right_has_values_of_left d e ≡ ok true
IsKept-lem d e kept =
    (right_has_values_of_left_lem d e kept.asked_keys kept.described_keys).1 kept.agree

-- no comparison of an entry of the first list with one of the second raises an exception
abbrev pub Comparable : List Fields → List Fields → Type 0
Comparable l m = All (λ x. All (λ y. (b : Bool) × (right_has_values_of_left x y ≡ ok b)) m) l

abbrev Among : Fields → List Fields → Type 0
Among x [] = ⊥
Among x (y ∷ l) = (x ≡ y) ⊎ Among x l

-- What the service fills into a volume and a container that it registers.
pub record Filling : Type 0 where
  pub volume : Fields → Fields
  pub container : Fields → Fields

module _ (fill : Fields → Fields) where
  found_in-filled :
      (x : Fields) (l : List Fields)
      → IsKept x (fill x)
      → All (λ y. (b : Bool) × (right_has_values_of_left x y ≡ ok b)) (map fill l)
      → Among x l
      → found_in x (map fill l) ≡ ok true
  unfolding found_in
  found_in-filled x [] kept c h = absurd h
  found_in-filled x (y ∷ l) kept ((b, compared), c) (inl same) =
      rw (← same, IsKept-lem x (fill x) kept) refl
  found_in-filled x (y ∷ l) kept ((true, compared), c) (inr later) = rw compared refl
  found_in-filled x (y ∷ l) kept ((false, compared), c) (inr later) =
      rw compared (found_in-filled x l kept c later)

  all_found-filled :
      (l m : List Fields)
      → All (λ x. IsKept x (fill x)) l
      → Comparable l (map fill m)
      → ((x : Fields) → Among x l → Among x m)
      → all_found l (map fill m) ≡ ok true
  unfolding all_found
  all_found-filled [] m kept c h = refl
  all_found-filled (x ∷ l) m (k, kept) (c, cs) h =
      rw (found_in-filled x m k c (h x (inl refl)))
        (all_found-filled l m kept cs (λ y j. h y (inr j)))

  length-filled : (l : List Fields) → length (map fill l) ≡ length l
  length-filled [] = refl
  length-filled (x ∷ l) = ap (λ n. suc n) (length-filled l)

  same_entries-filled :
      (l : List Fields)
      → All (λ x. IsKept x (fill x)) l
      → Comparable l (map fill l)
      → same_entries l (map fill l) ≡ ok true
  unfolding same_entries
  same_entries-filled l kept c =
      rw (length-filled l, (eqb_iff (length l) (length l)).1 refl)
        (all_found-filled l l kept c (λ x h. h))

-- The definition is active, and has what was asked for, with what the service fills in.
pub record IsCurrent (f : Filling) (r : Requested) (td : TaskDef) : Type 0 where
  pub is_active : td.status ≡ "ACTIVE"
  pub has_role : role_of td.task_role_arn ≡ r.task_role_arn
  pub has_volumes : td.volumes ≡ map f.volume r.volumes
  pub has_containers : td.container_definitions ≡ map f.container r.containers

-- What the service fills in makes no difference to what is asked for, and the comparisons of what
-- is asked for with it raise nothing.
pub record IsComplete (f : Filling) (r : Requested) : Type 0 where
  pub volumes_kept : All (λ d. IsKept d (f.volume d)) r.volumes
  pub containers_kept : All (λ d. IsKept d (f.container d)) r.containers
  pub volumes_comparable : Comparable r.volumes (map f.volume r.volumes)
  pub containers_comparable : Comparable r.containers (map f.container r.containers)

-- A definition that is active and has what is asked for, filled in, matches.
pub task_definition_matches-current :
    (f : Filling) (r : Requested) (td : TaskDef)
    → IsComplete f r
    → IsCurrent f r td
    → task_definition_matches r td ≡ ok true
unfolding task_definition_matches
task_definition_matches-current f r td complete cur =
    rw
      (
        cur.is_active,
        cur.has_role,
        cur.has_volumes,
        cur.has_containers,
        ==_refl {A = String} "ACTIVE",
        ==_refl r.task_role_arn,
        same_entries-filled f.volume r.volumes complete.volumes_kept complete.volumes_comparable,
        same_entries-filled f.container r.containers complete.containers_kept
            complete.containers_comparable,
      )
      refl
