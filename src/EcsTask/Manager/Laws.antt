-- ===== src/EcsTask/Manager/Laws.antt =====
-- The methods of the manager that read: the definitions of a family come from all pages, and in the
-- order of their revisions.
use community_aws.Base.{
  ℕ, zero, suc, ◌≤◌, String, ◌≡◌, refl, inl, inr, Option, none, some, List, [], ◌∷◌, ◌++◌, arith,
  leb, Bool-cases, string_eq, nat_eq, bool_eq, option_eq, ok,
}
use mathlib.Core.List.{Perm, append_assoc}
use mathlib.Core.List.Perm
use community_aws.Base.Run.{done, ◌>>=◌}
use community_aws.EcsTask.Match.{TaskDef}
use community_aws.EcsTask.Register.{non_empty}
use community_aws.EcsTask.Manager.{
  arn, Ecs, fetch, describe_each, describe_task_definitions, insert_by_revision, sorted_by_revision,
}

-- the revisions ascend, from one on
abbrev Ascending : ℕ → List TaskDef → Type 0
Ascending n [] = Unit
Ascending n (td ∷ l) = (n ≤ td.revision) × Ascending td.revision l

insert-Ascending :
    (n : ℕ) (td : TaskDef) (l : List TaskDef)
    → n ≤ td.revision
    → Ascending n l
    → Ascending n (insert_by_revision td l)
unfolding insert_by_revision
insert-Ascending n td [] h a = (h, tt)
insert-Ascending n td (x ∷ l) h a = elim (Bool-cases (leb td.revision x.revision)) [
  | inl before ↦ rw before (h, (ground (arith, before), a.1))
  | inr behind ↦ rw behind (a.0, insert-Ascending x.revision td l (ground (arith, behind)) a.1)
]

-- the list is in the order of the revisions
abbrev pub IsSorted : List TaskDef → Type 0
IsSorted l = Ascending 0 l

sorted_by_revision-IsSorted : (l : List TaskDef) → IsSorted (sorted_by_revision l)
unfolding sorted_by_revision
sorted_by_revision-IsSorted [] = tt
sorted_by_revision-IsSorted (td ∷ l) =
    insert-Ascending 0 td (sorted_by_revision l) (omega arith) (sorted_by_revision-IsSorted l)

insert-Perm : (td : TaskDef) (l : List TaskDef) → Perm (td ∷ l) (insert_by_revision td l)
unfolding insert_by_revision
insert-Perm td [] = Perm.refl (td ∷ [])
insert-Perm td (x ∷ l) = elim (Bool-cases (leb td.revision x.revision)) [
  | inl before ↦ rw before (Perm.refl (td ∷ x ∷ l))
  | inr behind ↦ rw behind (Perm.trans (Perm.swap x td l) (Perm.cons x (insert-Perm td l)))
]

sorted_by_revision-Perm : (l : List TaskDef) → Perm l (sorted_by_revision l)
unfolding sorted_by_revision
sorted_by_revision-Perm [] = Perm.refl []
sorted_by_revision-Perm (td ∷ l) =
    Perm.trans (Perm.cons td (sorted_by_revision-Perm l)) (insert-Perm td (sorted_by_revision l))

module _ (c : Ecs) (family : String) (w : c.World) where
  -- what the service lists from a token on, in a number of pages
  pub data Listed : ℕ → Option String → List String → Type 0 where
    last_page :
        {token : Option String} {arns : List String}
        → c.list_task_definitions family (non_empty token) w ≡ ok (arns, none)
        → Listed 1 token arns
    page :
        {n : ℕ} {token : Option String} {next : String} {arns rest : List String}
        → c.list_task_definitions family (non_empty token) w ≡ ok (arns, some next)
        → Listed n (some next) rest
        → Listed (suc n) token (arns ++ rest)

  -- the service describes each of the ARNs
  abbrev pub Described : List String → List TaskDef → Type 0
  Described [] [] = Unit
  Described (a ∷ arns) (td ∷ tds) =
      (c.describe_task_definition (arn a) w ≡ ok td) × Described arns tds
  Described _ _ = ⊥

  fetch-Listed :
      (pages n : ℕ) (token : Option String) (before arns : List String)
      → n ≤ pages
      → Listed n token arns
      → fetch c pages family before token w ≡ done (before ++ arns, w)
  unfolding fetch
  fetch-Listed zero _ token before arns h (last_page answer) = absurd (omega (arith, h))
  fetch-Listed zero _ token before _ h (page answer l) = absurd (omega (arith, h))
  fetch-Listed (suc pages) _ token before arns h (last_page answer) = rw (answer, ◌>>=◌) refl
  fetch-Listed (suc pages) _ token before _ h
        (page {n = n} {next = next} {arns = arns} {rest = rest} answer l) =
      rw
        (answer, ◌>>=◌, fetch-Listed pages n (some next) (before ++ arns) rest (omega (arith, h)) l)
        (rw append_assoc refl)

  describe_each-Described :
      (arns : List String) (tds : List TaskDef)
      → Described arns tds
      → describe_each c arns w ≡ done (tds, w)
  unfolding describe_each
  describe_each-Described [] [] d = refl
  describe_each-Described (a ∷ arns) [] d = absurd d
  describe_each-Described [] (td ∷ tds) d = absurd d
  describe_each-Described (a ∷ arns) (td ∷ tds) (got, d) =
      rw (got, ◌>>=◌, describe_each-Described arns tds d, ◌>>=◌) refl

-- Where the service lists the ARNs of a family in no more pages than may be read, and describes each of
-- them, the definitions of the family are found, whatever the order of the ARNs: they are all the
-- descriptions, in ascending order of their revisions, and the service's state is kept.
pub describe_task_definitions_lem :
    (c : Ecs) (family : String) (pages n : ℕ) (arns : List String) (tds : List TaskDef)
    (w : c.World)
    → Listed c family w n none arns
    → n ≤ pages
    → Described c family w arns tds
    → (l : List TaskDef) × (describe_task_definitions c pages family w ≡ done (l, w))
      × Perm tds l
      × IsSorted l
unfolding describe_task_definitions
describe_task_definitions_lem c family pages n arns tds w listed few described = (
  sorted_by_revision tds,
  rw
      (
        fetch-Listed c family w pages n none [] arns few listed,
        ◌>>=◌,
        describe_each-Described c family w arns tds described,
        ◌>>=◌,
      )
      refl,
  sorted_by_revision-Perm tds,
  sorted_by_revision-IsSorted tds,
)
