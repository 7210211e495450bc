-- ===== src/EcsTask/Main/Next.antt =====
-- The definition that an explicit revision finds, and the revision that a registration would have.
use community_aws.Base.{
  some_inj, is_empty, ℕ, ◌+◌, String, ◌≡◌, refl, sym, ap, ◌∙◌, ◌⊎◌, inl, inr, true, ◌&&◌, not,
  Option, none, some, List, [], ◌∷◌, ◌++◌, arith, Bool-cases, Option-cases, ◌==◌, ==_iff, string_eq,
  nat_eq, bool_eq, option_eq, Result, ok, err, ok_inj,
}
use mathlib.Core.Path.{subst}
use community_aws.Base.Int.{ℤ, pos, negsuc, eqb_ℤ}
use community_aws.Base.Run.{done, lift, done_inj}
use community_aws.EcsTask.Match.{TaskDef}
use community_aws.EcsTask.Register.{non_empty}
use community_aws.EcsTask.Main.{
  Params, check_present, with_revision, last_revision, next_revision, check_revision,
}

-- the definition is in the list
abbrev pub IsAmong : TaskDef → List TaskDef → Type 0
IsAmong td [] = ⊥
IsAmong td (x ∷ l) = (td ≡ x) ⊎ IsAmong td l

non_empty-some : (o : Option String) (s : String) → non_empty o ≡ some s → o ≡ some s
non_empty-some none s h = cc
non_empty-some (some String.[]) s h = cc
non_empty-some (some (String.◌∷◌ x t)) s h = h

pub lift_done :
    {W A : Type 0} (r : Result A) (a : A) (w v : W) → lift r w ≡ done (a, v) → (r ≡ ok a) × (v ≡ w)
lift_done (ok b) a w v h = (ap ok (done_inj h).0, sym (done_inj h).1)
lift_done (err e) a w v h = (cc, cc)

pub with_revision-found :
    (r : ℤ) (tds : List TaskDef) (td : TaskDef)
    → with_revision r tds ≡ some td
    → IsAmong td tds × (eqb_ℤ (pos td.revision) r ≡ true)
unfolding with_revision
with_revision-found r [] td h = cc
with_revision-found r (x ∷ tds) td h = elim (Bool-cases (eqb_ℤ (pos x.revision) r)) [
  | inl same ↦
      let e : x ≡ td = some_inj (rw same at h) in
      (inl (sym e), subst (λ (y : TaskDef). eqb_ℤ (pos y.revision) r ≡ true) e same)
  | inr other ↦
      let (among, same) = with_revision-found r tds td (rw other at h) in (inr among, same)
]

-- r is one more than the revision of the last definition, or 1 if there is none
abbrev pub IsNext : ℤ → List TaskDef → Type 0
IsNext r tds =
    ((tds ≡ []) × (r ≡ pos 1))
    ⊎ ((before : List TaskDef) × (last : TaskDef) × (tds ≡ before ++ last ∷ [])
        × (r ≡ pos (last.revision + 1)))

last-split :
    (td : TaskDef) (tds : List TaskDef)
    → (before : List TaskDef) × (last : TaskDef) × (td ∷ tds ≡ before ++ last ∷ [])
      × (last_revision td tds ≡ last.revision)
last-split td [] = ([], td, refl, refl)
last-split td (x ∷ l) =
    let (before, last, split, same) = last-split x l in
    (td ∷ before, last, ap (λ m. td ∷ m) split, same)

eqb_ℤ-sound : (n : ℕ) (r : ℤ) → eqb_ℤ (pos n) r ≡ true → r ≡ pos n
eqb_ℤ-sound n (pos m) h = ap pos (ground (arith, h))
eqb_ℤ-sound n (negsuc m) h = absurd (ground (arith, h))

next_revision-IsNext :
    (r : ℤ) (tds : List TaskDef) → eqb_ℤ (pos (next_revision tds)) r ≡ true → IsNext r tds
next_revision-IsNext r [] h = inl (refl, eqb_ℤ-sound 1 r h)
next_revision-IsNext r (td ∷ tds) h =
    let (before, last, split, same) = last-split td tds in
    inr
      (before, last, split, eqb_ℤ-sound (last_revision td tds + 1) r h ∙ ap (λ n. pos (n + 1)) same)

-- the definition is listed, has the revision, and is active
abbrev pub IsActiveAt : ℤ → List TaskDef → TaskDef → Type 0
IsActiveAt r tds td = IsAmong td tds × ((r ≡ pos td.revision) × (td.status ≡ "ACTIVE"))

-- what the block answers, by what was found
pub check_revision-cases :
    (r : ℤ) (tds : List TaskDef) (o answer : Option TaskDef)
    → ((td : TaskDef) → o ≡ some td → IsAmong td tds × (eqb_ℤ (pos td.revision) r ≡ true))
    → check_revision r tds o ≡ ok answer
    → ((td : TaskDef) × (answer ≡ some td) × IsActiveAt r tds td) ⊎ ((answer ≡ none) × IsNext r tds)
check_revision-cases r tds none answer found h =
    elim (Bool-cases (eqb_ℤ (pos (next_revision tds)) r)) [
      | inl next ↦ inr (sym (ok_inj (rw next at h)), next_revision-IsNext r tds next)
      | inr other ↦ cc (rw other at h)
    ]
check_revision-cases r tds (some td) answer found h = elim (Bool-cases (td.status == "ACTIVE")) [
  | inl active ↦
      let (among, same) = found td refl in
      inl (
        td,
        sym (ok_inj (rw active at h)),
        (among, (eqb_ℤ-sound td.revision r same, (==_iff td.status "ACTIVE").0 active)),
      )
  | inr other ↦ cc (rw other at h)
]

-- the family is the one that is asked for
pub check_present-family :
    (p : Params) (family : String) → check_present p ≡ ok family → p.family ≡ some family
unfolding check_present
check_present-family p family h = elim (Bool-cases (is_empty p.containers)) [
  | inl empty ↦ cc (rw empty at h)
  | inr some_ ↦ elim (Option-cases (non_empty p.family)) [
    | inl missing ↦ cc (rw (some_, missing) at h)
    | inr (f, given) ↦
        elim (Bool-cases ((p.launch_type == some "FARGATE") && not (p.network_mode == "awsvpc"))) [
          | inl fargate ↦ cc (rw (some_, given, fargate) at h)
          | inr fine ↦
              non_empty-some p.family f given
              ∙ ap (λ x. some x) (ok_inj (rw (some_, given, fine) at h))
        ]
  ]
]
