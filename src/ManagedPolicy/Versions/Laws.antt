-- ===== src/ManagedPolicy/Versions/Laws.antt =====
-- Which version of a policy is the default one, across the functions on versions.
use community_aws.Base.{
  is_empty, String, ◌≡◌, refl, sym, ap, ◌∙◌, ◌≢◌, inl, inr, Bool, true, false, not, Option, some,
  List, [], ◌∷◌, leb, Bool-cases, All, string_eq, nat_eq, bool_eq, option_eq, key_error,
  value_error, type_error, index_error, unbound_local_error, fail_json, client_error, Result, ok,
  err, Result-cases,
}
use mathlib.Core.Path.{subst}
use community_aws.Base.Run.{Run, done, ◌>>=◌, bind-eq-done, done_inj}
use community_aws.Base.Rules.{Preserves, preserves}
use community_aws.ManagedPolicy.Client.{Version, Iam, client_fails, ask, change_with, change}
use community_aws.ManagedPolicy.Versions.{
  non_default, oldest_of, oldest, list_versions, delete_version, delete_versions,
  delete_oldest_non_default_version, set_default, set_if_only,
}

-- What IAM promises of the default version: a listing marks it, only `set_default_policy_version`
-- makes another version the default, and the deletion of another version leaves it.
pub record IsIam (c : Iam) : Type 0 where
  pub default_version : String → c.World → Option String
  pub lists :
      (arn : String) (w : c.World) (l : List Version)
      → c.list_policy_versions arn w ≡ ok l
      → All
          (λ v.
            (v.is_default_version ≡ true → default_version arn w ≡ some v.version_id)
            × (v.is_default_version ≡ false → default_version arn w ≢ some v.version_id))
          l
  pub creates :
      (arn document : String) (w w' : c.World) (v : Version)
      → c.create_policy_version arn document w ≡ ok (v, w')
      → (default_version arn w' ≡ default_version arn w) × (v.is_default_version ≡ false)
  pub sets :
      (arn id : String) (w w' : c.World)
      → c.set_default_policy_version arn id w ≡ ok w'
      → default_version arn w' ≡ some id
  pub deletes :
      (arn id : String) (w w' : c.World)
      → default_version arn w ≢ some id
      → c.delete_policy_version arn id w ≡ ok w'
      → default_version arn w' ≡ default_version arn w

pub client_fails-ok :
    {A : Type 0} (text : String) (r : Result A) (a : A) → client_fails text r ≡ ok a → r ≡ ok a
client_fails-ok text (ok b) a h = h
client_fails-ok text (err (client_error m)) a h = cc
client_fails-ok text (err (key_error m)) a h = cc
client_fails-ok text (err (fail_json m)) a h = cc
client_fails-ok text (err value_error) a h = cc
client_fails-ok text (err type_error) a h = cc
client_fails-ok text (err index_error) a h = cc
client_fails-ok text (err unbound_local_error) a h = cc

-- what a call that reads went through
pub ask-done :
    (c : Iam) {A : Type 0} (call : c.World → Result A) (w w' : c.World) (a : A)
    → ask c call w ≡ done (a, w')
    → (call w ≡ ok a) × (w' ≡ w)
ask-done c call w w' a h = elim (Result-cases (call w)) [
  | inl (b, e) ↦ let k = done_inj (rw (e, ask) at h) in (e ∙ ap ok k.0, sym k.1)
  | inr (x, e) ↦ (cc (rw (e, ask) at h), cc (rw (e, ask) at h))
]

change-done :
    (c : Iam) (call : c.World → Result c.World) (w w' : c.World) (u : Unit {0})
    → change c call w ≡ done (u, w')
    → call w ≡ ok w'
change-done c call w w' u h = elim (Result-cases (call w)) [
  | inl (v, e) ↦ e ∙ ap ok (done_inj (rw (e, change) at h)).1
  | inr (x, e) ↦ cc (rw (e, change) at h)
]

pub change_with-done :
    (c : Iam) {A : Type 0} (call : c.World → Result (A × c.World)) (w w' : c.World) (a : A)
    → change_with c call w ≡ done (a, w')
    → call w ≡ ok (a, w')
change_with-done c call w w' a h = elim (Result-cases (call w)) [
  | inl ((b, v), e) ↦ let k = done_inj (rw (e, change_with) at h) in e ∙ rw (k.0, k.1) refl
  | inr (x, e) ↦ cc (rw (e, change_with) at h)
]

pub list_versions-done :
    (c : Iam) (arn : String) (w v : c.World) (l : List Version)
    → list_versions c arn w ≡ done (l, v)
    → (c.list_policy_versions arn w ≡ ok l) × (v ≡ w)
unfolding list_versions
list_versions-done c arn w v l h =
    let text : String = "Couldn't list policy versions" in
    let e = ask-done c (λ x. client_fails text (c.list_policy_versions arn x)) w v l h in
    (client_fails-ok text (c.list_policy_versions arn w) l e.0, e.1)

delete_version-done :
    (c : Iam) (arn : String) (v : Version) (w w' : c.World) (u : Unit {0})
    → delete_version c arn v w ≡ done (u, w')
    → c.delete_policy_version arn v.version_id w ≡ ok w'
unfolding delete_version
delete_version-done c arn v w w' u h =
    let text : String = "Couldn't delete policy version" in
    client_fails-ok text (c.delete_policy_version arn v.version_id w) w'
      (change-done c (λ x. client_fails text (c.delete_policy_version arn v.version_id x)) w w' u h)

pub set_default-done :
    (c : Iam) (arn : String) (v : Version) (w w' : c.World) (u : Unit {0})
    → set_default c arn v w ≡ done (u, w')
    → c.set_default_policy_version arn v.version_id w ≡ ok w'
unfolding set_default
set_default-done c arn v w w' u h =
    let text : String = "Couldn't set default policy version" in
    client_fails-ok text (c.set_default_policy_version arn v.version_id w) w' (
      change-done c (λ x. client_fails text (c.set_default_policy_version arn v.version_id x)) w w'
        u h)

module _ (c : Iam) (law : IsIam c) (arn : String) where
  -- the default version is the one
  abbrev pub HasDefault : Option String → c.World → Type 0
  HasDefault d w = law.default_version arn w ≡ d

  abbrev IsOther : Option String → Version → Type 0
  IsOther d v = d ≢ some v.version_id

  delete_versions-Preserves :
      (d : Option String) (l : List Version)
      → All (IsOther d) l
      → Preserves (HasDefault d) (delete_versions c arn l)
  unfolding delete_versions
  delete_versions-Preserves d [] others = (preserves (HasDefault d)).of_return tt
  delete_versions-Preserves d (v ∷ l) (other, others) =
      (preserves (HasDefault d)).of_bind (delete_version c arn v) (λ u. delete_versions c arn l)
        (λ w w' u h has.
          law.deletes arn v.version_id w w' (λ e. other (sym has ∙ e))
            (delete_version-done c arn v w w' u h)
          ∙ has)
        (λ u. delete_versions-Preserves d l others)

  non_default-IsOther :
      (d : Option String) (l : List Version)
      → All
          (λ v.
            (v.is_default_version ≡ true → d ≡ some v.version_id)
            × (v.is_default_version ≡ false → d ≢ some v.version_id))
          l
      → All (IsOther d) (non_default l)
  unfolding non_default
  non_default-IsOther d [] marked = tt
  non_default-IsOther d (v ∷ l) (mark, marked) = elim (Bool-cases v.is_default_version) [
    | inl yes_ ↦ rw yes_ (non_default-IsOther d l marked)
    | inr no_ ↦ rw no_ (mark.1 no_, non_default-IsOther d l marked)
  ]

  oldest_of-IsOther :
      (d : Option String) (v : Version) (l : List Version)
      → IsOther d v
      → All (IsOther d) l
      → IsOther d (oldest_of v l)
  unfolding oldest_of
  oldest_of-IsOther d v [] o os = o
  oldest_of-IsOther d v (x ∷ l) o (p, os) = elim (Bool-cases (leb x.create_date v.create_date)) [
    | inl older ↦ rw (older, oldest_of) (oldest_of-IsOther d x l p os)
    | inr newer ↦ rw (newer, oldest_of) (oldest_of-IsOther d v l o os)
  ]

  oldest-IsOther :
      (d : Option String) (l : List Version) → All (IsOther d) l → All (IsOther d) (oldest l)
  unfolding oldest
  oldest-IsOther d [] others = tt
  oldest-IsOther d (v ∷ l) (other, others) = (oldest_of-IsOther d v l other others, tt)

  -- what follows a listing keeps the default version, if it deletes what the listing does not mark
  after_listing :
      (d : Option String) {A : Type 0} (rest : List Version → Run c.World A)
      → ((l : List Version) → All (IsOther d) (non_default l) → Preserves (HasDefault d) (rest l))
      → Preserves (HasDefault d) (list_versions c arn >>= rest)
  after_listing d rest keeps_ w w' r h has =
      let (l, v, listed, next) = bind-eq-done (list_versions c arn) rest w w' r h in
      let (answer, same) = list_versions-done c arn w v l listed in
      let others = non_default-IsOther d l (
        subst
          (λ x.
            All
              (λ v.
                (v.is_default_version ≡ true → x ≡ some v.version_id)
                × (v.is_default_version ≡ false → x ≢ some v.version_id))
              l)
          has (law.lists arn w l answer)) in
      keeps_ l others v w' r next (subst (HasDefault d) (sym same) has)

  pub set_if_only-Preserves :
      (d : Option String) (is_only : Bool) → Preserves (HasDefault d) (set_if_only c arn is_only)
  unfolding set_if_only
  set_if_only-Preserves d true = after_listing d _ (λ l others.
      (preserves (HasDefault d)).of_bind _ _ (delete_versions-Preserves d (non_default l) others)
        (λ u. (preserves (HasDefault d)).of_return (not (is_empty (non_default l)))))
  set_if_only-Preserves d false = (preserves (HasDefault d)).of_return false

  pub delete_oldest-Preserves :
      (d : Option String) → Preserves (HasDefault d) (delete_oldest_non_default_version c arn)
  unfolding delete_oldest_non_default_version
  delete_oldest-Preserves d = after_listing d _ (λ l others.
      delete_versions-Preserves d (oldest (non_default l))
        (oldest-IsOther d (non_default l) others))
