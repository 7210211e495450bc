-- ===== src/ManagedPolicy/Tests.antt =====
-- A small service: one policy, whose versions are numbered by their dates.
use community_aws.Base.{
  some_inj, String, ◌≡◌, refl, sym, ap, ◌∙◌, ◌≢◌, inl, inr, Bool, true, false, not, Option, some,
  List, [], ◌∷◌, if◌then◌else◌, Bool-cases, All, ◌==◌, ==_iff, String-discrete, string_eq, nat_eq,
  bool_eq, option_eq, client_error, ok, err, ok_inj,
}
use mathlib.Core.Path.{subst}
use community_aws.Base.Run.{done}
use community_aws.ManagedPolicy.Client.{Version, Policy, Iam}
use community_aws.ManagedPolicy.Versions.{
  list_versions, find_version, get_or_create_policy_version, set_default, set_if_default,
  set_if_only,
}
use community_aws.ManagedPolicy.Versions.Laws.{IsIam, HasDefault}
use community_aws.ManagedPolicy.Main.{
  present, Params, find_policy, get_policy_by_name, refreshed, update, run_state, main,
}
use community_aws.ManagedPolicy.Main.Laws.{IsChosen, main-HasDefault}
use community_aws.ManagedPolicy.Main.Unchanged.{Matches, main-unchanged}

abbrev versions_of : Bool → List Version
versions_of b =
    record { version_id = "v2"; is_default_version = b; create_date = 2 }
    ∷ record { version_id = "v1"; is_default_version = not b; create_date = 1 }
    ∷ []

abbrev web : Policy
web = record { policy_arn = "arn-web"; policy_name = "web" }

-- The state tells whether the second version is the default one. No version can be made or deleted.
abbrev iam : Iam
iam = record {
  World = Bool;
  Document = String;
  differs = λ d t. not (d == t);
  list_policies = λ w. ok (web ∷ []);
  list_policy_versions = λ arn w. ok (versions_of w);
  get_policy_version = λ arn id w. ok (if id == "v2" then "new" else "old");
  get_policy = λ arn w. ok web;
  list_entities_for_policy = λ arn marker w. err (client_error "AccessDenied");
  create_policy = λ name document description w. err (client_error "AccessDenied");
  create_policy_version = λ arn document w. err (client_error "AccessDenied");
  set_default_policy_version = λ arn id w.
      if id == "v2"
      then ok true
      else if id == "v1"
      then ok false
      else err (client_error "NoSuchEntity");
  delete_policy_version = λ arn id w. err (client_error "AccessDenied");
  detach_policy = λ kind arn name w. err (client_error "AccessDenied");
  delete_policy = λ arn w. err (client_error "AccessDenied");
}

abbrev default_id : Bool → Option String
default_id w = if w then some "v2" else some "v1"

different : (s t : String) → (s == t) ≡ false → some s ≢ some t
different s t h e = cc (sym h ∙ (==_iff s t).1 (some_inj e))

marked :
    (w : Bool)
    → All
        (λ v.
          (v.is_default_version ≡ true → default_id w ≡ some v.version_id)
          × (v.is_default_version ≡ false → default_id w ≢ some v.version_id))
        (versions_of w)
unfolding String-discrete
marked true = (((λ h. refl), (λ h. cc)), (((λ h. cc), (λ h. different "v2" "v1" refl)), tt))
marked false = (((λ h. cc), (λ h. different "v1" "v2" refl)), (((λ h. refl), (λ h. cc)), tt))

listed :
    (w : Bool) (l : List Version)
    → ok (versions_of w) ≡ ok l
    → All
        (λ v.
          (v.is_default_version ≡ true → default_id w ≡ some v.version_id)
          × (v.is_default_version ≡ false → default_id w ≢ some v.version_id))
        l
listed w l h =
    subst
      (λ (x : List Version).
        All
          (λ v.
            (v.is_default_version ≡ true → default_id w ≡ some v.version_id)
            × (v.is_default_version ≡ false → default_id w ≢ some v.version_id))
          x)
      (ok_inj h) (marked w)

set_default_made :
    (id : String) (w w' : Bool)
    → iam.set_default_policy_version "arn-web" id w ≡ ok w'
    → default_id w' ≡ some id
set_default_made id w w' h = elim (Bool-cases (id == "v2")) [
  | inl two ↦ rw (← ok_inj (rw two at h)) (ap (λ x. some x) (sym ((==_iff id "v2").0 two)))
  | inr other ↦ elim (Bool-cases (id == "v1")) [
    | inl one ↦
        rw (← ok_inj (rw (other, one) at h)) (ap (λ x. some x) (sym ((==_iff id "v1").0 one)))
    | inr unknown ↦ cc (rw (other, unknown) at h)
  ]
]

abbrev iam-IsIam : IsIam iam
iam-IsIam = record {
  default_version = λ arn w. default_id w;
  lists = λ arn w l h. listed w l h;
  creates = λ arn document w w' v h. absurd (cc h);
  sets = λ arn id w w' h. set_default_made id w w' h;
  deletes = λ arn id w w' other h. cc;
}

abbrev asked : Bool → Params
asked default_ = record {
  policy_name = "web";
  policy_description = "";
  policy = "new";
  make_default = default_;
  only_version = false;
  state = present;
}

default_run :
    main iam 1 (asked true) false ≡ done (record { changed = true; policy = some web }, true)
unfolding main get_policy_by_name find_policy run_state update get_or_create_policy_version
    list_versions find_version set_if_default set_default set_if_only refreshed String-discrete
default_run = refl

found_run : find_policy "web" (web ∷ []) ≡ some web
unfolding find_policy String-discrete
found_run = refl

main-HasDefault_example :
    (v : Version) × IsChosen iam iam-IsIam "arn-web" "new" false
      (record { changed = true; policy = some web })
      v
    × HasDefault iam iam-IsIam "arn-web" (some v.version_id) true
main-HasDefault_example =
    main-HasDefault iam iam-IsIam 1 (asked true) web (web ∷ []) (some "v1") false true
      (record { changed = true; policy = some web }) refl refl found_run refl default_run

same_run :
    Matches iam "arn-web" "new" true
      (record { version_id = "v2"; is_default_version = true; create_date = 2 })
unfolding String-discrete
same_run = ("new", refl, refl)

main-unchanged_example :
    main iam 1 (asked true) true ≡ done (record { changed = false; policy = some web }, true)
main-unchanged_example =
    main-unchanged iam 1 (asked true) web (web ∷ []) []
      (record { version_id = "v2"; is_default_version = true; create_date = 2 })
      (record { version_id = "v1"; is_default_version = false; create_date = 1 } ∷ []) true refl
      refl found_run refl tt same_run refl (inl refl)
