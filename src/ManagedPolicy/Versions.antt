-- ===== src/ManagedPolicy/Versions.antt =====
-- The versions of a policy: `delete_oldest_non_default_version`, `get_or_create_policy_version`,
-- `set_if_default` and `set_if_only`. The texts of the errors leave out the exception's.
pub mod Laws
pub mod Default
use community_aws.Base.{
  some_inj, is_within, is_empty, ℕ, zero, suc, ◌+◌, ◌-◌, ◌*◌, ◌≤◌, ◌<◌, String, ◌≡◌, refl, sym, ap,
  ◌∙◌, ◌≢◌, ◌↔◌, ◌⊎◌, inl, inr, Bool, true, false, ◌&&◌, ◌||◌, not, Option, none, some, List, [],
  ◌∷◌, ◌++◌, map, arith, ℕ_discrete, ltb, leb, eqb, if◌then◌else◌, Bool-cases, Sum-cases,
  Option-cases, eqb_iff, length, take, drop, filter, any, all, All, filter-filter, filter-append,
  contains, contains-append, contains-filter, length-append, length-take, length-drop,
  take-append-drop, Eq, ◌==◌, ==_iff, ==_refl, ==_false, String-discrete, string_eq, nat_eq,
  bool_eq, option_eq, Option-discrete, upper, lower, lower, Error, key_error, value_error,
  type_error, index_error, unbound_local_error, fail_json, client_error, Result, ok, err, or_raise,
  raise_if, >>=-eq-ok, for_each, Result-cases, ok_pair, ok_inj, some_ok_pair,
}
use community_aws.Base.Run.{Run, Outcome, done, raised, return_, look, lift, raise, ◌>>=◌, ◌>>◌}
use community_aws.ManagedPolicy.Client.{
  Version, Policy, Iam, client_fails, ask, change_with, change,
}

-- `[v for v in … if not v['IsDefaultVersion']]`
unfoldable pub non_default : List Version → List Version
non_default l = filter (λ v. not v.is_default_version) l

-- the last after the sort by the date, newest first: the oldest one, of several the last
unfoldable pub oldest_of : Version → List Version → Version
oldest_of v [] = v
oldest_of v (x ∷ l) = oldest_of (if leb x.create_date v.create_date then x else v) l

-- `versions[-1:]` behind that sort
unfoldable pub oldest : List Version → List Version
unfolding oldest_of
oldest [] = []
oldest (v ∷ l) = oldest_of v l ∷ []

module _ (c : Iam) (arn : String) where
  unfoldable pub list_versions : Run c.World (List Version)
  list_versions =
      ask c (λ w. client_fails "Couldn't list policy versions" (c.list_policy_versions arn w))

  unfoldable pub delete_version : Version → Run c.World (Unit {0})
  delete_version v = change c (λ w.
      client_fails "Couldn't delete policy version" (c.delete_policy_version arn v.version_id w))

  -- `for v in versions: iam.delete_policy_version(…)`
  unfoldable pub delete_versions : List Version → Run c.World (Unit {0})
  unfolding delete_version
  delete_versions [] = return_ tt
  delete_versions (v ∷ l) = delete_version v >> delete_versions l

  unfoldable pub delete_oldest_non_default_version : Run c.World (Unit {0})
  unfolding list_versions delete_versions oldest non_default
  delete_oldest_non_default_version =
      list_versions >>= λ versions. delete_versions (oldest (non_default versions))

  -- the loop over the versions
  unfoldable pub find_version : String → List Version → Run c.World (Option Version)
  find_version document [] = return_ none
  find_version document (v ∷ l) =
      ask c
        (λ w. client_fails "Couldn't get policy version" (c.get_policy_version arn v.version_id w))
      >>= λ d. if not (c.differs d document) then return_ (some v) else find_version document l

  -- the first attempt, none for a LimitExceeded
  unfoldable pub try_create : String → Run c.World (Option Version)
  try_create document w = elim (c.create_policy_version arn document w) [
    | ok (v, w') ↦ done (some v, w')
    | err (client_error code) ↦
        if code == "LimitExceeded"
        then done (none, w)
        else raised (fail_json "Couldn't create policy version")
    | err e ↦ raised e
  ]

  unfoldable pub create_again : String → Run c.World Version
  unfolding delete_oldest_non_default_version
  create_again document =
      delete_oldest_non_default_version
      >> change_with c (λ w.
        client_fails "Couldn't create policy version" (c.create_policy_version arn document w))

  abbrev or_again : String → Option Version → Run c.World Version
  or_again document none = create_again document
  or_again document (some v) = return_ v

  unfoldable pub create_version : String → Run c.World Version
  unfolding try_create create_again
  create_version document = try_create document >>= or_again document

  abbrev found_or_new : String → Option Version → Run c.World (Version × Bool)
  found_or_new document (some v) = return_ (v, false)
  found_or_new document none = create_version document >>= λ v. return_ (v, true)

  unfoldable pub get_or_create_policy_version : String → Run c.World (Version × Bool)
  unfolding list_versions find_version create_version
  get_or_create_policy_version document =
      list_versions >>= λ versions. find_version document versions >>= found_or_new document

  unfoldable pub set_default : Version → Run c.World (Unit {0})
  set_default v = change c (λ w.
      client_fails "Couldn't set default policy version"
        (c.set_default_policy_version arn v.version_id w))

  unfoldable pub set_if_default : Version → Bool → Run c.World Bool
  unfolding set_default
  set_if_default v is_default =
      if is_default && not v.is_default_version
      then set_default v >> return_ true
      else return_ false

  unfoldable pub set_if_only : Bool → Run c.World Bool
  unfolding list_versions delete_versions non_default
  set_if_only is_only =
      if is_only
      then (list_versions >>= λ versions.
          delete_versions (non_default versions) >> return_ (not (is_empty (non_default versions))))
      else return_ false
