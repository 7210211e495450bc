-- ===== src/ManagedPolicy/Main/Unchanged.antt =====
-- A run that finds everything as it was asked for.
use community_aws.Base.{
  ℕ, String, ◌≡◌, refl, ◌⊎◌, inl, inr, Bool, true, false, ◌&&◌, not, some, List, [], ◌∷◌, ◌++◌, All,
  string_eq, nat_eq, bool_eq, option_eq, ok,
}
use community_aws.Base.Run.{done, ◌>>=◌}
use community_aws.ManagedPolicy.Client.{Version, Policy, Iam}
use community_aws.ManagedPolicy.Versions.{
  non_default, list_versions, delete_versions, find_version, get_or_create_policy_version,
  set_if_default, set_if_only,
}
use community_aws.ManagedPolicy.Main.{
  present, Params, find_policy, get_policy_by_name, refreshed, update, run_state, main,
}

module _ (c : Iam) (arn document : String) (w : c.World) where
  -- the service has a document for the version, and it is not, or is, the one that is asked for
  abbrev pub Differs : Version → Type 0
  Differs v =
      (d : c.Document) × (c.get_policy_version arn v.version_id w ≡ ok d)
      × (c.differs d document ≡ true)

  abbrev pub Matches : Version → Type 0
  Matches v =
      (d : c.Document) × (c.get_policy_version arn v.version_id w ≡ ok d)
      × (c.differs d document ≡ false)

  find_version-first :
      (before : List Version) (v : Version) (behind : List Version)
      → All Differs before
      → Matches v
      → find_version c arn document (before ++ v ∷ behind) w ≡ done (some v, w)
  unfolding find_version
  find_version-first [] v behind differ (d, answer, same) = rw (answer, ◌>>=◌, same) refl
  find_version-first (x ∷ before) v behind ((d, answer, other), differ) same =
      rw (answer, ◌>>=◌, other) (find_version-first before v behind differ same)

non_default-none :
    (l : List Version) → All (λ v. v.is_default_version ≡ true) l → non_default l ≡ []
unfolding non_default
non_default-none [] all_ = refl
non_default-none (v ∷ l) (yes_, all_) = rw yes_ (non_default-none l all_)

set_if_only-unneeded :
    (c : Iam) (arn : String) (is_only : Bool) (l : List Version) (w : c.World)
    → c.list_policy_versions arn w ≡ ok l
    → ((is_only ≡ false) ⊎ All (λ x. x.is_default_version ≡ true) l)
    → set_if_only c arn is_only w ≡ done (false, w)
unfolding set_if_only list_versions delete_versions
set_if_only-unneeded c arn false l w listed only = refl
set_if_only-unneeded c arn true l w listed (inl wrong) = cc
set_if_only-unneeded c arn true l w listed (inr all_) =
    rw (listed, ◌>>=◌, non_default-none l all_, ◌>>=◌, non_default-none l all_) refl

-- Where a run for `present` finds a policy of the name, one of its versions has the document that is
-- asked for, that version is the default one unless no default is to be made, and there are no
-- others where it is to be the only one, the run reports no change and leaves the service as it
-- is. The versions that the service lists before it have other documents.
pub main-unchanged :
    (c : Iam) (pages : ℕ) (m : Params) (p : Policy) (l : List Policy) (before : List Version)
    (v : Version) (behind : List Version) (w : c.World)
    → m.state ≡ present
    → c.list_policies w ≡ ok l
    → find_policy m.policy_name l ≡ some p
    → c.list_policy_versions p.policy_arn w ≡ ok (before ++ v ∷ behind)
    → All (Differs c p.policy_arn m.policy w) before
    → Matches c p.policy_arn m.policy w v
    → (m.make_default && not v.is_default_version) ≡ false
    → ((m.only_version ≡ false) ⊎ All (λ x. x.is_default_version ≡ true) (before ++ v ∷ behind))
    → main c pages m w ≡ done (record { changed = false; policy = some p }, w)
unfolding main get_policy_by_name run_state update get_or_create_policy_version list_versions
    set_if_default refreshed
main-unchanged c pages m p l before v behind w st listed found versions differ same default_ only =
    rw
      (
        listed,
        ◌>>=◌,
        found,
        st,
        versions,
        find_version-first c p.policy_arn m.policy w before v behind differ same,
        default_,
        set_if_only-unneeded c p.policy_arn m.only_version (before ++ v ∷ behind) w versions only,
      )
      refl
