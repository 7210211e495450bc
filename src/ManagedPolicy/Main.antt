-- ===== src/ManagedPolicy/Main.antt =====
-- The removal of a policy, `get_policy_by_name`, `detach_all_entities` and `main`. `pages` bounds the
-- pages of the entities that are read.
pub mod Laws
pub mod Unchanged
use community_aws.Base.{
  some_inj, is_within, is_empty, ℕ, zero, suc, ◌+◌, ◌-◌, ◌*◌, ◌≤◌, ◌<◌, String, ◌≡◌, refl, sym, ap,
  ◌∙◌, ◌≢◌, ◌↔◌, ◌⊎◌, inl, inr, Bool, true, false, ◌&&◌, ◌||◌, not, Option, none, some, List, [],
  ◌∷◌, ◌++◌, map, arith, ℕ_discrete, ltb, leb, eqb, if◌then◌else◌, Bool-cases, Sum-cases,
  Option-cases, eqb_iff, length, take, drop, filter, any, all, All, filter-filter, filter-append,
  contains, contains-append, contains-filter, length-append, length-take, length-drop,
  take-append-drop, Eq, ◌==◌, ==_iff, ==_refl, ==_false, String-discrete, string_eq, nat_eq,
  bool_eq, option_eq, Option-discrete, upper, lower, lower, Error, key_error, value_error,
  type_error, index_error, unbound_local_error, fail_json, client_error, Result, ok, err, or_raise,
  raise_if, >>=-eq-ok, for_each, Result-cases, ok_pair, ok_inj, some_ok_pair,
}
use community_aws.Base.Run.{
  Run, Outcome, done, raised, endless, return_, look, lift, raise, ◌>>=◌, ◌>>◌,
}
use community_aws.ManagedPolicy.Client.{
  Version, Policy, Entities, Kind, group, user, role, Iam, client_fails, any_fails, ask,
  change_with, change,
}
use community_aws.ManagedPolicy.Versions.{
  non_default, list_versions, delete_versions, get_or_create_policy_version, set_if_default,
  set_if_only,
}

pub data State : Type 0 where
  present absent : State

-- `module.params`; `policy` is the document in the form of `json.dumps`
pub record Params : Type 0 where
  pub policy_name : String
  pub policy_description : String
  pub policy : String
  pub make_default : Bool
  pub only_version : Bool
  pub state : State

pub record Report : Type 0 where
  pub changed : Bool
  pub policy : Option Policy

-- the loop of `get_policy_by_name`
unfoldable pub find_policy : String → List Policy → Option Policy
find_policy name [] = none
find_policy name (p ∷ l) = if p.policy_name == name then some p else find_policy name l

module _ (c : Iam) where
  unfoldable pub get_policy_by_name : String → Run c.World (Option Policy)
  unfolding find_policy
  get_policy_by_name name =
      ask c (λ w. client_fails "Couldn't list policies" (c.list_policies w)) >>= λ l.
      return_ (find_policy name l)

  unfoldable pub detach_each : String → Kind → List String → Run c.World (Unit {0})
  detach_each arn kind [] = return_ tt
  detach_each arn kind (name ∷ l) =
      change c (λ w. client_fails "Couldn't detach policy" (c.detach_policy kind arn name w))
      >> detach_each arn kind l

  unfoldable pub detach_all_entities : ℕ → String → Option String → Run c.World (Unit {0})
  unfolding detach_each
  detach_all_entities zero arn marker w = endless
  detach_all_entities (suc pages) arn marker w =
      let more : Option String → Run c.World (Unit {0}) =
        λ o. elim o [ none ↦ return_ tt | some m ↦ detach_all_entities pages arn (some m) ] in
      let page =
        ask c (λ v.
          client_fails "Couldn't detach list entities for policy"
            (c.list_entities_for_policy arn marker v))
        >>= λ entities.
            detach_each arn group entities.policy_groups
            >> detach_each arn user entities.policy_users
            >> detach_each arn role entities.policy_roles
            >> more entities.marker in
      page w

  -- the end of `present`: a change is followed by a new description
  unfoldable pub refreshed : Policy → Bool → Run c.World Report
  refreshed p changed =
      if changed
      then (ask c (λ w. any_fails "Couldn't get policy" (c.get_policy p.policy_arn w)) >>= λ p'.
          return_ (record { changed = true; policy = some p' }))
      else return_ (record { changed = false; policy = some p })

  -- `present`, for a policy that is there
  unfoldable pub update : Params → Policy → Run c.World Report
  unfolding get_or_create_policy_version set_if_default set_if_only refreshed
  update m p = get_or_create_policy_version c p.policy_arn m.policy >>= λ (version, created).
      set_if_default c p.policy_arn version m.make_default >>= λ moved.
      set_if_only c p.policy_arn m.only_version >>= λ cleaned.
      refreshed p (cleaned || (moved || created))

  unfoldable pub create : Params → Run c.World Report
  create m =
      change_with c (λ w.
        any_fails "Couldn't create policy"
          (c.create_policy m.policy_name m.policy m.policy_description w))
      >>= λ p. return_ (record { changed = true; policy = some p })

  -- `absent`, for a policy that is there
  unfoldable pub remove : ℕ → Policy → Run c.World Report
  unfolding detach_all_entities list_versions delete_versions non_default
  remove pages p =
      detach_all_entities pages p.policy_arn none >> list_versions c p.policy_arn >>= λ versions.
      delete_versions c p.policy_arn (non_default versions)
      >> change c (λ w. any_fails "Couldn't delete policy" (c.delete_policy p.policy_arn w))
      >> return_ (record { changed = true; policy = some p })

  unfoldable pub run_state : ℕ → Params → State → Option Policy → Run c.World Report
  unfolding create update remove
  run_state pages m present none = create m
  run_state pages m present (some p) = update m p
  run_state pages m absent none = return_ (record { changed = false; policy = none })
  run_state pages m absent (some p) = remove pages p

  unfoldable pub main : ℕ → Params → Run c.World Report
  unfolding get_policy_by_name run_state
  main pages m = get_policy_by_name m.policy_name >>= λ p. run_state pages m m.state p
