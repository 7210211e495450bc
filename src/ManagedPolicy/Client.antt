-- ===== src/ManagedPolicy/Client.antt =====
-- The IAM calls of `plugins/modules/iam_managed_policy.py`: an interface, since boto3 and IAM are
-- outside the repository, and so is `compare_policies`.
use community_aws.Base.{
  ℕ, String, Bool, Option, List, string_eq, nat_eq, bool_eq, option_eq, fail_json, client_error,
  Result, ok, err,
}
use community_aws.Base.Run.{Run, done, raised, look, lift, ◌>>=◌}

pub record Version : Type 0 where
  pub version_id : String
  pub is_default_version : Bool
  pub create_date : ℕ

pub record Policy : Type 0 where
  pub policy_arn : String
  pub policy_name : String

-- a page of the entities that a policy is attached to; the marker is none for the last page
pub record Entities : Type 0 where
  pub policy_groups : List String
  pub policy_users : List String
  pub policy_roles : List String
  pub marker : Option String

pub data Kind : Type 0 where
  group user role : Kind

-- A ClientError is a `client_error` with its code.
pub record Iam : Type 1 where
  pub World : Type 0
  pub Document : Type 0
  -- `compare_policies(document, json.loads(policy_document))`
  pub differs : Document → String → Bool
  pub list_policies : World → Result (List Policy)
  pub list_policy_versions : String → World → Result (List Version)
  pub get_policy_version : String → String → World → Result Document
  pub get_policy : String → World → Result Policy
  -- with the `marker` of the page before
  pub list_entities_for_policy : String → Option String → World → Result Entities
  -- the name, the document and the description
  pub create_policy : String → String → String → World → Result (Policy × World)
  pub create_policy_version : String → String → World → Result (Version × World)
  pub set_default_policy_version : String → String → World → Result World
  pub delete_policy_version : String → String → World → Result World
  pub detach_policy : Kind → String → String → World → Result World
  pub delete_policy : String → World → Result World

-- `except ClientError as e: module.fail_json(…)`
abbrev pub client_fails {ℓ} : {A : Type ℓ} → String → Result A → Result A
client_fails text (err (client_error code)) = err (fail_json text)
client_fails text r = r

-- `except Exception as e: module.fail_json(…)`
abbrev pub any_fails {ℓ} : {A : Type ℓ} → String → Result A → Result A
any_fails text (err e) = err (fail_json text)
any_fails text (ok a) = ok a

module _ (c : Iam) where
  -- a call that reads
  abbrev pub ask : {A : Type 0} → (c.World → Result A) → Run c.World A
  ask call = look call >>= lift

  -- a call that changes the state, with a value
  abbrev pub change_with : {A : Type 0} → (c.World → Result (A × c.World)) → Run c.World A
  change_with call w = elim (call w) [ ok (a, w') ↦ done (a, w') | err e ↦ raised e ]

  abbrev pub change : (c.World → Result c.World) → Run c.World (Unit {0})
  change call w = elim (call w) [ ok w' ↦ done (tt, w') | err e ↦ raised e ]
