-- ===== src/S3Lifecycle/Client.antt =====
-- The S3 calls of s3_lifecycle.py: an interface, since boto3 and S3 are outside the repository.
use community_aws.Base.{
  String, ◌≡◌, ◌≢◌, ◌⊎◌, inl, inr, none, List, [], All, string_eq, nat_eq, bool_eq, option_eq,
  fail_json, Result, ok, err,
}
use community_aws.S3Lifecycle.Rule.{Rule}

-- The answer of `get_bucket_lifecycle_configuration`.
pub data Fetched : Type 0 where
  rules : List Rule → Fetched
  -- a ClientError with the code NoSuchLifecycleConfiguration
  no_configuration : Fetched
  -- any other ClientError or BotoCoreError
  failed : String → Fetched

-- A call that writes returns the new state of the bucket, or the message of its exception.
pub record Client : Type 1 where
  pub World : Type 0
  pub get_bucket_lifecycle_configuration : World → Fetched
  pub put_bucket_lifecycle_configuration : List Rule → World → World ⊎ String
  pub delete_bucket_lifecycle : World → World ⊎ String

-- What S3 documents of these calls: the rules written are the rules read, for rules that have
-- their ID, and a deleted configuration is not found.
pub record IsS3 (c : Client) : Type 1 where
  pub get-put :
      (l : List Rule) (w w' : c.World)
      → All (λ r. r.id ≢ none) l
      → c.put_bucket_lifecycle_configuration l w ≡ inl w'
      → c.get_bucket_lifecycle_configuration w' ≡ rules l
  pub get-delete :
      (w w' : c.World)
      → c.delete_bucket_lifecycle w ≡ inl w'
      → c.get_bucket_lifecycle_configuration w' ≡ no_configuration

-- the `try` around the first call
abbrev pub current_rules : Fetched → Result (List Rule)
current_rules (rules l) = ok l
current_rules no_configuration = ok []
current_rules (failed m) = err (fail_json m)

-- the `try` around a call that writes
abbrev pub or_fail : {A : Type 0} → A ⊎ String → Result A
or_fail (inl a) = ok a
or_fail (inr m) = err (fail_json m)
