-- ===== src/S3Notification/Bucket.antt =====
-- The class `AmazonBucket`, and what `main` does. The notifications are read once and kept in
-- `_full_config_cache`; here they are read by `main` and passed along.
pub mod Laws
use community_aws.Base.{
  ℕ, zero, suc, ◌+◌, ◌-◌, ◌*◌, ◌≤◌, ◌<◌, String, ◌≡◌, refl, sym, ap, ◌∙◌, ◌≢◌, ◌↔◌, ◌⊎◌, inl, inr,
  Bool, true, false, ◌&&◌, ◌||◌, not, Option, none, some, List, [], ◌∷◌, ◌++◌, map, arith,
  ℕ_discrete, ltb, leb, eqb, if◌then◌else◌, Bool-cases, Sum-cases, Option-cases, eqb_iff, length,
  take, drop, filter, any, all, All, filter-filter, filter-append, contains, contains-append,
  contains-filter, length-append, length-take, length-drop, take-append-drop, Eq, ◌==◌, ==_iff,
  ==_refl, ==_false, String-discrete, string_eq, nat_eq, bool_eq, option_eq, Option-discrete, upper,
  Error, key_error, value_error, type_error, index_error, unbound_local_error, fail_json,
  client_error, Result, ok, err, ◌>>=◌, ◌>>◌, or_raise, raise_if, >>=-eq-ok, for_each, Result-cases,
  ok_pair, ok_inj, some_ok_pair,
}
use community_aws.S3Notification.Config.{Config, config_eq, Params, from_params}

-- A NotificationConfiguration: the notifications to functions, to topics and to queues. A missing
-- list is none.
pub record Notifications : Type 0 where
  pub lambda_function : Option (List Config)
  pub topic : Option (List String)
  pub queue : Option (List String)

-- boto3's S3 client
pub record Client : Type 1 where
  pub World : Type 0
  pub get_bucket_notification_configuration : World → Result Notifications
  -- the new state, or the message of an exception
  pub put_bucket_notification_configuration : Notifications → World → World ⊎ String

-- What S3 documents: a configuration that is put replaces the one before it.
pub record IsS3 (c : Client) : Type 0 where
  pub get-put :
      (n : Notifications) (w w' : c.World)
      → c.put_bucket_notification_configuration n w ≡ inl w'
      → c.get_bucket_notification_configuration w' ≡ ok n

pub data State : Type 0 where
  present absent : State

unfoldable pub find_config : String → List Config → Option Config
find_config name [] = none
find_config name (k ∷ l) = if k.id == name then some k else find_config name l

-- the list that `apply_config` and `delete_config` begin with
unfoldable pub other_configs : String → List Config → List Config
other_configs name l = filter (λ k. not (k.id == name)) l

-- `Config.__eq__` with the result of `current_config`
unfoldable pub is_same : Option Config → Config → Bool
is_same none desired = false
is_same (some k) desired = k == desired

abbrev pub is_there : Option Config → Bool
is_there none = false
is_there (some k) = true

-- the first test of `main`
unfoldable pub nothing_to_do : State → Option Config → Config → Bool
unfolding is_same
nothing_to_do present current desired = is_same current desired
nothing_to_do absent current desired = not (is_there current)

-- the list that is uploaded
unfoldable pub new_configs : State → Config → List Config → List Config
unfolding other_configs
new_configs present desired l = other_configs desired.id l ++ desired ∷ []
new_configs absent desired l = other_configs desired.id l

module _ (c : Client) where
  unfoldable pub full_config : c.World → Result (List Config)
  full_config w = c.get_bucket_notification_configuration w >>= λ n. ok (configs n.lambda_function)
    where
      configs : Option (List Config) → List Config
      configs none = []
      configs (some l) = l

  -- `_upload_bucket_config`, under the `try` of `main`
  unfoldable pub upload_bucket_config : List Config → c.World → Result c.World
  upload_bucket_config l w =
      elim (c.put_bucket_notification_configuration
        (record { lambda_function = some l; topic = none; queue = none }) w) [
          | inl w' ↦ ok w'
          | inr m ↦ err (fail_json m)
        ]

  -- the result of `main`: `changed`, the notifications, and the state of the service
  unfoldable pub main : State → Bool → Params → c.World → Result ((Bool × List Config) × c.World)
  unfolding upload_bucket_config
  main state check_mode p w = full_config w >>= λ configs.
      let desired = from_params p in
      if nothing_to_do state (find_config p.event_name configs) desired
      then ok ((false, configs), w)
      else if check_mode
      then ok ((true, configs), w)
      else upload_bucket_config (new_configs state desired configs) w >>= λ w'.
          ok ((true, new_configs state desired configs), w')
