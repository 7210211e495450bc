-- ===== src/S3Notification/Tests.antt =====
-- Tests of the notifications of a bucket in memory, and the theorems at its runs.
use community_aws.Base.{
  ◌≡◌, refl, inl, true, false, none, some, [], ◌∷◌, String-discrete, string_eq, nat_eq, bool_eq,
  option_eq, ok,
}
use community_aws.Base.Int.{pos}
use community_aws.S3Notification.Config.{Config, config_eq, Config-discrete, Params, from_params}
use community_aws.S3Notification.Bucket.{
  Notifications, Client, IsS3, present, find_config, other_configs, nothing_to_do, new_configs,
  full_config, upload_bucket_config, main,
}
use community_aws.S3Notification.Bucket.Laws.{wanted, main_lem, main_twice, main_clears}

abbrev memory : Client
memory = record {
  World = Notifications;
  get_bucket_notification_configuration = λ w. ok w;
  put_bucket_notification_configuration = λ n w. inl n;
}

memory-IsS3 : IsS3 memory
memory-IsS3 = record { get-put = λ n w w' h. cc }

abbrev params : Params
params = record {
  event_name = "thumbs";
  lambda_function_arn = some "fn";
  events = "s3:ObjectRemoved:*" ∷ "s3:ObjectCreated:*" ∷ [];
  prefix = "in/";
  suffix = ".jpg";
  lambda_alias = none;
  lambda_version = pos 12;
}

abbrev thumbs : Config
thumbs = record {
  id = "thumbs";
  lambda_function_arn = some "fn:12";
  events = "s3:ObjectCreated:*" ∷ "s3:ObjectRemoved:*" ∷ [];
  filter_rules = some (("Prefix", "in/") ∷ ("Suffix", ".jpg") ∷ []);
  rest = [];
}

-- the events are sorted, and the version is appended to the function's name
built : from_params params ≡ thumbs
unfolding from_params
built = refl

abbrev scan : Config
scan = record {
  id = "scan";
  lambda_function_arn = some "scan";
  events = [];
  filter_rules = none;
  rest = [];
}

abbrev before : Notifications
before = record { lambda_function = some (scan ∷ []); topic = some ("news" ∷ []); queue = none }

abbrev after : Notifications
after = record { lambda_function = some (scan ∷ thumbs ∷ []); topic = none; queue = none }

-- The bucket's notification to a topic is lost.
first_run : main memory present false params before ≡ ok ((true, scan ∷ thumbs ∷ []), after)
unfolding main full_config nothing_to_do find_config new_configs upload_bucket_config from_params
    String-discrete Config-discrete
first_run = refl

main_lem_example :
    (full_config memory after ≡ ok (scan ∷ thumbs ∷ []))
    × (find_config "thumbs" (scan ∷ thumbs ∷ []) ≡ wanted present (from_params params))
    × (other_configs "thumbs" (scan ∷ thumbs ∷ []) ≡ other_configs "thumbs" (scan ∷ []))
unfolding full_config
main_lem_example =
    main_lem memory memory-IsS3 present params before after (scan ∷ []) (scan ∷ thumbs ∷ []) true
      refl first_run

main_twice_example : main memory present true params after ≡ ok ((false, scan ∷ thumbs ∷ []), after)
main_twice_example =
    main_twice memory memory-IsS3 present true params before after (scan ∷ thumbs ∷ []) true
      first_run

main_clears_example :
    memory.get_bucket_notification_configuration after
    ≡ ok (record { lambda_function = some (scan ∷ thumbs ∷ []); topic = none; queue = none })
main_clears_example =
    main_clears memory memory-IsS3 present params before after (scan ∷ thumbs ∷ []) first_run
