-- ===== src/Kinesis/Actions.antt =====
-- The functions that make one call: `tags_action`, `stream_action`, `stream_encryption_action`,
-- `retention_action` and `update_shard_count`. In check mode none of them calls the service.
use community_aws.Base.{
  String, Bool, true, false, Option, List, [], ◌∷◌, if◌then◌else◌, string_eq, nat_eq, bool_eq,
  option_eq,
}
use community_aws.Base.Int.{ℤ}
use community_aws.Base.Run.{Run, return_}
use community_aws.Kinesis.Client.{
  Tags, Msg, no_message, invalid_action, retention_increased, retention_decreased, Kinesis, attempt,
}

-- the parameter `action`, a text of which two values are valid
pub data TagsAction : Type 0 where
  create delete : TagsAction
  other : String → TagsAction

pub data StreamAction : Type 0 where
  create delete : StreamAction
  other : String → StreamAction

pub data EncryptionAction : Type 0 where
  start_encryption stop_encryption : EncryptionAction
  other : String → EncryptionAction

pub data RetentionAction : Type 0 where
  increase decrease : RetentionAction
  other : String → RetentionAction

-- the keys of a dictionary
abbrev pub keys_of : Tags → List String
keys_of [] = []
keys_of ((k, v) ∷ l) = k ∷ keys_of l

module _ (k : Kinesis) where
  unfoldable pub tags_action : Tags → TagsAction → Bool → Run k.World (Bool × Msg)
  tags_action tags TagsAction.create check_mode =
      if check_mode
      then return_ (true, no_message)
      else attempt (k.add_tags_to_stream tags) no_message
  tags_action tags TagsAction.delete check_mode =
      if check_mode
      then return_ (true, no_message)
      else attempt (k.remove_tags_from_stream (keys_of tags)) no_message
  tags_action tags (TagsAction.other a) check_mode = return_ (false, invalid_action a)

  unfoldable pub stream_action : ℤ → StreamAction → Bool → Run k.World (Bool × Msg)
  stream_action shard_count StreamAction.create check_mode =
      if check_mode
      then return_ (true, no_message)
      else attempt (k.create_stream shard_count) no_message
  stream_action shard_count StreamAction.delete check_mode =
      if check_mode then return_ (true, no_message) else attempt k.delete_stream no_message
  stream_action shard_count (StreamAction.other a) check_mode = return_ (false, invalid_action a)

  unfoldable pub stream_encryption_action :
      EncryptionAction → Option String → Option String → Bool → Run k.World (Bool × Msg)
  stream_encryption_action EncryptionAction.start_encryption encryption_type key_id check_mode =
      if check_mode
      then return_ (true, no_message)
      else attempt (k.start_stream_encryption encryption_type key_id) no_message
  stream_encryption_action EncryptionAction.stop_encryption encryption_type key_id check_mode =
      if check_mode
      then return_ (true, no_message)
      else attempt (k.stop_stream_encryption encryption_type key_id) no_message
  stream_encryption_action (EncryptionAction.other a) encryption_type key_id check_mode =
      return_ (false, invalid_action a)

  unfoldable pub retention_action : ℤ → RetentionAction → Bool → Run k.World (Bool × Msg)
  retention_action period RetentionAction.increase check_mode =
      if check_mode
      then return_ (true, no_message)
      else attempt (k.increase_stream_retention_period period) (retention_increased period)
  retention_action period RetentionAction.decrease check_mode =
      if check_mode
      then return_ (true, no_message)
      else attempt (k.decrease_stream_retention_period period) (retention_decreased period)
  retention_action period (RetentionAction.other a) check_mode = return_ (false, invalid_action a)

  unfoldable pub update_shard_count : ℤ → Bool → Run k.World (Bool × Msg)
  update_shard_count number_of_shards check_mode =
      if check_mode
      then return_ (true, no_message)
      else attempt (k.update_shard_count number_of_shards) no_message
