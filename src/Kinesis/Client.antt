-- ===== src/Kinesis/Client.antt =====
-- The Kinesis calls of kinesis_stream.py, for the one stream that the module is about, and the clock.
-- A call returns its result or the message of its ClientError.
use community_aws.Base.{
  ℕ, String, ◌⊎◌, inl, inr, Bool, true, false, Option, none, some, List, ◌==◌, string_eq, nat_eq,
  bool_eq, option_eq,
}
use community_aws.Base.Int.{ℤ}
use community_aws.Base.Run.{Run, done}

-- tags as a dictionary in the order of insertion, or as the list of {Key, Value} of the service
abbrev pub Tags : Type 0
Tags = List (String × String)

-- what the service describes: a page of the shards, each closed or open
pub record Description : Type 0 where
  pub stream_status : String
  pub retention_period_hours : ℕ
  pub encryption_type : Option String
  pub closed_shards : List Bool
  pub has_more_shards : Bool

-- the numbers of shards
pub record ShardCounts : Type 0 where
  pub open_shards_count : ℕ
  pub closed_shards_count : ℕ
  pub shards_count : ℕ

-- the dictionary that `find_stream` makes of it; the numbers are no keys of it where a page after
-- the first one could not be described
pub record Found : Type 0 where
  pub stream_status : String
  pub retention_period_hours : ℕ
  pub encryption_type : Option String
  pub shard_counts : Option ShardCounts
  pub has_more_shards : Bool

-- none is the empty dictionary
abbrev pub Stream : Type 0
Stream = Option Found

-- the texts of the module, without the stream's name
pub data Msg : Type 0 where
  no_message : Msg
  -- a ClientError
  failed : String → Msg
  invalid_action : String → Msg
  wait_time_out : Msg
  status_achieved : String → Msg
  tags_up_to_date : Msg
  retention_increased : ℤ → Msg
  retention_decreased : ℤ → Msg
  retention_same : ℤ → Msg
  retention_updating : Msg
  status_must_be_active : Option String → Msg
  shards_updating : Msg
  updated : Msg
  did_not_change : Msg
  failed_to_create : Msg → Msg
  being_created : Msg
  created : Msg
  deleted : Msg
  being_deleted : Msg
  does_not_exist : Msg
  encryption_started : Msg
  encryption_starting : Msg
  encryption_stopped : Msg
  encryption_stopping : Msg

-- The calls that read leave the state as it is; time passes when the module sleeps.
pub record Kinesis : Type 1 where
  pub World : Type 0
  pub list_tags_for_stream : World → Tags ⊎ String
  pub describe_stream : World → Description ⊎ String
  pub add_tags_to_stream : Tags → World → World ⊎ String
  pub remove_tags_from_stream : List String → World → World ⊎ String
  pub create_stream : ℤ → World → World ⊎ String
  pub delete_stream : World → World ⊎ String
  -- the encryption type and the ID of the key
  pub start_stream_encryption : Option String → Option String → World → World ⊎ String
  pub stop_stream_encryption : Option String → Option String → World → World ⊎ String
  pub increase_stream_retention_period : ℤ → World → World ⊎ String
  pub decrease_stream_retention_period : ℤ → World → World ⊎ String
  pub update_shard_count : ℤ → World → World ⊎ String
  pub now : World → ℕ
  pub sleep : ℕ → World → World

-- `try` a call that changes the stream, then `success = True`, with a message for each case
abbrev pub attempt : {W : Type 0} → (W → W ⊎ String) → Msg → Run W (Bool × Msg)
attempt call message w = elim (call w) [
  | inl w' ↦ done ((true, message), w')
  | inr m ↦ done ((false, failed m), w)
]

abbrev pub has_status : String → Stream → Bool
has_status status none = false
has_status status (some s) = s.stream_status == status

-- the numbers of shards of a stream
abbrev pub counts_of : Stream → Option ShardCounts
counts_of none = none
counts_of (some s) = s.shard_counts

-- `stream.get('StreamStatus')`
abbrev pub status_of : Stream → Option String
status_of none = none
status_of (some s) = some s.stream_status
