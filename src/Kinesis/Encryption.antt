-- ===== src/Kinesis/Encryption.antt =====
-- `start_stream_encryption` and `stop_stream_encryption`.
use community_aws.Base.{
  ℕ, String, Bool, true, false, not, Option, none, some, if◌then◌else◌, ◌==◌, string_eq, nat_eq,
  bool_eq, option_eq,
}
use community_aws.Base.Int.{ℤ}
use community_aws.Base.Run.{Run, return_, ◌>>=◌}
use community_aws.Kinesis.Client.{
  Stream, Msg, no_message, does_not_exist, encryption_started, encryption_starting,
  encryption_stopped, encryption_stopping, Kinesis,
}
use community_aws.Kinesis.Actions.{EncryptionAction, stream_encryption_action}
use community_aws.Kinesis.Find.{find_stream, wait_for_status}
use community_aws.Kinesis.Create.{Report, report}

-- `stream.get('EncryptionType')`
abbrev pub encryption_type_of : Stream → Option String
encryption_type_of none = none
encryption_type_of (some s) = s.encryption_type

module _ (k : Kinesis) (pages rounds : ℕ) where
  -- what follows the call in both functions, with the message of each case
  unfoldable pub after_encryption : Bool → ℤ → Bool → Msg → Msg → Run k.World Report
  after_encryption wait wait_timeout check_mode waited_msg msg =
      if wait
      then (wait_for_status k pages rounds "ACTIVE" wait_timeout check_mode
          >>= λ (active, wait_msg, stream). return_ (report active true waited_msg stream))
      else return_ (report true true msg none)

  unfoldable pub start_stream_encryption :
      Option String → Option String → Bool → ℤ → Bool → Run k.World Report
  start_stream_encryption encryption_type key_id wait wait_timeout check_mode =
      find_stream k pages check_mode >>= λ (found, find_msg, stream).
      if not found
      then return_ (report true false does_not_exist none)
      else stream_encryption_action k EncryptionAction.start_encryption encryption_type key_id
          check_mode
        >>= λ (called, msg).
            if called
            then after_encryption wait wait_timeout check_mode encryption_started
                encryption_starting
            else return_ (report false false msg none)

  -- the call, made only on a stream that is encrypted
  unfoldable pub stop_call :
      Option String → Option String → Bool → Stream → Run k.World (Bool × Msg)
  stop_call encryption_type key_id check_mode stream =
      if encryption_type_of stream == some "KMS"
      then stream_encryption_action k EncryptionAction.stop_encryption encryption_type key_id
          check_mode
      else return_ (encryption_type_of stream == some "NONE", no_message)

  unfoldable pub stop_stream_encryption :
      Option String → Option String → Bool → ℤ → Bool → Run k.World Report
  unfolding stop_call
  stop_stream_encryption encryption_type key_id wait wait_timeout check_mode =
      find_stream k pages check_mode >>= λ (found, find_msg, stream).
      if not found
      then return_ (report true false does_not_exist none)
      else stop_call encryption_type key_id check_mode stream >>= λ (called, msg).
          if called
          then after_encryption wait wait_timeout check_mode encryption_stopped encryption_stopping
          else return_ (report false false msg none)
