-- ===== src/Kinesis/CheckMode.antt =====
-- Check mode: no function of the module changes the state of the service.
use community_aws.Base.{
  ℕ, zero, suc, String, ◌≡◌, sym, ◌∙◌, inl, inr, true, Option, none, Bool-cases, string_eq, nat_eq,
  bool_eq, option_eq,
}
use community_aws.Base.Int.{ℤ, pos, ◌+ℤ◌, ltb_ℤ}
use community_aws.Base.Run.{done, done_inj, bind-eq-done}
use community_aws.Base.Rules.{keeps, Keeps}
use community_aws.Kinesis.Client.{Tags, Stream, Kinesis}
use community_aws.Kinesis.Actions.{
  TagsAction, StreamAction, EncryptionAction, RetentionAction, tags_action, stream_action,
  stream_encryption_action, retention_action, update_shard_count,
}
use community_aws.Kinesis.Find.{find_stream, wait_for_status, wait_loop, is_achieved}
use community_aws.Kinesis.Create.{Report}
use community_aws.Kinesis.Main.{ModuleParams, main}
use community_aws.Kinesis.Closed.{Calls}
use community_aws.Kinesis.Closed.Main.{of_main}

module _ (k : Kinesis) (pages : ℕ) where
  tags_action-Keeps : (ts : Tags) (a : TagsAction) → Keeps (tags_action k ts a true)
  unfolding tags_action
  tags_action-Keeps ts TagsAction.create = (keeps k.World).of_return _
  tags_action-Keeps ts TagsAction.delete = (keeps k.World).of_return _
  tags_action-Keeps ts (TagsAction.other x) = (keeps k.World).of_return _

  stream_action-Keeps : (n : ℤ) (a : StreamAction) → Keeps (stream_action k n a true)
  unfolding stream_action
  stream_action-Keeps n StreamAction.create = (keeps k.World).of_return _
  stream_action-Keeps n StreamAction.delete = (keeps k.World).of_return _
  stream_action-Keeps n (StreamAction.other x) = (keeps k.World).of_return _

  stream_encryption_action-Keeps :
      (a : EncryptionAction) (t key : Option String)
      → Keeps (stream_encryption_action k a t key true)
  unfolding stream_encryption_action
  stream_encryption_action-Keeps EncryptionAction.start_encryption t key =
      (keeps k.World).of_return _
  stream_encryption_action-Keeps EncryptionAction.stop_encryption t key =
      (keeps k.World).of_return _
  stream_encryption_action-Keeps (EncryptionAction.other x) t key = (keeps k.World).of_return _

  retention_action-Keeps : (n : ℤ) (a : RetentionAction) → Keeps (retention_action k n a true)
  unfolding retention_action
  retention_action-Keeps n RetentionAction.increase = (keeps k.World).of_return _
  retention_action-Keeps n RetentionAction.decrease = (keeps k.World).of_return _
  retention_action-Keeps n (RetentionAction.other x) = (keeps k.World).of_return _

  update_shard_count-Keeps : (n : ℤ) → Keeps (update_shard_count k n true)
  unfolding update_shard_count
  update_shard_count-Keeps n = (keeps k.World).of_return _

  find_stream-Keeps : Keeps (find_stream k pages true)
  unfolding find_stream
  find_stream-Keeps = (keeps k.World).of_return _

  -- the first round of a wait that is in time succeeds
  wait_loop-Keeps :
      (rounds : ℕ) (deadline : ℤ) (status : String) (stream : Stream)
      → Keeps (wait_loop k pages rounds deadline status true stream)
  unfolding wait_loop find_stream is_achieved
  wait_loop-Keeps zero deadline status stream w w' a h = cc
  wait_loop-Keeps (suc rounds) deadline status stream w w' a h =
      elim (Bool-cases (ltb_ℤ (pos (k.now w)) deadline)) [
        | inl early ↦ sym (done_inj (rw early at h)).1
        | inr late ↦ sym (done_inj (rw late at h)).1
      ]

  wait_for_status-Keeps :
      (rounds : ℕ) (timeout : ℤ) (status : String)
      → Keeps (wait_for_status k pages rounds status timeout true)
  unfolding wait_for_status
  wait_for_status-Keeps rounds timeout status w w' a h =
      let (r, v, looped, ended) =
        bind-eq-done (wait_loop k pages rounds (pos (k.now w) +ℤ timeout) status true none) _ w w' a
          h in
      sym (done_inj ended).1
      ∙ wait_loop-Keeps rounds (pos (k.now w) +ℤ timeout) status none w v r looped

  Calls-Keeps : (rounds : ℕ) (timeout : ℤ) → Calls k pages rounds timeout true (keeps k.World)
  Calls-Keeps rounds timeout = record {
    of_tags_action = tags_action-Keeps;
    of_stream_action = stream_action-Keeps;
    of_encryption_action = stream_encryption_action-Keeps;
    of_retention_action = retention_action-Keeps;
    of_update_shard_count = update_shard_count-Keeps;
    of_find_stream = find_stream-Keeps;
    of_wait_for_status = wait_for_status-Keeps rounds timeout;
  }

  -- In check mode a run of the module that returns has left the service, and its clock, as they were.
  pub main-check_mode :
      (rounds : ℕ) (m : ModuleParams) (r : Report) (w w' : k.World)
      → main k pages rounds (record m { check_mode = true }) w ≡ done (r, w')
      → w' ≡ w
  main-check_mode rounds m r w w' h =
      of_main (keeps k.World) (Calls-Keeps rounds m.wait_timeout) m w w' r h
