-- ===== src/Kinesis/Ends.antt =====
-- Termination: every function of the module ends, in the pages and the rounds that are enough for
-- the search of the stream and for the wait.
use community_aws.Base.{
  ℕ, suc, ◌*◌, String, ◌≢◌, ◌⊎◌, inl, inr, Bool, true, Option, if◌then◌else◌, Sum-cases, string_eq,
  nat_eq, bool_eq, option_eq,
}
use community_aws.Base.Int.{ℤ, pos, ◌≤ℤ◌}
use community_aws.Base.Run.{endless, return_}
use community_aws.Base.Rules.{of_if, ends, Ends}
use community_aws.Kinesis.Client.{Tags, Msg, Kinesis, attempt}
use community_aws.Kinesis.Actions.{
  TagsAction, StreamAction, EncryptionAction, RetentionAction, tags_action, stream_action,
  stream_encryption_action, retention_action, update_shard_count,
}
use community_aws.Kinesis.Find.{find_stream, wait_for_status}
use community_aws.Kinesis.Find.Laws.{IsService, find_stream-done, wait_for_status-total}
use community_aws.Kinesis.Main.{ModuleParams, main}
use community_aws.Kinesis.Closed.{Calls}
use community_aws.Kinesis.Closed.Main.{of_main}

module _ (k : Kinesis) (b : Bool) where
  attempt-Ends : (call : k.World → k.World ⊎ String) (text : Msg) → Ends (attempt call text)
  attempt-Ends call text w h = elim (Sum-cases (call w)) [
    | inl (v, e) ↦ cc (rw (e, attempt) at h)
    | inr (m, e) ↦ cc (rw (e, attempt) at h)
  ]

  unless_checked-Ends :
      (call : k.World → k.World ⊎ String) (text dry : Msg)
      → Ends (if b then return_ (true, dry) else attempt call text)
  unless_checked-Ends call text dry =
      of_if (ends k.World) b _ _ ((ends k.World).of_return _) (attempt-Ends call text)

  tags_action-Ends : (ts : Tags) (a : TagsAction) → Ends (tags_action k ts a b)
  unfolding tags_action
  tags_action-Ends ts TagsAction.create = unless_checked-Ends _ _ _
  tags_action-Ends ts TagsAction.delete = unless_checked-Ends _ _ _
  tags_action-Ends ts (TagsAction.other x) = (ends k.World).of_return _

  stream_action-Ends : (n : ℤ) (a : StreamAction) → Ends (stream_action k n a b)
  unfolding stream_action
  stream_action-Ends n StreamAction.create = unless_checked-Ends _ _ _
  stream_action-Ends n StreamAction.delete = unless_checked-Ends _ _ _
  stream_action-Ends n (StreamAction.other x) = (ends k.World).of_return _

  stream_encryption_action-Ends :
      (a : EncryptionAction) (t key : Option String) → Ends (stream_encryption_action k a t key b)
  unfolding stream_encryption_action
  stream_encryption_action-Ends EncryptionAction.start_encryption t key = unless_checked-Ends _ _ _
  stream_encryption_action-Ends EncryptionAction.stop_encryption t key = unless_checked-Ends _ _ _
  stream_encryption_action-Ends (EncryptionAction.other x) t key = (ends k.World).of_return _

  retention_action-Ends : (n : ℤ) (a : RetentionAction) → Ends (retention_action k n a b)
  unfolding retention_action
  retention_action-Ends n RetentionAction.increase = unless_checked-Ends _ _ _
  retention_action-Ends n RetentionAction.decrease = unless_checked-Ends _ _ _
  retention_action-Ends n (RetentionAction.other x) = (ends k.World).of_return _

  update_shard_count-Ends : (n : ℤ) → Ends (update_shard_count k n b)
  unfolding update_shard_count
  update_shard_count-Ends n = unless_checked-Ends _ _ _

  module _ (s : IsService k) (pages rounds : ℕ) (timeout : ℤ)
      (enough : timeout ≤ℤ pos (5 * rounds)) where
    find_stream-Ends : Ends (find_stream k (suc pages) b)
    find_stream-Ends w h = let (r, e) = find_stream-done k s pages b w in cc

    wait_for_status-Ends :
        (status : String) → Ends (wait_for_status k (suc pages) (suc rounds) status timeout b)
    wait_for_status-Ends status w h =
        let (r, w', e) = wait_for_status-total k s pages rounds status timeout b w enough in cc

    Calls-Ends : Calls k (suc pages) (suc rounds) timeout b (ends k.World)
    Calls-Ends = record {
      of_tags_action = tags_action-Ends;
      of_stream_action = stream_action-Ends;
      of_encryption_action = stream_encryption_action-Ends;
      of_retention_action = retention_action-Ends;
      of_update_shard_count = update_shard_count-Ends;
      of_find_stream = find_stream-Ends;
      of_wait_for_status = wait_for_status-Ends;
    }

module _ (k : Kinesis) where
  -- Where the service has no more shards than a page, a run of the module ends, with a report or with
  -- an exception: one page is enough for each search, and a round for every five seconds of the
  -- timeout, and one more, for each wait.
  pub main-ends :
      (s : IsService k) (pages rounds : ℕ) (m : ModuleParams) (w : k.World)
      → m.wait_timeout ≤ℤ pos (5 * rounds)
      → main k (suc pages) (suc rounds) m w ≢ endless
  main-ends s pages rounds m w enough =
      of_main (ends k.World) (Calls-Ends k m.check_mode s pages rounds m.wait_timeout enough) m w
