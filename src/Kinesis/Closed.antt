-- ===== src/Kinesis/Closed.antt =====
-- What holds of the single calls holds of the functions of the module that are made of them: the
-- actions, the tags and `update`.
pub mod Main
use community_aws.Base.{
  is_empty, ℕ, zero, suc, ◌+◌, ◌-◌, ◌*◌, ◌≤◌, ◌<◌, String, ◌≡◌, refl, sym, ap, ◌∙◌, ◌≢◌, ◌↔◌, ◌⊎◌,
  inl, inr, Bool, true, false, ◌&&◌, ◌||◌, not, Option, none, some, List, [], ◌∷◌, ◌++◌, map, arith,
  ℕ_discrete, ltb, leb, eqb, if◌then◌else◌, Bool-cases, Sum-cases, Option-cases, eqb_iff, length,
  take, drop, filter, any, all, All, filter-filter, filter-append, contains, contains-append,
  contains-filter, length-append, length-take, length-drop, take-append-drop, Eq, ◌==◌, ==_iff,
  ==_refl, ==_false, String-discrete, string_eq, nat_eq, bool_eq, option_eq, Option-discrete, upper,
  Error, key_error, value_error, type_error, index_error, unbound_local_error, fail_json,
  client_error, Result, ok, err, ◌>>◌, or_raise, raise_if, >>=-eq-ok, for_each, Result-cases,
  ok_pair, ok_inj, some_ok_pair,
}
use community_aws.Base.Int.{ℤ, pos, negsuc, ◌+ℤ◌, ltb_ℤ, eqb_ℤ}
use community_aws.Base.Run.{Run, Outcome, done, return_, given, ◌>>=◌}
use community_aws.Base.Rules.{Closed, of_if, of_given}
use community_aws.Kinesis.Client.{Tags, Description, Found, Stream, Msg, Kinesis, has_status}
use community_aws.Kinesis.Actions.{
  TagsAction, StreamAction, EncryptionAction, RetentionAction, tags_action, stream_action,
  stream_encryption_action, retention_action, update_shard_count,
}
use community_aws.Kinesis.Tags.{
  make_tags_in_proper_format, difference, get_tags, make_tags_in_aws_format, update_tags,
  create_tags, update_rest, replace_tags,
}
use community_aws.Kinesis.Find.{find_stream, wait_for_status}
use community_aws.Kinesis.Update.{
  Params, Part, Result3, unless_returned, wait_active, set_retention, after_retention,
  change_retention, update_retention, after_shards, update_shards, update_finally, update,
}
use community_aws.Kinesis.Create.{
  Report, Made, wait_created, collect_results, retain_created, tag_created, create_new,
  update_found, collect_made, create_stream,
}
use community_aws.Kinesis.Delete.{after_delete, delete_stream}
use community_aws.Kinesis.Encryption.{
  after_encryption, stop_call, start_stream_encryption, stop_stream_encryption,
}
use community_aws.Kinesis.Main.{
  ModuleParams, State, present, absent, EncryptionState, enabled, disabled, check_params, params_of,
  shards_of, set_encryption, run_state, main,
}

-- a closed predicate that holds of the calls, with a timeout of the waits and the check mode
pub record Calls (k : Kinesis) (pages rounds : ℕ) (timeout : ℤ) (b : Bool) (c : Closed k.World)
    : Type 0 where
  pub of_tags_action : (ts : Tags) (a : TagsAction) → c.Holds (tags_action k ts a b)
  pub of_stream_action : (n : ℤ) (a : StreamAction) → c.Holds (stream_action k n a b)
  pub of_encryption_action :
      (a : EncryptionAction) (t key : Option String)
      → c.Holds (stream_encryption_action k a t key b)
  pub of_retention_action : (n : ℤ) (a : RetentionAction) → c.Holds (retention_action k n a b)
  pub of_update_shard_count : (n : ℤ) → c.Holds (update_shard_count k n b)
  pub of_find_stream : c.Holds (find_stream k pages b)
  pub of_wait_for_status :
      (status : String) → c.Holds (wait_for_status k pages rounds status timeout b)

module _ {k : Kinesis} {pages rounds : ℕ} {timeout : ℤ} {b : Bool} (c : Closed k.World)
    (s : Calls k pages rounds timeout b c) where
  of_create_tags : (ts : Tags) → c.Holds (create_tags k ts b)
  unfolding create_tags
  of_create_tags ts = search (c.of_return, c.of_bind, of_if c, s.of_tags_action)

  of_update_rest : (ts : Tags) → c.Holds (update_rest k ts b)
  unfolding update_rest
  of_update_rest ts = search (c.of_return, of_if c, of_create_tags)

  of_replace_tags : (ts us : Tags) → c.Holds (replace_tags k ts us b)
  unfolding replace_tags
  of_replace_tags ts us = search (c.of_return, c.of_bind, of_if c, s.of_tags_action, of_update_rest)

  of_update_tags : (ts : Tags) → c.Holds (update_tags k ts b)
  unfolding update_tags
  of_update_tags ts = search (c.of_bind, c.of_look, of_if c, of_create_tags, of_replace_tags)

  module _ (q : Params) where
    -- the parameters, with the timeout and the check mode of the section
    abbrev with_mode : Params
    with_mode = record q { check_mode = b; wait_timeout = timeout }

    of_wait_active : c.Holds (wait_active k pages rounds with_mode)
    unfolding wait_active
    of_wait_active = s.of_wait_for_status "ACTIVE"

    of_set_retention :
        (period : ℤ) (current : ℕ) → c.Holds (set_retention k pages rounds with_mode period current)
    unfolding set_retention
    of_set_retention period current = search (c.of_return, of_if c, s.of_retention_action)

    of_after_retention : (msg : Msg) → c.Holds (after_retention k pages rounds with_mode msg)
    unfolding after_retention
    of_after_retention msg =
        search (c.of_return, c.of_bind, of_if c, of_wait_active, s.of_find_stream)

    of_change_retention :
        (period : ℤ) (st : Stream) → c.Holds (change_retention k pages rounds with_mode period st)
    unfolding change_retention
    of_change_retention period none = c.of_return _
    of_change_retention period (some d) =
        search (c.of_return, c.of_bind, of_if c, of_set_retention, of_after_retention)

    of_update_retention :
        (o : Option ℤ) (st : Stream) → c.Holds (update_retention k pages rounds with_mode o st)
    unfolding update_retention
    of_update_retention none st = c.of_return _
    of_update_retention (some period) st =
        search (c.of_return, c.of_bind, of_if c, of_wait_active, of_change_retention)

    of_after_shards : c.Holds (after_shards k pages rounds with_mode)
    unfolding after_shards
    of_after_shards = search (c.of_return, c.of_bind, of_if c, of_wait_active, s.of_find_stream)

    of_update_shards :
        (changed : Bool) (msg : Msg) (st : Stream)
        → c.Holds (update_shards k pages rounds with_mode changed msg st)
    unfolding update_shards
    of_update_shards changed msg st =
        search
          (c.of_return, c.of_bind, of_if c, of_given c, s.of_update_shard_count, of_after_shards)

    of_update_finally :
        (changed : Bool) (msg : Msg) → c.Holds (update_finally k pages rounds with_mode changed msg)
    unfolding update_finally
    of_update_finally changed msg =
        search (c.of_return, c.of_bind, of_if c, of_update_tags, of_wait_active)

    of_unless_returned :
        (next : Bool → Msg → Stream → Run k.World Result3)
        → ((changed : Bool) (msg : Msg) (st : Stream) → c.Holds (next changed msg st))
        → (part : Part) → c.Holds (unless_returned next part)
    of_unless_returned next h (Part.returns r) = c.of_return _
    of_unless_returned next h (Part.goes_on changed msg st) = h changed msg st

    pub of_update : (st : Stream) → c.Holds (update k pages rounds with_mode st)
    unfolding update
    of_update st =
        search
          (c.of_bind, of_update_retention, of_update_shards, of_update_finally, of_unless_returned)
