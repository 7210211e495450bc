-- ===== src/Kinesis/Create.antt =====
-- `create_stream`, up to the conversion of its result's keys to lower case.
use community_aws.Base.{
  is_empty, ℕ, Bool, true, false, ◌&&◌, ◌||◌, not, Option, none, some, [], if◌then◌else◌, string_eq,
  nat_eq, bool_eq, option_eq,
}
use community_aws.Base.Run.{Run, return_, look, ◌>>=◌}
use community_aws.Kinesis.Client.{
  Tags, Stream, Msg, no_message, status_must_be_active, failed_to_create, being_created, created,
  Kinesis, has_status, status_of,
}
use community_aws.Kinesis.Actions.{
  StreamAction, TagsAction, RetentionAction, stream_action, tags_action, retention_action,
}
use community_aws.Kinesis.Tags.{make_tags_in_proper_format, get_tags}
use community_aws.Kinesis.Find.{find_stream, wait_for_status}
use community_aws.Kinesis.Update.{Params, update}

-- the dictionary `results`: the stream, and the key Tags where it was set
pub record Results : Type 0 where
  pub stream : Stream
  pub tags : Option Tags

abbrev pub no_results : Results
no_results = record { stream = none; tags = none }

-- what a function of the module returns: success, changed, the message and the results
pub record Report : Type 0 where
  pub success : Bool
  pub changed : Bool
  pub msg : Msg
  pub results : Results

abbrev pub report : Bool → Bool → Msg → Stream → Report
report success changed msg stream = record {
  success = success;
  changed = changed;
  msg = msg;
  results = record { stream = stream; tags = none };
}

-- Where a part has not returned: the three values that it leaves.
pub data Made : Type 0 where
  returns : Report → Made
  goes_on : Bool → Bool → Msg → Made

module _ (k : Kinesis) (pages rounds : ℕ) (p : Params) where
  unfoldable pub wait_created : Run k.World (Bool × Msg × Stream)
  wait_created = wait_for_status k pages rounds "ACTIVE" p.wait_timeout p.check_mode

  -- the last block, on `success`
  unfoldable pub collect_results : Bool → Bool → Msg → Run k.World Report
  collect_results success changed msg =
      if not success
      then return_ (report false changed msg none)
      else find_stream k pages p.check_mode >>= λ (found, find_msg, stream).
          look (get_tags k p.check_mode) >>= λ (listed, list_msg, current).
          let tags =
            if not (is_empty current) && not p.check_mode
            then make_tags_in_proper_format current
            else if p.check_mode
            then p.tags
            else [] in
          return_ (record {
            success = true;
            changed = changed;
            msg = msg;
            results = record { stream = stream; tags = some tags };
          })

  -- the retention period of a stream that was just created, from the value of `success` and the
  -- results so far
  unfoldable pub retain_created : Bool → Stream → Run k.World Made
  retain_created success waited = find_stream k pages p.check_mode >>= λ (found, find_msg, stream).
      elim p.retention_period [
        | none ↦ return_ (goes_on true true (status_must_be_active (status_of stream)))
        | some period ↦
            if not (has_status "ACTIVE" stream)
            then return_ (goes_on true true (status_must_be_active (status_of stream)))
            else retention_action k period RetentionAction.increase p.check_mode
              >>= λ (changed, msg). return_ (
                  if changed || success
                  then goes_on true changed msg
                  else returns (report false changed msg waited))
      ]

  -- the tags, and then the rest; the results so far are those of the wait
  unfoldable pub tag_created : Msg → Stream → Run k.World Made
  unfolding retain_created
  tag_created msg waited =
      if is_empty p.tags
      then retain_created false waited
      else tags_action k p.tags TagsAction.create p.check_mode >>= λ (tagged, tag_msg).
          if tagged
          then retain_created true waited
          else return_ (returns (report false false tag_msg waited))

  -- the branch that creates
  unfoldable pub create_new : Run k.World Made
  unfolding wait_created tag_created
  create_new =
      stream_action k p.number_of_shards StreamAction.create p.check_mode >>= λ (made, create_msg).
      if not made
      then return_ (returns (report false true (failed_to_create create_msg) none))
      else if p.wait
      then (wait_created >>= λ (waited, wait_msg, stream).
          if waited
          then tag_created being_created stream
          else return_ (returns (report false true wait_msg stream)))
      else tag_created created none

  -- the branch that updates
  unfoldable pub update_found : Stream → Run k.World Made
  update_found current = update k pages rounds p current >>= λ (success, changed, msg).
      return_ (goes_on success changed msg)

  -- the end of the function, where it has not returned
  unfoldable pub collect_made : Made → Run k.World Report
  collect_made (returns r) = return_ r
  collect_made (goes_on success changed msg) = collect_results success changed msg

  unfoldable pub create_stream : Run k.World Report
  unfolding wait_created
  create_stream = find_stream k pages p.check_mode >>= λ (found, find_msg, first).
      (if found && has_status "DELETING" first && p.wait
        then wait_created
        else return_ (true, no_message, first))
      >>= λ (waited, wait_msg, current).
          (if found && not (has_status "DELETING" current)
            then update_found current
            else create_new)
          >>= λ made. collect_made made
