-- ===== src/Kinesis/Tests/Examples.antt =====
-- The theorems at concrete states of the service in memory.
use community_aws.Base.{
  ◌≡◌, refl, ◌≢◌, ◌⊎◌, inr, true, false, none, some, [], ◌∷◌, arith, String-discrete, string_eq,
  nat_eq, bool_eq, option_eq,
}
use community_aws.Base.Int.{pos, ◌+ℤ◌}
use community_aws.Base.Run.{done, endless}
use community_aws.Kinesis.Client.{
  Tags, Found, no_message, updated, deleted, does_not_exist, Kinesis,
}
use community_aws.Kinesis.Actions.{tags_action, stream_action, retention_action, update_shard_count}
use community_aws.Kinesis.Tags.{
  put_tag, difference, make_tags_in_proper_format, get_tags, update_tags,
}
use community_aws.Kinesis.Find.{
  dry_run_stream, find_stream, find_loop, wait_loop, wait_for_status, is_achieved, found_of,
}
use community_aws.Kinesis.Update.{Params, update, update_retention, update_shards, update_finally}
use community_aws.Kinesis.Create.{
  Report, report, create_stream, collect_made, collect_results, update_found,
}
use community_aws.Kinesis.Main.{enabled, main, run_state, check_params, params_of, set_encryption}
use community_aws.Kinesis.Tags.Laws.{value_of}
use community_aws.Kinesis.Tags.Service.{update_tags_lem}
use community_aws.Kinesis.Find.Laws.{described}
use community_aws.Kinesis.Tests.Service.{memory-HasTags, memory-IsService}
use community_aws.Kinesis.Tests.{start, asked, new_stream, Cell, memory, no_stream}
use community_aws.Kinesis.Delete.{delete_stream, after_delete}
use community_aws.Kinesis.Delete.Laws.{delete_stream-gone}
use community_aws.Kinesis.Main.Laws.{main-hides_failure}
use community_aws.Kinesis.CheckMode.{main-check_mode}
use community_aws.Kinesis.Ends.{main-ends}

abbrev service : Kinesis
service = memory false

abbrev wanted : Tags
wanted = ("env", "live") ∷ ("owner", "b") ∷ []

abbrev tagged : Cell
tagged = record start { tags = wanted }

abbrev gone : Cell
gone = record start { stream = none }

update_tags_lem_example : memory-HasTags.tags_of tagged "env" ≡ value_of "env" wanted
unfolding update_tags get_tags difference tags_action make_tags_in_proper_format put_tag value_of
    String-discrete
update_tags_lem_example =
    update_tags_lem service memory-HasTags "env" wanted start.tags true no_message start tagged
      (refl, (refl, tt)) refl refl

delete_stream-gone_example :
    ((described service gone).0 ≡ false)
    × ((true ≡ true) ⊎ (((described service start).0 ≡ false) × (gone ≡ start)))
unfolding delete_stream after_delete stream_action wait_for_status wait_loop find_stream find_loop
    is_achieved String-discrete ◌+ℤ◌ found_of
delete_stream-gone_example =
    delete_stream-gone service memory-IsService 0 2 (pos 10) (report true true deleted none) start
      gone refl refl

abbrev only_tags : Params
only_tags = record {
  number_of_shards = pos 2;
  retention_period = none;
  tags = wanted;
  wait = false;
  wait_timeout = pos 300;
  check_mode = false;
}

abbrev two_shards : Found
two_shards = found_of (new_stream 2) (false ∷ false ∷ [])

abbrev refusing : Kinesis
refusing = record (memory false) { create_stream = λ n w. inr "LimitExceededException" }

main-hides_failure_example :
    main refusing 1 1 (record asked { encryption_state = some enabled }) gone
    ≡ done (report true false does_not_exist none, gone)
unfolding check_params
main-hides_failure_example =
    main-hides_failure refusing 0 1 (record asked { encryption_state = some enabled }) enabled
      no_stream "LimitExceededException" gone refl refl refl refl refl refl

abbrev checked : Report
checked = record {
  success = true;
  changed = true;
  msg = updated;
  results = record { stream = some dry_run_stream; tags = some (("env", "live") ∷ []) };
}

main-check_mode_example : start ≡ start
unfolding main run_state check_params params_of create_stream collect_made collect_results
    update_found update update_retention update_shards update_finally find_stream find_loop found_of
    wait_loop update_shard_count wait_for_status is_achieved retention_action update_tags get_tags
    tags_action put_tag difference make_tags_in_proper_format set_encryption String-discrete ◌+ℤ◌
main-check_mode_example = main-check_mode service 1 5 asked checked start start refl

main-ends_example : main service 1 61 asked start ≢ endless
main-ends_example = main-ends service memory-IsService 0 60 asked start (omega arith)
