-- ===== src/Kinesis/Tests.antt =====
-- A service in memory: one stream, its tags and the clock.
mod Service
mod Examples
use community_aws.Base.{
  ℕ, zero, suc, ◌+◌, ◌-◌, ◌*◌, ◌≤◌, ◌<◌, String, ◌≡◌, refl, sym, ap, ◌∙◌, ◌≢◌, ◌↔◌, ◌⊎◌, inl, inr,
  Bool, true, false, ◌&&◌, ◌||◌, not, Option, none, some, List, [], ◌∷◌, ◌++◌, map, arith,
  ℕ_discrete, ltb, leb, eqb, if◌then◌else◌, Bool-cases, Sum-cases, Option-cases, eqb_iff, length,
  take, drop, filter, any, all, All, filter-filter, filter-append, contains, contains-append,
  contains-filter, length-append, length-take, length-drop, take-append-drop, Eq, ◌==◌, ==_iff,
  ==_refl, ==_false, String-discrete, string_eq, nat_eq, bool_eq, option_eq, Option-discrete, upper,
  Error, key_error, value_error, type_error, index_error, unbound_local_error, fail_json,
  client_error, Result, ok, err, ◌>>◌, or_raise, raise_if, >>=-eq-ok, for_each, Result-cases,
  ok_pair, ok_inj, some_ok_pair,
}
use community_aws.Base.Int.{ℤ, pos, negsuc, ◌+ℤ◌}
use community_aws.Base.Run.{Run, Outcome, done, raised, endless, ◌>>=◌}
use community_aws.Kinesis.Client.{
  Tags, Description, Found, Stream, Msg, no_message, failed, status_achieved, updated,
  did_not_change, created, Kinesis,
}
use community_aws.Kinesis.Actions.{tags_action, stream_action, retention_action, update_shard_count}
use community_aws.Kinesis.Tags.{
  put_tag, difference, make_tags_in_proper_format, get_tags, update_tags,
}
use community_aws.Kinesis.Find.{
  find_stream, find_loop, wait_loop, wait_for_status, is_achieved, found_of,
}
use community_aws.Kinesis.Update.{Params, update, update_retention, update_shards, update_finally}
use community_aws.Kinesis.Create.{
  Results, Report, report, create_stream, collect_made, collect_results, create_new, update_found,
}
use community_aws.Kinesis.Main.{
  ModuleParams, State, present, absent, main, run_state, check_params, params_of, set_encryption,
}

pub record Cell : Type 0 where
  pub stream : Option Description
  pub tags : Tags
  pub time : ℕ

abbrev pub delete_keys : List String → Tags → Tags
delete_keys ks l = filter (λ t. not (contains t.0 ks)) l

-- the first entry of each key
abbrev pub first_entries : Tags → Tags
first_entries [] = []
first_entries ((j, v) ∷ l) = (j, v) ∷ delete_keys (j ∷ []) (first_entries l)

abbrev pub no_stream : String
no_stream = "ResourceNotFoundException"

abbrev pub on_stream : (Description → Description) → Cell → Cell ⊎ String
on_stream f w = elim w.stream [
  | none ↦ inr no_stream
  | some d ↦ inl (record w { stream = some (f d) })
]

abbrev pub magnitude : ℤ → ℕ
magnitude (pos n) = n
magnitude (negsuc n) = suc n

abbrev pub new_stream : ℕ → Description
new_stream n = record {
  stream_status = "ACTIVE";
  retention_period_hours = 24;
  encryption_type = some "NONE";
  closed_shards = false ∷ false ∷ [];
  has_more_shards = false;
}

-- a service in memory, whose descriptions say whether there are more shards
abbrev pub memory : Bool → Kinesis
memory more = record {
  World = Cell;
  list_tags_for_stream = λ w. inl (first_entries w.tags);
  describe_stream = λ w. elim w.stream [
    | none ↦ inr no_stream
    | some d ↦ inl (record d { has_more_shards = more })
  ];
  add_tags_to_stream = λ ts w. inl (record w { tags = ts ++ w.tags });
  remove_tags_from_stream = λ ks w. inl (record w { tags = delete_keys ks w.tags });
  create_stream = λ n w. inl (record w { stream = some (new_stream (magnitude n)) });
  delete_stream = λ w. inl (record w { stream = none });
  start_stream_encryption = λ t key w. on_stream (λ d. record d { encryption_type = t }) w;
  stop_stream_encryption = λ t key w. on_stream (λ d. record d { encryption_type = some "NONE" }) w;
  increase_stream_retention_period =
      λ n w. on_stream (λ d. record d { retention_period_hours = magnitude n }) w;
  decrease_stream_retention_period =
      λ n w. on_stream (λ d. record d { retention_period_hours = magnitude n }) w;
  update_shard_count = λ n w. on_stream (λ d. d) w;
  now = λ w. w.time;
  sleep = λ n w. record w { time = w.time + n };
}

abbrev pub start : Cell
start = record {
  stream = some (new_stream 2);
  tags = ("env", "test") ∷ ("team", "a") ∷ [];
  time = 100;
}

abbrev pub asked : ModuleParams
asked = record {
  shards = some (pos 2);
  retention_period = some (pos 48);
  tags = some (("env", "live") ∷ []);
  wait = true;
  wait_timeout = pos 300;
  state = present;
  encryption_type = none;
  key_id = none;
  encryption_state = none;
  check_mode = false;
}

abbrev pub success_of : {W : Type 0} → Outcome (Report × W) → Option (Bool × Bool × Msg)
success_of (done (r, w)) = some (r.success, r.changed, r.msg)
success_of (raised e) = none
success_of endless = none

run_update : success_of (main (memory false) 1 5 asked start) ≡ some (true, true, updated)
unfolding main run_state check_params params_of create_stream collect_made collect_results
    update_found update update_retention update_shards update_finally find_stream find_loop found_of
    wait_loop wait_for_status is_achieved retention_action update_tags get_tags tags_action put_tag
    difference make_tags_in_proper_format set_encryption String-discrete ◌+ℤ◌
run_update = refl
