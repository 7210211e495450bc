-- ===== src/Kinesis/Closed/Main.antt =====
-- What holds of the single calls holds of the functions of the module that are made of them: from the
-- creation of a stream to `main`.
use community_aws.Base.{
  ℕ, String, inl, inr, Bool, Option, Option-cases, string_eq, nat_eq, bool_eq, option_eq,
  Result-cases,
}
use community_aws.Base.Int.{ℤ}
use community_aws.Base.Rules.{Closed, of_if}
use community_aws.Kinesis.Client.{Stream, Msg, Kinesis}
use community_aws.Kinesis.Update.{Params}
use community_aws.Kinesis.Create.{
  Report, Made, wait_created, collect_results, retain_created, tag_created, create_new,
  update_found, collect_made, create_stream,
}
use community_aws.Kinesis.Delete.{after_delete, delete_stream}
use community_aws.Kinesis.Encryption.{
  after_encryption, stop_call, start_stream_encryption, stop_stream_encryption,
}
use community_aws.Kinesis.Main.{
  ModuleParams, State, present, absent, enabled, disabled, check_params, params_of, shards_of,
  set_encryption, run_state, main,
}
use community_aws.Kinesis.Closed.{Calls, of_update}

module _ {k : Kinesis} {pages rounds : ℕ} {timeout : ℤ} {b : Bool} (c : Closed k.World)
    (s : Calls k pages rounds timeout b c) where
  module _ (q : Params) where
    abbrev with_mode : Params
    with_mode = record q { check_mode = b; wait_timeout = timeout }

    of_wait_created : c.Holds (wait_created k pages rounds with_mode)
    unfolding wait_created
    of_wait_created = s.of_wait_for_status "ACTIVE"

    of_collect_results :
        (success changed : Bool) (msg : Msg)
        → c.Holds (collect_results k pages rounds with_mode success changed msg)
    unfolding collect_results
    of_collect_results success changed msg =
        search (c.of_return, c.of_bind, c.of_look, of_if c, s.of_find_stream)

    of_retain_created :
        (success : Bool) (st : Stream)
        → c.Holds (retain_created k pages rounds with_mode success st)
    unfolding retain_created
    of_retain_created success st = elim (Option-cases q.retention_period) [
      | inl e ↦ rw e (search (c.of_return, c.of_bind, s.of_find_stream))
      | inr (period, e) ↦
          rw e (search (c.of_return, c.of_bind, of_if c, s.of_find_stream, s.of_retention_action))
    ]

    of_tag_created :
        (msg : Msg) (st : Stream) → c.Holds (tag_created k pages rounds with_mode msg st)
    unfolding tag_created
    of_tag_created msg st =
        search (c.of_return, c.of_bind, of_if c, of_retain_created, s.of_tags_action)

    of_create_new : c.Holds (create_new k pages rounds with_mode)
    unfolding create_new
    of_create_new =
        search
          (c.of_return, c.of_bind, of_if c, s.of_stream_action, of_wait_created, of_tag_created)
          depth 9

    of_update_found : (st : Stream) → c.Holds (update_found k pages rounds with_mode st)
    unfolding update_found
    of_update_found st = search (c.of_return, c.of_bind, of_update c s q)

    of_collect_made : (made : Made) → c.Holds (collect_made k pages rounds with_mode made)
    unfolding collect_made
    of_collect_made (Made.returns r) = c.of_return _
    of_collect_made (Made.goes_on success changed msg) = of_collect_results success changed msg

    of_create_stream : c.Holds (create_stream k pages rounds with_mode)
    unfolding create_stream
    of_create_stream = search (
      c.of_return,
      c.of_bind,
      of_if c,
      s.of_find_stream,
      of_wait_created,
      of_update_found,
      of_create_new,
      of_collect_made,
    )

  module _ (wait : Bool) where
    of_after_delete : c.Holds (after_delete k pages rounds wait timeout b)
    unfolding after_delete
    of_after_delete = search (c.of_return, c.of_bind, of_if c, s.of_wait_for_status)

    of_delete_stream : c.Holds (delete_stream k pages rounds wait timeout b)
    unfolding delete_stream
    of_delete_stream =
        search
          (c.of_return, c.of_bind, of_if c, s.of_find_stream, s.of_stream_action, of_after_delete)

    of_after_encryption : (m n : Msg) → c.Holds (after_encryption k pages rounds wait timeout b m n)
    unfolding after_encryption
    of_after_encryption m n = search (c.of_return, c.of_bind, of_if c, s.of_wait_for_status)

    of_start_stream_encryption :
        (t key : Option String)
        → c.Holds (start_stream_encryption k pages rounds t key wait timeout b)
    unfolding start_stream_encryption
    of_start_stream_encryption t key = search (
      c.of_return,
      c.of_bind,
      of_if c,
      s.of_find_stream,
      s.of_encryption_action,
      of_after_encryption,
    )

    of_stop_call :
        (t key : Option String) (st : Stream) → c.Holds (stop_call k pages rounds t key b st)
    unfolding stop_call
    of_stop_call t key st = search (c.of_return, of_if c, s.of_encryption_action)

    of_stop_stream_encryption :
        (t key : Option String)
        → c.Holds (stop_stream_encryption k pages rounds t key wait timeout b)
    unfolding stop_stream_encryption
    of_stop_stream_encryption t key =
        search
          (c.of_return, c.of_bind, of_if c, s.of_find_stream, of_stop_call, of_after_encryption)

  module _ (m : ModuleParams) where
    abbrev module_params : ModuleParams
    module_params = record m { check_mode = b; wait_timeout = timeout }

    of_set_encryption : (r : Report) → c.Holds (set_encryption k pages rounds module_params r)
    unfolding set_encryption
    of_set_encryption r = elim (Option-cases m.encryption_state) [
      | inl e ↦ rw e (c.of_return _)
      | inr (enabled, e) ↦ rw e (of_start_stream_encryption m.wait _ _)
      | inr (disabled, e) ↦ rw e (of_stop_stream_encryption m.wait _ _)
    ]

    of_run_state : (state : State) → c.Holds (run_state k pages rounds state module_params)
    unfolding run_state params_of
    of_run_state present =
        c.of_bind _ _ (of_create_stream (params_of m (shards_of m))) of_set_encryption
    of_run_state absent = of_delete_stream m.wait

    pub of_main : c.Holds (main k pages rounds module_params)
    unfolding main
    of_main = elim (Result-cases (check_params module_params)) [
      | inl (u, e) ↦ rw (e, main) (of_run_state m.state)
      | inr (x, e) ↦ rw (e, main) (c.of_raise _)
    ]
