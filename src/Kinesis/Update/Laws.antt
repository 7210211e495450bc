-- ===== src/Kinesis/Update/Laws.antt =====
-- What `update` reports.
use community_aws.Base.{
  is_empty, ℕ, ◌≡◌, refl, Bool, true, false, none, some, arith, if◌then◌else◌, string_eq, nat_eq,
  bool_eq, option_eq,
}
use community_aws.Base.Int.{pos, eqb_ℤ}
use community_aws.Base.Run.{done, ◌>>=◌}
use community_aws.Kinesis.Client.{
  ShardCounts, Found, Msg, Kinesis, did_not_change, updated, no_message,
}
use community_aws.Kinesis.Tags.{update_tags}
use community_aws.Kinesis.Update.{
  Params, Result3, update_retention, update_shards, update_finally, update,
}

module _ (k : Kinesis) where
  update_finally-ignores_tags :
      (pages rounds : ℕ) (p : Params) (changed : Bool) (msg : Msg) (r : Result3) (w w' : k.World)
      → p.wait ≡ false
      → is_empty p.tags ≡ false
      → update_tags k p.tags p.check_mode w ≡ done (r, w')
      → update_finally k pages rounds p changed msg w
        ≡ done ((true, changed, (if changed then updated else did_not_change)), w')
  unfolding update_finally
  update_finally-ignores_tags pages rounds p changed msg r w w' no_wait some_tags h =
      rw (some_tags, h, ◌>>=◌, no_wait) refl

  -- Where the shards are as wanted, no retention period is given and no wait is asked for, `update`
  -- reports success and no change, whatever the change of the tags did or whether it failed.
  update-ignores_tags :
      (pages rounds : ℕ) (p : Params) (d : Found) (c : ShardCounts) (r : Result3) (w w' : k.World)
      → p.retention_period ≡ none
      → p.wait ≡ false
      → d.shard_counts ≡ some c
      → p.number_of_shards ≡ pos c.open_shards_count
      → is_empty p.tags ≡ false
      → update_tags k p.tags p.check_mode w ≡ done (r, w')
      → update k pages rounds p (some d) w ≡ done ((true, false, did_not_change), w')
  unfolding update update_retention update_shards update_finally
  update-ignores_tags pages rounds p d c r w w' no_period no_wait counted same some_tags h =
      let wanted : eqb_ℤ (pos c.open_shards_count) p.number_of_shards ≡ true =
        rw same (ground arith) in
      rw (no_period, ◌>>=◌, counted, wanted, update_shards)
        (update_finally-ignores_tags pages rounds p false no_message r w w' no_wait some_tags h)
