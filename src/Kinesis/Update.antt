-- ===== src/Kinesis/Update.antt =====
-- `update`: the retention period, then the number of shards, then the tags.
pub mod Laws
use community_aws.Base.{
  is_empty, ℕ, zero, suc, ◌+◌, ◌-◌, ◌*◌, ◌≤◌, ◌<◌, String, ◌≡◌, refl, sym, ap, ◌∙◌, ◌≢◌, ◌↔◌, ◌⊎◌,
  inl, inr, Bool, true, false, ◌&&◌, ◌||◌, not, Option, none, some, List, [], ◌∷◌, ◌++◌, map, arith,
  ℕ_discrete, ltb, leb, eqb, if◌then◌else◌, Bool-cases, Sum-cases, Option-cases, eqb_iff, length,
  take, drop, filter, any, all, All, filter-filter, filter-append, contains, contains-append,
  contains-filter, length-append, length-take, length-drop, take-append-drop, Eq, ◌==◌, ==_iff,
  ==_refl, ==_false, String-discrete, string_eq, nat_eq, bool_eq, option_eq, Option-discrete, upper,
  Error, key_error, value_error, type_error, index_error, unbound_local_error, fail_json,
  client_error, Result, ok, err, ◌>>◌, or_raise, raise_if, >>=-eq-ok, for_each, Result-cases,
  ok_pair, ok_inj, some_ok_pair,
}
use community_aws.Base.Int.{ℤ, pos, negsuc, ltb_ℤ, eqb_ℤ}
use community_aws.Base.Run.{Run, Outcome, done, return_, given, ◌>>=◌}
use community_aws.Kinesis.Client.{
  Tags, ShardCounts, Found, Stream, Msg, no_message, retention_same, retention_updating,
  status_must_be_active, shards_updating, updated, did_not_change, Kinesis, has_status, status_of,
  counts_of,
}
use community_aws.Kinesis.Actions.{RetentionAction, retention_action, update_shard_count}
use community_aws.Kinesis.Tags.{update_tags}
use community_aws.Kinesis.Find.{find_stream, wait_for_status}

-- The parameters of the module. `retention_period` is none also for a zero, which the code takes for
-- a missing one, and `tags` is [] for a missing dictionary.
pub record Params : Type 0 where
  pub number_of_shards : ℤ
  pub retention_period : Option ℤ
  pub tags : Tags
  pub wait : Bool
  pub wait_timeout : ℤ
  pub check_mode : Bool

-- success, changed, and the message
abbrev pub Result3 : Type 0
Result3 = Bool × Bool × Msg

-- Where a part of `update` has not returned: `changed`, the message and the stream that it leaves.
-- `success` is True there.
pub data Part : Type 0 where
  returns : Result3 → Part
  goes_on : Bool → Msg → Stream → Part

abbrev pub missing_key : Error
missing_key = key_error "OpenShardsCount"

-- the rest of `update`, run where a part has not returned
abbrev pub unless_returned :
    {W : Type 0} → (Bool → Msg → Stream → Run W Result3) → Part → Run W Result3
unless_returned next (returns r) = return_ r
unless_returned next (goes_on changed msg stream) = next changed msg stream

module _ (k : Kinesis) (pages rounds : ℕ) (p : Params) where
  unfoldable pub wait_active : Run k.World (Bool × Msg × Stream)
  wait_active = wait_for_status k pages rounds "ACTIVE" p.wait_timeout p.check_mode

  -- the three tests against the current period
  unfoldable pub set_retention : ℤ → ℕ → Run k.World (Bool × Msg)
  set_retention period current =
      if ltb_ℤ (pos current) period
      then retention_action k period RetentionAction.increase p.check_mode
      else if ltb_ℤ period (pos current)
      then retention_action k period RetentionAction.decrease p.check_mode
      else return_ (false, retention_same period)

  -- what follows a change of the period
  unfoldable pub after_retention : Msg → Run k.World Part
  unfolding wait_active
  after_retention msg =
      if p.wait
      then (wait_active >>= λ (waited, wait_msg, stream).
          return_ (if waited then goes_on true msg stream else returns (false, false, wait_msg)))
      else (find_stream k pages p.check_mode >>= λ (found, find_msg, stream). return_ (
          if found && not (has_status "ACTIVE" stream)
          then returns (true, true, retention_updating)
          else goes_on true msg stream))

  unfoldable pub change_retention : ℤ → Stream → Run k.World Part
  unfolding set_retention after_retention
  change_retention period stream = elim stream [
    | none ↦ return_ (returns (true, false, status_must_be_active none))
    | some s ↦
        if s.stream_status == "ACTIVE"
        then (set_retention period s.retention_period_hours >>= λ (changed, msg).
            if changed then after_retention msg else return_ (goes_on false msg (some s)))
        else return_ (returns (true, false, status_must_be_active (some s.stream_status)))
  ]

  -- the block on `retention_period`, from its value
  unfoldable pub update_retention : Option ℤ → Stream → Run k.World Part
  unfolding wait_active change_retention
  update_retention none current = return_ (goes_on false no_message current)
  update_retention (some period) current =
      if p.wait
      then (wait_active >>= λ (waited, wait_msg, stream).
          if waited
          then change_retention period stream
          else return_ (returns (false, false, wait_msg)))
      else change_retention period current

  -- what follows a change of the number of shards
  unfoldable pub after_shards : Run k.World Part
  unfolding wait_active
  after_shards =
      if p.wait
      then (wait_active >>= λ (waited, wait_msg, stream).
          return_
            (if waited then goes_on true no_message stream else returns (false, true, wait_msg)))
      else (find_stream k pages p.check_mode >>= λ (found, find_msg, stream). return_ (
          if found && not (has_status "ACTIVE" stream)
          then returns (true, true, shards_updating)
          else goes_on true no_message stream))

  -- the block on the number of shards, a key that the stream may lack
  unfoldable pub update_shards : Bool → Msg → Stream → Run k.World Part
  unfolding after_shards
  update_shards changed msg stream = given missing_key (counts_of stream) >>= λ c.
      if eqb_ℤ (pos c.open_shards_count) p.number_of_shards
      then return_ (goes_on changed msg stream)
      else update_shard_count k p.number_of_shards p.check_mode >>= λ (scaled, scale_msg).
          if scaled then after_shards else return_ (returns (false, changed, scale_msg))

  -- the last test
  abbrev pub last_message : Bool → Bool → Msg → Msg
  last_message success changed msg =
      if success && changed then updated else if success then did_not_change else msg

  -- the tags, the last wait and the message. What `update_tags` says of a change is not read.
  unfoldable pub update_finally : Bool → Msg → Run k.World Result3
  unfolding wait_active
  update_finally changed msg =
      (if is_empty p.tags then return_ (true, false, msg) else update_tags k p.tags p.check_mode)
      >>= λ (tag_success, tag_changed, tag_msg).
          (if p.wait then wait_active else return_ (true, tag_msg, none))
          >>= λ (success, wait_msg, stream).
              return_ (success, changed, last_message success changed wait_msg)

  unfoldable pub update : Stream → Run k.World Result3
  update current =
      update_retention p.retention_period current
      >>= unless_returned (λ changed msg stream.
        update_shards changed msg stream
        >>= unless_returned (λ changed' msg' stream'. update_finally changed' msg'))
