-- ===== src/Kinesis/Find.antt =====
-- `find_stream` and `wait_for_status`. A section's `pages` is the number of pages that `find_stream`
-- may read, and the wait takes the number of its rounds.
pub mod Laws
use community_aws.Base.{
  ℕ, zero, suc, ◌+◌, ◌-◌, ◌*◌, ◌≤◌, ◌<◌, String, ◌≡◌, refl, sym, ap, ◌∙◌, ◌≢◌, ◌↔◌, ◌⊎◌, inl, inr,
  Bool, true, false, ◌&&◌, ◌||◌, not, Option, none, some, List, [], ◌∷◌, ◌++◌, map, arith,
  ℕ_discrete, ltb, leb, eqb, if◌then◌else◌, Bool-cases, Sum-cases, Option-cases, eqb_iff, length,
  take, drop, filter, any, all, All, filter-filter, filter-append, contains, contains-append,
  contains-filter, length-append, length-take, length-drop, take-append-drop, Eq, ◌==◌, ==_iff,
  ==_refl, ==_false, String-discrete, string_eq, nat_eq, bool_eq, option_eq, Option-discrete, upper,
  Error, key_error, value_error, type_error, index_error, unbound_local_error, fail_json,
  client_error, Result, ok, err, ◌>>◌, or_raise, raise_if, >>=-eq-ok, for_each, Result-cases,
  ok_pair, ok_inj, some_ok_pair,
}
use community_aws.Base.Int.{ℤ, pos, negsuc, ◌+ℤ◌, ltb_ℤ}
use community_aws.Base.Run.{Run, Outcome, done, endless, return_, ◌>>=◌}
use community_aws.Kinesis.Client.{
  Description, ShardCounts, Found, Stream, Msg, no_message, failed, wait_time_out, status_achieved,
  Kinesis, has_status,
}

abbrev pub closed_count : List Bool → ℕ
closed_count [] = 0
closed_count (b ∷ l) = (if b then 1 else 0) + closed_count l

-- the numbers of shards, from all pages
abbrev pub shard_counts_of : List Bool → ShardCounts
shard_counts_of shards = record {
  open_shards_count = length shards - closed_count shards;
  closed_shards_count = closed_count shards;
  shards_count = length shards;
}

-- a page, before the numbers are set
abbrev pub page_of : Description → Found
page_of d = record {
  stream_status = d.stream_status;
  retention_period_hours = d.retention_period_hours;
  encryption_type = d.encryption_type;
  shard_counts = none;
  has_more_shards = d.has_more_shards;
}

-- the last page, and the numbers
unfoldable pub found_of : Description → List Bool → Found
found_of d shards = record (page_of d) { shard_counts = some (shard_counts_of shards) }

-- what check mode returns
abbrev pub dry_run_stream : Found
dry_run_stream = record {
  stream_status = "ACTIVE";
  retention_period_hours = 24;
  encryption_type = some "NONE";
  shard_counts = some (record { open_shards_count = 5; closed_shards_count = 0; shards_count = 5 });
  has_more_shards = true;
}

-- the test in the loop of `wait_for_status`, on the success of `find_stream` and on its stream
unfoldable pub is_achieved : Bool → String → Bool → Stream → Bool
is_achieved check_mode status found stream =
    if check_mode
    then true
    else if not (status == "DELETING")
    then found && has_status status stream
    else not found

module _ (k : Kinesis) where
  -- the loop of `find_stream`: each round asks for the first page again. The dictionary that a
  -- ClientError leaves is the one of the round before.
  unfoldable pub find_loop : ℕ → List Bool → Stream → Run k.World (Bool × Msg × Stream)
  find_loop zero shards before w = endless
  find_loop (suc fuel) shards before w = elim (k.describe_stream w) [
    | inr m ↦ done ((false, failed m, before), w)
    | inl d ↦
        let all_ = shards ++ d.closed_shards in
        let again = find_loop fuel all_ (some (page_of d)) w in
        if d.has_more_shards then again else done ((true, no_message, some (found_of d all_)), w)
  ]

module _ (k : Kinesis) (pages : ℕ) where
  unfoldable pub find_stream : Bool → Run k.World (Bool × Msg × Stream)
  unfolding find_loop
  find_stream check_mode =
      if check_mode
      then return_ (true, no_message, some dry_run_stream)
      else find_loop k pages [] none

  -- the loop of `wait_for_status`, with the time at which it ends
  unfoldable pub wait_loop : ℕ → ℤ → String → Bool → Stream → Run k.World (Bool × Stream)
  wait_loop zero deadline status check_mode stream w = endless
  wait_loop (suc rounds) deadline status check_mode stream w =
      let round = find_stream check_mode >>= λ (found, msg, stream').
      let slept : Run k.World (Unit {0}) = λ v. done (tt, k.sleep 5 v) in
      let again = slept >>= λ _. wait_loop rounds deadline status check_mode stream' in
      if is_achieved check_mode status found stream' then return_ (true, stream') else again in
      if ltb_ℤ (pos (k.now w)) deadline then round w else done ((false, stream), w)

  unfoldable pub wait_for_status : ℕ → String → ℤ → Bool → Run k.World (Bool × Msg × Stream)
  wait_for_status rounds status wait_timeout check_mode w =
      (wait_loop rounds (pos (k.now w) +ℤ wait_timeout) status check_mode none
          >>= λ (achieved, stream).
              return_
                (achieved, (if achieved then status_achieved status else wait_time_out), stream))
        w
