-- ===== src/Asg/Rolling.antt =====
-- `terminate_batch` with the calls that it makes, and `replace`: the rolling replacement of
-- `plugins/modules/ec2_asg.py`, composed of the decisions of `Replace` and `Batch` and of the waits.
pub mod Ends
pub mod Restores
mod Tests
use community_aws.Base.{
  is_empty, ℕ, zero, suc, ◌+◌, ◌-◌, ◌*◌, ◌≤◌, ◌<◌, String, ◌≡◌, refl, sym, ap, ◌∙◌, ◌≢◌, ◌↔◌, ◌⊎◌,
  inl, inr, Bool, true, false, ◌&&◌, ◌||◌, not, Option, none, some, List, [], ◌∷◌, ◌++◌, map, arith,
  ℕ_discrete, ltb, leb, eqb, if◌then◌else◌, Bool-cases, Sum-cases, Option-cases, eqb_iff, length,
  take, drop, filter, any, all, All, filter-filter, filter-append, contains, contains-append,
  contains-filter, length-append, length-take, length-drop, take-append-drop, Eq, ◌==◌, ==_iff,
  ==_refl, ==_false, String-discrete, string_eq, nat_eq, bool_eq, option_eq, Option-discrete, upper,
  lower, lower, Error, key_error, value_error, type_error, index_error, unbound_local_error,
  fail_json, client_error, Result, ok, err, or_raise, raise_if, >>=-eq-ok, for_each, Result-cases,
  ok_pair, ok_inj, some_ok_pair,
}
use community_aws.Base.Int.{ℤ, pos, ◌+ℤ◌}
use community_aws.Base.Run.{
  Run, Outcome, done, raised, endless, return_, look, lift, raise, ◌>>=◌, ◌>>◌,
}
use community_aws.Asg.Properties.{Group, Counts, Props, get_properties}
use community_aws.Asg.Wait.{Service, wait_for_new_inst, wait_for_term_inst}
use community_aws.Asg.Chunks.{get_chunks}
use community_aws.Asg.Batch.{Params, Call, Batch, int_or, terminate_batch}
use community_aws.Asg.Replace.{ReplaceParams, Sizes, Plan, named_instances, start_replace}
use community_aws.Asg.Cloud.{Cloud, describe_group, update_asg, terminate_asg_instance, update_size}
use community_aws.Asg.Balancers.{elb_dreg, wait_for_elb, wait_for_target_group}

-- how the replacement waits
pub record Waiting : Type 0 where
  pub wait_timeout : ℕ
  pub wait_for_instances : Bool

-- `max_size`, `min_size` and `desired_capacity`, with the group's for those that are not given
abbrev pub sizes_of : ReplaceParams → Group → Sizes
sizes_of p g = record {
  max_size = int_or p.max_size g.max_size;
  min_size = int_or p.batch.min_size g.min_size;
  desired_capacity = int_or p.batch.desired_capacity g.desired_capacity;
}

-- `instances` in front of the loop, from the group at the start and the group then
abbrev pub instances_to_replace : ReplaceParams → Group → Group → List String
instances_to_replace p g g' =
    let named = named_instances p (get_properties g) in
    if is_empty named then (get_properties g').instances else named

-- the outcome of a wait
abbrev pub waited :
    {A W : Type 0} → Option (Result A) → (A → Outcome (Unit {0} × W)) → Outcome (Unit {0} × W)
waited none next = endless
waited (some (err e)) next = raised e
waited (some (ok a)) next = next a

module _ (s : Service) (c : Cloud s) (fuel : ℕ) where
  unfoldable pub await_new : Waiting → ℤ → Run s.World (Unit {0})
  unfolding wait_for_new_inst
  await_new wt desired_size w =
      waited (wait_for_new_inst s fuel wt.wait_timeout desired_size (λ n. n.viable_instances) w)
        (λ (props, w'). done (tt, w'))

  unfoldable pub await_term : Waiting → List String → Run s.World (Unit {0})
  unfolding wait_for_term_inst
  await_term wt terms w =
      waited (wait_for_term_inst s fuel wt.wait_timeout terms w) (λ w'. done (tt, w'))

  -- the three waits behind a change of the size
  unfoldable pub await_size : Waiting → ℤ → Run s.World (Unit {0})
  unfolding await_new wait_for_elb wait_for_target_group
  await_size wt desired_size =
      await_new wt desired_size
      >> wait_for_elb s c fuel wt.wait_timeout
      >> wait_for_target_group s c fuel wt.wait_timeout

  -- a call of a batch
  unfoldable pub perform : Waiting → Call → Run s.World (Unit {0})
  unfolding update_asg elb_dreg terminate_asg_instance
  perform wt (Call.update_min_size name n) = update_asg s c (record {
    auto_scaling_group_name = name;
    min_size = n;
    max_size = none;
    desired_capacity = none;
  })
  perform wt (Call.elb_dreg i) = elb_dreg s c fuel wt.wait_timeout i
  perform wt (Call.terminate_asg_instance i decrement) = terminate_asg_instance s c i decrement

  unfoldable pub perform_all : Waiting → List Call → Run s.World (Unit {0})
  perform_all wt [] = return_ tt
  perform_all wt (a ∷ calls) = perform wt a >> perform_all wt calls

  unfoldable pub run_batch : Waiting → Params → List String → List String → Bool → Run s.World Batch
  unfolding describe_group terminate_batch perform_all
  run_batch wt p replace_instances initial_instances leftovers = describe_group s >>= λ g.
      lift (terminate_batch p g replace_instances initial_instances leftovers) >>= λ (calls, b).
      perform_all wt calls >> return_ b

  -- the main loop
  unfoldable pub roll_batches :
      Waiting → Params → List String → List (List String) → Run s.World (Unit {0})
  unfolding run_batch await_term await_size
  roll_batches wt p instances [] = return_ tt
  roll_batches wt p instances (i ∷ batches) = run_batch wt p i instances false >>= λ b.
      let waits = await_term wt b.instances_to_terminate >> await_size wt b.desired_size in
      (if wt.wait_for_instances then waits else return_ tt)
      >> (if b.break_loop then return_ tt else roll_batches wt p instances batches)

  -- the loop, over the chunks
  unfoldable pub roll_all : Waiting → Params → List String → ℤ → Run s.World (Unit {0})
  unfolding get_chunks roll_batches
  roll_all wt p instances batch_size =
      lift (get_chunks instances batch_size) >>= λ batches. roll_batches wt p instances batches

  -- behind the loop
  unfoldable pub set_sizes : Group → Sizes → Run s.World (Bool × Props)
  unfolding update_size describe_group
  set_sizes g sizes =
      update_size s c g sizes >> (describe_group s >>= λ g'. return_ (true, get_properties g'))

  -- the temporary sizes, and the waits for them
  unfoldable pub enlarge : Waiting → Group → ℤ → Sizes → Run s.World (Unit {0})
  unfolding update_size await_size
  enlarge wt g batch_size sizes =
      update_size s c g sizes
      >> (if wt.wait_for_instances then await_size wt (g.min_size +ℤ batch_size) else return_ tt)

  -- from the temporary sizes on; `g` is the group at the start
  unfoldable pub roll_group :
      Waiting → ReplaceParams → Group → ℤ → Sizes → Run s.World (Bool × Props)
  unfolding describe_group enlarge roll_all set_sizes
  roll_group wt p g batch_size sizes = describe_group s >>= λ g1.
      enlarge wt g1 batch_size sizes
      >> (describe_group s >>= λ g2.
          roll_all wt p.batch (instances_to_replace p g g2) batch_size
          >> set_sizes g2 (sizes_of p g))

  unfoldable pub follow : Waiting → ReplaceParams → Group → Plan → Run s.World (Bool × Props)
  unfolding run_batch describe_group roll_group
  follow wt p g (Plan.leftovers old instances) =
      run_batch wt p.batch old instances true >> describe_group s >>= λ g'.
      return_ (true, get_properties g')
  follow wt p g Plan.nothing = return_ (false, get_properties g)
  follow wt p g (Plan.roll batch_size sizes) = roll_group wt p g batch_size sizes

  unfoldable pub replace : Waiting → ReplaceParams → Run s.World (Bool × Props)
  unfolding describe_group await_new start_replace follow
  replace wt p = describe_group s >>= λ g.
      (if wt.wait_for_instances then await_new wt g.min_size else return_ tt)
      >> lift (start_replace p g)
      >>= λ plan. follow wt p g plan
