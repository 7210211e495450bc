-- ===== src/Asg/Rolling/Ends.antt =====
-- Termination of a rolling replacement.
use community_aws.Base.{
  ℕ, suc, ◌*◌, ◌≤◌, String, refl, ◌≢◌, Bool, true, false, Option, none, some, List, [], ◌∷◌,
  string_eq, nat_eq, bool_eq, option_eq, Result, ok, err,
}
use community_aws.Base.Int.{ℤ, pos, ◌+ℤ◌}
use community_aws.Base.Run.{Outcome, done, endless}
use community_aws.Base.Rules.{Ends, ends, of_if, of_lift, Closed}
use community_aws.Asg.Properties.{Group, get_properties}
use community_aws.Asg.Wait.{Service, IsClock, wait_for_new_inst, wait_for_term_inst}
use community_aws.Asg.Wait.Laws.{waits_end}
use community_aws.Asg.Batch.{Params, Call}
use community_aws.Asg.Chunks.{get_chunks}
use community_aws.Asg.Replace.{ReplaceParams, Sizes, Plan, start_replace}
use community_aws.Asg.Cloud.{Cloud, describe_group, update_asg, terminate_asg_instance, update_size}
use community_aws.Asg.Balancers.Laws.{
  change-Ends, describe_group-Ends, elb_dreg-Ends, wait_for_elb-Ends, wait_for_target_group-Ends,
}
use community_aws.Asg.Rolling.{
  Waiting, sizes_of, instances_to_replace, waited, await_new, await_term, await_size, perform,
  perform_all, run_batch, roll_batches, roll_all, set_sizes, enlarge, roll_group, follow, replace,
}

module _ (s : Service) (clock : IsClock s) (c : Cloud s) (fuel : ℕ) (wt : Waiting)
    (enough : wt.wait_timeout ≤ 10 * fuel) where
  abbrev end : Closed s.World
  end = ends s.World

  waited-ends :
      {A : Type 0} (o : Option (Result A)) (next : A → s.World)
      → o ≢ none
      → ◌≢◌ {A = Outcome (Unit {0} × s.World)} (waited o (λ a. done (tt, next a))) endless
  waited-ends none next h k = h refl
  waited-ends (some (err e)) next h k = cc
  waited-ends (some (ok a)) next h k = cc

  await_new-Ends : (n : ℤ) → Ends (await_new s c (suc fuel) wt n)
  unfolding await_new
  await_new-Ends n w =
      waited-ends (wait_for_new_inst s (suc fuel) wt.wait_timeout n (λ m. m.viable_instances) w) _
        (waits_end s clock fuel wt.wait_timeout n (λ m. m.viable_instances) [] w enough).0

  await_term-Ends : (terms : List String) → Ends (await_term s c (suc fuel) wt terms)
  unfolding await_term
  await_term-Ends terms w =
      waited-ends (wait_for_term_inst s (suc fuel) wt.wait_timeout terms w) _
        (waits_end s clock fuel wt.wait_timeout (pos 0) (λ m. m.viable_instances) terms w enough).1

  await_size-Ends : (n : ℤ) → Ends (await_size s c (suc fuel) wt n)
  unfolding await_size
  await_size-Ends n =
      end.of_bind _ _
        (end.of_bind _ _ (await_new-Ends n)
          (λ u. wait_for_elb-Ends s clock c fuel wt.wait_timeout enough))
        (λ u. wait_for_target_group-Ends s clock c fuel wt.wait_timeout enough)

  perform-Ends : (a : Call) → Ends (perform s c (suc fuel) wt a)
  unfolding perform update_asg terminate_asg_instance
  perform-Ends (Call.update_min_size name n) = change-Ends s _
  perform-Ends (Call.elb_dreg i) = elb_dreg-Ends s clock c fuel wt.wait_timeout enough i
  perform-Ends (Call.terminate_asg_instance i d) = change-Ends s _

  perform_all-Ends : (calls : List Call) → Ends (perform_all s c (suc fuel) wt calls)
  unfolding perform_all
  perform_all-Ends [] = end.of_return tt
  perform_all-Ends (a ∷ calls) = end.of_bind _ _ (perform-Ends a) (λ u. perform_all-Ends calls)

  run_batch-Ends :
      (p : Params) (replaced initial : List String) (leftovers : Bool)
      → Ends (run_batch s c (suc fuel) wt p replaced initial leftovers)
  unfolding run_batch
  run_batch-Ends p replaced initial leftovers = end.of_bind _ _ (describe_group-Ends s) (λ g.
      end.of_bind _ _ (of_lift end _)
        (λ (calls, b). end.of_bind _ _ (perform_all-Ends calls) (λ u. end.of_return b)))

  roll_batches-Ends :
      (p : Params) (instances : List String) (batches : List (List String))
      → Ends (roll_batches s c (suc fuel) wt p instances batches)
  unfolding roll_batches
  roll_batches-Ends p instances [] = end.of_return tt
  roll_batches-Ends p instances (i ∷ batches) =
      end.of_bind _ _ (run_batch-Ends p i instances false) (λ b.
        end.of_bind _ _
          (of_if end wt.wait_for_instances _ _
            (end.of_bind _ _ (await_term-Ends _) (λ u. await_size-Ends _)) (end.of_return tt))
          (λ u.
            of_if end b.break_loop _ _ (end.of_return tt) (roll_batches-Ends p instances batches)))

  update_size-Ends : (g : Group) (sizes : Sizes) → Ends (update_size s c g sizes)
  unfolding update_size update_asg
  update_size-Ends g sizes = change-Ends s _

  roll_all-Ends :
      (p : Params) (instances : List String) (n : ℤ)
      → Ends (roll_all s c (suc fuel) wt p instances n)
  unfolding roll_all
  roll_all-Ends p instances n =
      end.of_bind _ _ (of_lift end (get_chunks instances n)) (roll_batches-Ends p instances)

  set_sizes-Ends : (g : Group) (sizes : Sizes) → Ends (set_sizes s c (suc fuel) g sizes)
  unfolding set_sizes
  set_sizes-Ends g sizes =
      end.of_bind _ _ (update_size-Ends g sizes) (λ u.
        end.of_bind _ _ (describe_group-Ends s) (λ g'. end.of_return (true, get_properties g')))

  enlarge-Ends : (g : Group) (n : ℤ) (sizes : Sizes) → Ends (enlarge s c (suc fuel) wt g n sizes)
  unfolding enlarge
  enlarge-Ends g n sizes = end.of_bind (update_size s c g sizes) _ (update_size-Ends g sizes) (λ u.
      of_if end wt.wait_for_instances _ _ (await_size-Ends (g.min_size +ℤ n)) (end.of_return tt))

  roll_group-Ends :
      (p : ReplaceParams) (g : Group) (n : ℤ) (sizes : Sizes)
      → Ends (roll_group s c (suc fuel) wt p g n sizes)
  unfolding roll_group
  roll_group-Ends p g n sizes = end.of_bind (describe_group s) _ (describe_group-Ends s) (λ g1.
      end.of_bind (enlarge s c (suc fuel) wt g1 n sizes) _ (enlarge-Ends g1 n sizes) (λ u.
        end.of_bind (describe_group s) _ (describe_group-Ends s) (λ g2.
          end.of_bind (roll_all s c (suc fuel) wt p.batch (instances_to_replace p g g2) n) _
            (roll_all-Ends p.batch (instances_to_replace p g g2) n)
            (λ v. set_sizes-Ends g2 (sizes_of p g)))))

  follow-Ends :
      (p : ReplaceParams) (g : Group) (plan : Plan) → Ends (follow s c (suc fuel) wt p g plan)
  unfolding follow
  follow-Ends p g (Plan.leftovers old instances) =
      end.of_bind _ _
        (end.of_bind _ _ (run_batch-Ends p.batch old instances true) (λ u. describe_group-Ends s))
        (λ g'. end.of_return _)
  follow-Ends p g Plan.nothing = end.of_return _
  follow-Ends p g (Plan.roll n sizes) = roll_group-Ends p g n sizes

  -- On a clock that does not run slow, with a round for every ten seconds of the timeout and one
  -- more, a replacement ends, with a result or with an exception, whatever the service answers.
  pub replace-ends : (p : ReplaceParams) (w : s.World) → replace s c (suc fuel) wt p w ≢ endless
  unfolding replace
  replace-ends p = end.of_bind _ _ (describe_group-Ends s) (λ g.
      end.of_bind _ _
        (end.of_bind _ _
          (of_if end wt.wait_for_instances _ _ (await_new-Ends g.min_size) (end.of_return tt))
          (λ u. of_lift end (start_replace p g)))
        (λ plan. follow-Ends p g plan))
