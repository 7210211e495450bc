-- ===== src/Asg/Balancers.antt =====
-- The load balancers and the target groups of a group in `plugins/modules/ec2_asg.py`: `elb_dreg`,
-- `elb_healthy`, `tg_healthy`, `wait_for_elb` and `wait_for_target_group`. A loop takes fuel, the
-- rounds it may make; it is endless when the fuel runs out.
pub mod Laws
use community_aws.Base.{
  is_empty, ℕ, zero, suc, ◌+◌, ◌-◌, ◌*◌, ◌≤◌, ◌<◌, String, ◌≡◌, refl, sym, ap, ◌∙◌, ◌≢◌, ◌↔◌, ◌⊎◌,
  inl, inr, Bool, true, false, ◌&&◌, ◌||◌, not, Option, none, some, List, [], ◌∷◌, ◌++◌, map, arith,
  ℕ_discrete, ltb, leb, eqb, if◌then◌else◌, Bool-cases, Sum-cases, Option-cases, eqb_iff, length,
  take, drop, filter, any, all, All, filter-filter, filter-append, contains, contains-append,
  contains-filter, length-append, length-take, length-drop, take-append-drop, Eq, ◌==◌, ==_iff,
  ==_refl, ==_false, String-discrete, string_eq, nat_eq, bool_eq, option_eq, Option-discrete, upper,
  lower, lower, Error, key_error, value_error, type_error, index_error, unbound_local_error,
  fail_json, client_error, Result, ok, err, or_raise, raise_if, >>=-eq-ok, for_each, Result-cases,
  ok_pair, ok_inj, some_ok_pair,
}
use community_aws.Base.Int.{ℤ, pos, ltb_ℤ}
use community_aws.Base.Run.{
  Run, Outcome, done, raised, endless, return_, look, lift, raise, ◌>>=◌, ◌>>◌,
}
use community_aws.Asg.Properties.{Group, Facts, Props, get_properties}
use community_aws.Asg.Wait.{Service}
use community_aws.Asg.Cloud.{
  Cloud, InstanceState, ask, describe_group, time, sleep_10, deregister_lb_instances,
}

-- the instances that the group considers healthy and in service
abbrev pub in_service : List (String × Facts) → List String
in_service [] = []
in_service ((i, f) ∷ facts) =
    if (f.lifecycle_state == "InService") && (f.health_status == "Healthy")
    then i ∷ in_service facts
    else in_service facts

-- `healthy_instances.add(i['InstanceId'])` for the states that are healthy
unfoldable pub add_healthy : String → List InstanceState → List String → List String
add_healthy healthy [] found = found
add_healthy healthy (i ∷ states) found =
    let found' = if contains i.instance_id found then found else i.instance_id ∷ found in
    add_healthy healthy states (if i.state == healthy then found' else found)

-- The loop over the load balancers, or over the target groups; none is the early `return None` for
-- an instance that is not registered yet.
unfoldable pub count_healthy :
    (String → Result (List InstanceState))
    → String
    → Error
    → List String
    → List String
    → Result (Option ℕ)
unfolding add_healthy
count_healthy health healthy failure [] found = ok (some (length found))
count_healthy health healthy failure (lb ∷ lbs) found = elim (health lb) [
  | ok states ↦ count_healthy health healthy failure lbs (add_healthy healthy states found)
  | err (client_error code) ↦ if code == "InvalidInstance" then ok none else err failure
  | err e ↦ err failure
]

-- the instances of a load balancer's answer that are the given one, and in service
abbrev count_registered : String → List InstanceState → ℕ
count_registered i states =
    length (filter (λ j. (j.instance_id == i) && (j.state == "InService")) states)

-- `as_group['LoadBalancerNames'] and as_group['HealthCheckType'] == 'ELB'`
abbrev pub checks_elb : Group → Bool
checks_elb g = not (is_empty g.load_balancer_names) && (g.health_check_type == "ELB")

abbrev pub checks_tg : Group → Bool
checks_tg g = not (is_empty g.target_group_arns) && (g.health_check_type == "ELB")

abbrev elb_late : Error
elb_late = fail_json "Waited too long for ELB instances to be healthy."

abbrev pub dreg_late : Error
dreg_late = fail_json "Waited too long for instance to deregister."

module _ (s : Service) where
  -- the test behind each loop
  unfoldable pub in_time : Error → ℕ → Run s.World (Unit {0})
  unfolding time
  in_time late deadline = time s >>= λ t. if leb deadline t then raise late else return_ tt

  -- `healthy_instances < as_group.get('MinSize')`
  abbrev pub is_fewer : Option ℕ → ℤ → Result Bool
  is_fewer (some n) min_size = ok (ltb_ℤ (pos n) min_size)
  is_fewer none min_size = if s.none_is_smaller then ok true else err type_error

  -- the loop of `wait_for_elb` and of `wait_for_target_group`
  unfoldable pub healthy_loop :
      ℕ → ℕ → ℤ → Run s.World (Option ℕ) → Option ℕ → Run s.World (Unit {0})
  unfolding time sleep_10
  healthy_loop zero deadline min_size count n w = endless
  healthy_loop (suc fuel) deadline min_size count n w =
      let again =
        count >>= λ n'. sleep_10 s >>= λ _. healthy_loop fuel deadline min_size count n' in
      let round = lift (is_fewer n min_size) >>= λ fewer.
      time s >>= λ t. if fewer && ltb t deadline then again else return_ tt in
      round w

  -- the block of both waits
  unfoldable pub await_healthy : ℕ → ℕ → ℤ → Run s.World (Option ℕ) → Run s.World (Unit {0})
  unfolding time healthy_loop in_time
  await_healthy fuel wait_timeout min_size count = time s >>= λ t.
      count
      >>= (λ n. healthy_loop fuel (t + wait_timeout) min_size count n)
      >> in_time elb_late (t + wait_timeout)

  module _ (c : Cloud s) where
    unfoldable pub deregister_all : String → List String → Run s.World (Unit {0})
    unfolding deregister_lb_instances
    deregister_all i [] = return_ tt
    deregister_all i (lb ∷ lbs) = deregister_lb_instances s c lb i >> deregister_all i lbs

    -- the two inner loops of `elb_dreg`
    unfoldable pub still_registered : String → List String → Run s.World ℕ
    still_registered i [] = return_ 0
    still_registered i (lb ∷ lbs) = ask s (c.load_balancer_health lb []) >>= λ states.
        still_registered i lbs >>= λ n. return_ (count_registered i states + n)

    unfoldable pub dreg_loop : ℕ → ℕ → String → List String → ℕ → Run s.World (Unit {0})
    unfolding time sleep_10 still_registered
    dreg_loop zero deadline i lbs count w = endless
    dreg_loop (suc fuel) deadline i lbs count w =
        let again =
          still_registered i lbs >>= λ n. sleep_10 s >>= λ _. dreg_loop fuel deadline i lbs n in
        let round = time s >>= λ t. if ltb t deadline && ltb 0 count then again else return_ tt in
        round w

    -- from the deregistration on
    unfoldable pub dreg_from : ℕ → ℕ → String → List String → Run s.World (Unit {0})
    unfolding deregister_all time dreg_loop in_time
    dreg_from fuel wait_timeout i lbs =
        deregister_all i lbs
        >> (time s >>= λ t.
            dreg_loop fuel (t + wait_timeout) i lbs 1 >> in_time dreg_late (t + wait_timeout))

    unfoldable pub elb_dreg : ℕ → ℕ → String → Run s.World (Unit {0})
    unfolding describe_group
    elb_dreg fuel wait_timeout i = describe_group s >>= λ g.
        if checks_elb g then dreg_from fuel wait_timeout i g.load_balancer_names else return_ tt

    unfoldable pub elb_healthy : Run s.World (Option ℕ)
    unfolding describe_group count_healthy get_properties
    elb_healthy = describe_group s >>= λ g. ask s (λ w.
        count_healthy
          (λ lb. c.load_balancer_health lb (in_service (get_properties g).instance_facts) w)
          "InService" (fail_json "Failed to get load balancer.") g.load_balancer_names [])

    unfoldable pub tg_healthy : Run s.World (Option ℕ)
    unfolding describe_group count_healthy get_properties
    tg_healthy = describe_group s >>= λ g. ask s (λ w.
        count_healthy
          (λ tg. c.target_group_health tg (in_service (get_properties g).instance_facts) w)
          "healthy" (fail_json "Failed to get target group.") g.target_group_arns [])

    unfoldable pub wait_for_elb : ℕ → ℕ → Run s.World (Unit {0})
    unfolding describe_group
    wait_for_elb fuel wait_timeout = describe_group s >>= λ g.
        if checks_elb g then await_healthy fuel wait_timeout g.min_size elb_healthy else return_ tt

    unfoldable pub wait_for_target_group : ℕ → ℕ → Run s.World (Unit {0})
    unfolding describe_group
    wait_for_target_group fuel wait_timeout = describe_group s >>= λ g.
        if checks_tg g then await_healthy fuel wait_timeout g.min_size tg_healthy else return_ tt
