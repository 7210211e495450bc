-- ===== src/Asg/Rolling/Tests.antt =====
-- A rolling replacement of two of three instances, and waits of a service that never changes.
use community_aws.Base.{
  ℕ, ◌+◌, String, ◌≡◌, refl, ◌≢◌, true, false, Option, none, some, List, [], ◌∷◌, arith,
  if◌then◌else◌, ◌==◌, String-discrete, string_eq, nat_eq, bool_eq, option_eq, Option-discrete,
  client_error, ok, err, ok_inj,
}
use mathlib.Core.Path.{subst}
use community_aws.Base.Int.{ℤ, pos, ◌+ℤ◌, ◌-ℤ◌}
use community_aws.Base.Run.{done, endless}
use community_aws.Asg.Properties.{
  Instance, Group, get_properties, put_facts, get_facts, count_instance,
}
use community_aws.Asg.Wait.{
  Service, IsClock, first_group, wait_for_new_inst, wait_for_term_inst, wait_new_loop,
  wait_term_loop, count_terminating, is_terminating,
}
use community_aws.Asg.Chunks.{get_chunks, slice_to}
use community_aws.Asg.Select.{
  collect, is_purgeable_by_config, split_by, is_new_by_config, get_instances_by_launch_config,
  list_purgeable_instances,
}
use community_aws.Asg.Batch.{
  int_or, terminate_batch, plan_batch, batch_calls, choose, num_new_inst_needed,
}
use community_aws.Asg.Replace.{
  ReplaceParams, Sizes, Plan, split_replaced, needed_by, batch_size_of, sizes_with, decide,
  start_replace,
}
use community_aws.Asg.Cloud.{
  Cloud, Update, describe_group, update_asg, terminate_asg_instance, update_size,
}
use community_aws.Asg.Balancers.{elb_dreg, wait_for_elb, wait_for_target_group}
use community_aws.Asg.Rolling.{
  Waiting, sizes_of, replace, follow, roll_group, enlarge, roll_all, set_sizes, roll_batches,
  run_batch, perform_all, perform, await_size, await_new, await_term,
}
use community_aws.Asg.Rolling.Ends.{replace-ends}
use community_aws.Asg.Rolling.Restores.{HasSizes, IsUpdating, replace-restores}

abbrev with_config : String → String → Instance
with_config i lc = record {
  instance_id = i;
  health_status = "Healthy";
  lifecycle_state = "InService";
  launch_configuration_name = some lc;
  launch_template = none;
}

-- a group with a minimum, a maximum and a desired size
abbrev web : List String → ℤ → ℤ → ℤ → List Instance → Group
web lbs min max desired instances = record {
  auto_scaling_group_name = "web";
  min_size = min;
  max_size = max;
  desired_capacity = desired;
  launch_configuration_name = some "lc-2";
  launch_template = none;
  load_balancer_names = lbs;
  target_group_arns = [];
  health_check_type = "ELB";
  instances = instances;
}

record State : Type 0 where
  group : Group
  clock : ℕ

-- A group whose instances are replaced as soon as they are terminated.
abbrev quick : Service
quick = record {
  World = State;
  describe = λ w. w.group ∷ [];
  now = λ w. w.clock;
  sleep = λ n w. record w { clock = w.clock + n };
  none_is_smaller = false;
}

abbrev renew : String → List Instance → List Instance
renew i [] = []
renew i (j ∷ l) = if j.instance_id == i then with_config "i-9" "lc-2" ∷ renew i l else j ∷ renew i l

abbrev updated : Update → State → State
updated u w = record w {
  group = record (w.group) {
    min_size = u.min_size;
    max_size = int_or u.max_size w.group.max_size;
    desired_capacity = int_or u.desired_capacity w.group.desired_capacity;
  };
}

abbrev quick_cloud : Cloud quick
quick_cloud = record {
  update_auto_scaling_group = λ u w. ok (updated u w);
  terminate_instance =
      λ i d w. ok (record w { group = record (w.group) { instances = renew i w.group.instances } });
  deregister_instances = λ lb i w. ok w;
  load_balancer_health = λ lb is' w. err (client_error "InvalidInstance");
  target_group_health = λ tg is' w. ok [];
}

int_or-twice : (o : Option ℤ) (d : ℤ) → int_or o d ≡ int_or o (int_or o d)
int_or-twice none d = refl
int_or-twice (some n) d = refl

quick-IsUpdating : IsUpdating quick quick_cloud
quick-IsUpdating = record {
  updates = λ u w w' e.
      subst
        (λ (v : State).
          (g : Group) × (first_group (quick.describe v) ≡ ok g)
          × (g.min_size ≡ u.min_size)
          × (g.max_size ≡ int_or u.max_size g.max_size)
          × (g.desired_capacity ≡ int_or u.desired_capacity g.desired_capacity))
        (ok_inj e)
        (
          (updated u w).group,
          refl,
          refl,
          int_or-twice u.max_size w.group.max_size,
          int_or-twice u.desired_capacity w.group.desired_capacity,
        );
}

abbrev waiting : Waiting
waiting = record { wait_timeout = 30; wait_for_instances = true }

abbrev asked : ReplaceParams
asked = record {
  batch = record {
    keys = record { launch_config_name = true; launch_template = true };
    replace_batch_size = pos 1;
    min_size = none;
    desired_capacity = none;
    launch_config_name = some "lc-2";
    lc_check = true;
    lt_check = true;
  };
  max_size = none;
  has_template = false;
  replace_instances = [];
  replace_all_instances = true;
}

abbrev before : State
before = record {
  group =
      web [] (pos 1) (pos 4) (pos 3)
        (with_config "i-1" "lc-1" ∷ with_config "i-2" "lc-1" ∷ with_config "i-3" "lc-2" ∷ []);
  clock = 7;
}

abbrev after : State
after = record {
  group =
      web [] (pos 1) (pos 4) (pos 3)
        (with_config "i-9" "lc-2" ∷ with_config "i-9" "lc-2" ∷ with_config "i-3" "lc-2" ∷ []);
  clock = 37;
}

abbrev larger : Sizes
larger = record { max_size = pos 5; min_size = pos 2; desired_capacity = pos 4 }

planned : start_replace asked before.group ≡ ok (Plan.roll (pos 1) larger)
unfolding start_replace decide batch_size_of sizes_with needed_by split_replaced
    get_instances_by_launch_config split_by is_new_by_config get_properties get_facts put_facts
    count_instance String-discrete Option-discrete ◌+ℤ◌ ◌-ℤ◌
planned = refl

rolled :
    replace quick quick_cloud 5 waiting asked before
    ≡ done ((true, get_properties after.group), after)
unfolding collect is_purgeable_by_config replace follow roll_group enlarge roll_all set_sizes
    roll_batches run_batch perform_all perform await_size await_new await_term describe_group
    update_asg terminate_asg_instance update_size elb_dreg wait_for_elb wait_for_target_group
    terminate_batch plan_batch batch_calls choose num_new_inst_needed get_chunks slice_to
    wait_for_new_inst wait_for_term_inst wait_new_loop wait_term_loop count_terminating
    is_terminating list_purgeable_instances start_replace decide batch_size_of sizes_with needed_by
    split_replaced get_instances_by_launch_config split_by is_new_by_config get_properties get_facts
    put_facts count_instance String-discrete Option-discrete ◌+ℤ◌ ◌-ℤ◌
rolled = refl

quick-IsClock : IsClock quick
quick-IsClock = omega arith

replace-ends_example : replace quick quick_cloud 4 waiting asked before ≢ endless
replace-ends_example =
    replace-ends quick quick-IsClock quick_cloud 3 waiting (omega arith) asked before

replace-restores_example :
    (true ≡ true) × HasSizes quick (sizes_of asked before.group) (get_properties after.group) after
replace-restores_example =
    replace-restores quick quick_cloud quick-IsUpdating 5 waiting asked before.group (pos 1) larger
      before after true (get_properties after.group) refl planned rolled

abbrev balanced : State
balanced = record {
  group = web ("lb-1" ∷ []) (pos 1) (pos 4) (pos 3) (with_config "i-1" "lc-1" ∷ []);
  clock = 0;
}

elb : (balanced.group.health_check_type == "ELB") ≡ true
unfolding String-discrete
elb = refl
