-- ===== src/Asg/Tests.antt =====
-- Runs of the functions of ec2_asg.py on small groups, and the theorems applied there.
use community_aws.Base.{
  ℕ, ◌+◌, ◌≤◌, String, ◌≡◌, refl, true, false, none, some, List, [], ◌∷◌, map, arith, length,
  contains, String-discrete, string_eq, nat_eq, bool_eq, option_eq, Option-discrete, ok,
}
use community_aws.Base.Int.{pos, negsuc, ◌-ℤ◌}
use community_aws.Asg.Properties.{
  Template, Template-discrete, Instance, Group, put_facts, get_facts, count_instance,
  get_properties,
}
use community_aws.Asg.Chunks.{slice_to, get_chunks}
use community_aws.Asg.Select.{
  is_new_by_config, is_new_by_template, is_purgeable_by_config, collect, split_by,
  get_instances_by_launch_config, get_instances_by_launch_template, list_purgeable_instances,
}
use community_aws.Asg.Select.Laws.{purgeable_is_old}
use community_aws.Asg.Batch.{
  Params, Call, terminate_asg_instance, elb_dreg, update_min_size, Batch, num_new_inst_needed,
  choose, terminate_batch,
}
use community_aws.Asg.Batch.Laws.{terminated, terminate_batch_bounded}
use community_aws.Asg.Wait.{
  Service, is_terminating, count_terminating, wait_new_loop, wait_for_new_inst, wait_term_loop,
  wait_for_term_inst,
}

abbrev with_config : String → String → Instance
with_config i c = record {
  instance_id = i;
  health_status = "Healthy";
  lifecycle_state = "InService";
  launch_configuration_name = some c;
  launch_template = none;
}

abbrev template : Template
template = record { template_id = "lt-1"; template_name = "web"; version = "2" }

abbrev with_template : String → Instance
with_template i = record {
  instance_id = i;
  health_status = "Healthy";
  lifecycle_state = "InService";
  launch_configuration_name = none;
  launch_template = some template;
}

-- two instances to replace and one new one
abbrev group : Group
group = record {
  auto_scaling_group_name = "web";
  load_balancer_names = [];
  target_group_arns = [];
  health_check_type = "EC2";
  min_size = pos 1;
  max_size = pos 4;
  desired_capacity = pos 3;
  launch_configuration_name = some "lc-2";
  launch_template = none;
  instances = with_config "i-1" "lc-1" ∷ with_config "i-2" "lc-1" ∷ with_config "i-3" "lc-2" ∷ [];
}

-- one instance, which runs the template of the group
abbrev templated : Group
templated = record {
  auto_scaling_group_name = "web";
  load_balancer_names = [];
  target_group_arns = [];
  health_check_type = "EC2";
  min_size = pos 1;
  max_size = pos 4;
  desired_capacity = pos 1;
  launch_configuration_name = none;
  launch_template = some template;
  instances = with_template "i-9" ∷ [];
}

abbrev params : Params
params = record {
  keys = record { launch_config_name = true; launch_template = true };
  replace_batch_size = pos 1;
  min_size = none;
  desired_capacity = none;
  launch_config_name = some "lc-2";
  lc_check = true;
  lt_check = true;
}

chunk-run : get_chunks {A = ℕ} (1 ∷ 2 ∷ 3 ∷ []) (pos 2) ≡ ok ((1 ∷ 2 ∷ []) ∷ (3 ∷ []) ∷ [])
unfolding get_chunks
chunk-run = refl

slice-negative : slice_to {A = ℕ} (negsuc 0) (1 ∷ 2 ∷ 3 ∷ []) ≡ 1 ∷ 2 ∷ []
unfolding slice_to
slice-negative = refl

split-run :
    get_instances_by_launch_config (get_properties group) true []
    ≡ ok ("i-3" ∷ [], "i-1" ∷ "i-2" ∷ [])
unfolding get_instances_by_launch_config split_by is_new_by_config get_properties get_facts
    put_facts count_instance String-discrete Option-discrete
split-run = refl

listed-run :
    list_purgeable_instances params.keys
      (get_properties group)
      true
      true
      ("i-1" ∷ "i-3" ∷ "i-7" ∷ [])
      []
    ≡ ok ("i-1" ∷ [])
unfolding list_purgeable_instances collect is_purgeable_by_config get_properties get_facts put_facts
    count_instance String-discrete Option-discrete
listed-run = refl

-- The instance runs the group's own template, and is named all the same.
listed-templated :
    list_purgeable_instances params.keys (get_properties templated) true true ("i-9" ∷ []) []
    ≡ ok ("i-9" ∷ [])
unfolding list_purgeable_instances collect is_purgeable_by_config get_properties get_facts put_facts
    count_instance String-discrete Option-discrete
listed-templated = refl

new-templated :
    get_instances_by_launch_template (get_properties templated) true [] ≡ ok ("i-9" ∷ [], [])
unfolding get_instances_by_launch_template split_by is_new_by_template get_properties get_facts
    put_facts count_instance String-discrete Option-discrete Template-discrete
new-templated = refl

abbrev first_batch : Batch
first_batch = record {
  break_loop = false;
  desired_size = pos 1;
  decrement_capacity = false;
  instances_to_terminate = "i-1" ∷ [];
  new_min_size = none;
}

batch-run :
    terminate_batch params group ("i-1" ∷ []) [] false
    ≡ ok (elb_dreg "i-1" ∷ terminate_asg_instance "i-1" false ∷ [], first_batch)
unfolding terminate_batch list_purgeable_instances collect is_purgeable_by_config get_properties
    get_facts put_facts count_instance get_instances_by_launch_config split_by is_new_by_config
    num_new_inst_needed choose slice_to ◌-ℤ◌ String-discrete Option-discrete
batch-run = refl

needed-run : num_new_inst_needed params group ("i-3" ∷ []) ≡ pos 2
unfolding num_new_inst_needed ◌-ℤ◌
needed-run = refl

abbrev asked : List String
asked = "i-1" ∷ "i-3" ∷ "i-7" ∷ []

abbrev just : String → List String
just i = i ∷ []

purgeable_is_old_example :
    (contains "i-1" asked ≡ true)
    × (contains "i-1" (get_properties group).instances ≡ true)
    × (contains "i-1" ("i-1" ∷ just "i-2") ≡ true)
unfolding String-discrete
purgeable_is_old_example =
    purgeable_is_old params.keys (get_properties group) true asked [] (just "i-3")
      ("i-1" ∷ "i-2" ∷ []) (just "i-1") "i-1" refl split-run listed-run refl

terminate_batch_bounded_example :
    (length (terminated (elb_dreg "i-1" ∷ terminate_asg_instance "i-1" false ∷ [])) ≤ 2)
    × (first_batch.break_loop ≡ false)
    × (terminated (elb_dreg "i-1" ∷ terminate_asg_instance "i-1" false ∷ [])
        ≡ map (λ i. (i, false)) first_batch.instances_to_terminate)
    × (first_batch.new_min_size ≡ none)
terminate_batch_bounded_example =
    terminate_batch_bounded params group ("i-1" ∷ []) [] false ("i-3" ∷ []) ("i-1" ∷ "i-2" ∷ []) 1
      (elb_dreg "i-1" ∷ terminate_asg_instance "i-1" false ∷ []) first_batch split-run needed-run
      (omega arith) batch-run

-- one instance is enough now
abbrev small : Params
small = record params { desired_capacity = some (pos 1) }

abbrev last_calls : List Call
last_calls =
    elb_dreg "i-1"
    ∷ terminate_asg_instance "i-1" true
    ∷ elb_dreg "i-2"
    ∷ terminate_asg_instance "i-2" true
    ∷ []

abbrev last_batch : Batch
last_batch = record {
  break_loop = true;
  desired_size = pos 1;
  decrement_capacity = true;
  instances_to_terminate = "i-1" ∷ "i-2" ∷ [];
  new_min_size = some (pos 1);
}

last-run :
    terminate_batch small group (just "i-1") [] false
    ≡ ok (update_min_size "web" (pos 1) ∷ last_calls, last_batch)
unfolding terminate_batch list_purgeable_instances collect is_purgeable_by_config get_properties
    get_facts put_facts count_instance get_instances_by_launch_config split_by is_new_by_config
    num_new_inst_needed choose slice_to ◌-ℤ◌ String-discrete Option-discrete
last-run = refl

none-needed : num_new_inst_needed small group (just "i-3") ≡ pos 0
unfolding num_new_inst_needed ◌-ℤ◌
none-needed = refl

-- a service whose group never changes, and a clock of whole seconds
abbrev still : Service
still = record {
  World = ℕ;
  describe = λ w. group ∷ [];
  now = λ w. w;
  sleep = λ n w. w + n;
  none_is_smaller = false;
}

wait-run :
    wait_for_new_inst still 2 300 (pos 3) (λ c. c.viable_instances) 5
    ≡ some (ok (get_properties group, 5))
unfolding wait_for_new_inst wait_new_loop get_properties put_facts count_instance String-discrete
wait-run = refl

term-run : wait_for_term_inst still 3 300 (just "i-1") 5 ≡ some (ok 15)
unfolding wait_for_term_inst wait_term_loop count_terminating is_terminating get_properties
    put_facts count_instance String-discrete
term-run = refl
