-- ===== src/Asg/Replace/Tests.antt =====
-- A replacement of two instances of three, and one with more new instances than desired.
use community_aws.Base.{
  String, ◌≡◌, refl, true, false, Option, none, some, List, [], ◌∷◌, string_eq, nat_eq, bool_eq,
  option_eq,
}
use community_aws.Base.Int.{ℤ, pos, negsuc, ◌-ℤ◌}
use community_aws.Asg.Properties.{Instance, Group}
use community_aws.Asg.Replace.{ReplaceParams, Sizes, needed_by}

abbrev with_config : String → String → Instance
with_config i lc = record {
  instance_id = i;
  health_status = "Healthy";
  lifecycle_state = "InService";
  launch_configuration_name = some lc;
  launch_template = none;
}

abbrev web : Group
web = record {
  auto_scaling_group_name = "web";
  load_balancer_names = [];
  target_group_arns = [];
  health_check_type = "EC2";
  min_size = pos 1;
  max_size = pos 4;
  desired_capacity = pos 3;
  launch_configuration_name = some "lc-2";
  launch_template = none;
  instances = with_config "i-1" "lc-1" ∷ with_config "i-2" "lc-1" ∷ with_config "i-3" "lc-2" ∷ [];
}

abbrev asked : Option ℤ → ReplaceParams
asked desired = record {
  batch = record {
    keys = record { launch_config_name = true; launch_template = true };
    replace_batch_size = pos 1;
    min_size = none;
    desired_capacity = desired;
    launch_config_name = some "lc-2";
    lc_check = true;
    lt_check = true;
  };
  max_size = none;
  has_template = false;
  replace_instances = [];
  replace_all_instances = true;
}

abbrev both_old : List String
both_old = "i-1" ∷ "i-2" ∷ []

abbrev larger : Sizes
larger = record { max_size = pos 5; min_size = pos 2; desired_capacity = pos 4 }

negative : needed_by (asked (some (pos 0))) web ("i-3" ∷ []) ≡ negsuc 0
unfolding needed_by ◌-ℤ◌
negative = refl
