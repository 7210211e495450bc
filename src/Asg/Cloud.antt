-- ===== src/Asg/Cloud.antt =====
-- The calls of the service that change a group or ask for the health of its instances, as
-- parameters, and the functions of `plugins/modules/ec2_asg.py` that do no more than pass a call on.
use community_aws.Base.{
  ℕ, String, Bool, Option, some, List, string_eq, nat_eq, bool_eq, option_eq, Result, ok, err,
}
use community_aws.Base.Int.{ℤ}
use community_aws.Base.Run.{Run, done, raised, look, lift, ◌>>=◌}
use community_aws.Asg.Properties.{Group}
use community_aws.Asg.Wait.{Service, first_group}
use community_aws.Asg.Replace.{Sizes}

-- the keywords of `update_asg`; none for one that is not given
pub record Update : Type 0 where
  pub auto_scaling_group_name : String
  pub min_size : ℤ
  pub max_size : Option ℤ
  pub desired_capacity : Option ℤ

-- `updated_group`
abbrev pub size_update : Group → Sizes → Update
size_update g sizes = record {
  auto_scaling_group_name = g.auto_scaling_group_name;
  min_size = sizes.min_size;
  max_size = some sizes.max_size;
  desired_capacity = some sizes.desired_capacity;
}

-- the state of an instance at a load balancer or in a target group
pub record InstanceState : Type 0 where
  pub instance_id : String
  pub state : String

-- A call that fails has a value of `Error`; `client_error` carries the code of a ClientError.
pub record Cloud (s : Service) : Type 0 where
  pub update_auto_scaling_group : Update → s.World → Result s.World
  pub terminate_instance : String → Bool → s.World → Result s.World
  pub deregister_instances : String → String → s.World → Result s.World
  pub load_balancer_health : String → List String → s.World → Result (List InstanceState)
  pub target_group_health : String → List String → s.World → Result (List InstanceState)

module _ (s : Service) where
  -- a call that changes the state
  abbrev pub change : (s.World → Result s.World) → Run s.World (Unit {0})
  change call w = elim (call w) [ ok w' ↦ done (tt, w') | err e ↦ raised e ]

  -- a call that reads the state, and may fail
  abbrev pub ask : {A : Type 0} → (s.World → Result A) → Run s.World A
  ask call = look call >>= lift

  -- `describe_autoscaling_groups(connection, group_name)[0]`
  unfoldable pub describe_group : Run s.World Group
  describe_group = ask (λ w. first_group (s.describe w))

  unfoldable pub time : Run s.World ℕ
  time = look s.now

  unfoldable pub sleep_10 : Run s.World (Unit {0})
  sleep_10 w = done (tt, s.sleep 10 w)

  module _ (c : Cloud s) where
    unfoldable pub update_asg : Update → Run s.World (Unit {0})
    update_asg u = change (c.update_auto_scaling_group u)

    unfoldable pub terminate_asg_instance : String → Bool → Run s.World (Unit {0})
    terminate_asg_instance i decrement_capacity = change (c.terminate_instance i decrement_capacity)

    unfoldable pub deregister_lb_instances : String → String → Run s.World (Unit {0})
    deregister_lb_instances lb i = change (c.deregister_instances lb i)

    unfoldable pub update_size : Group → Sizes → Run s.World (Unit {0})
    unfolding update_asg
    update_size g sizes = update_asg (size_update g sizes)
