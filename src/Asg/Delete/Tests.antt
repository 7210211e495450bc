-- ===== src/Asg/Delete/Tests.antt =====
-- A deletion that drains its group first, and one whose group never goes.
use community_aws.Base.{
  is_empty, ℕ, ◌+◌, ◌≤◌, String, ◌≡◌, refl, sym, ◌≢◌, inl, inr, Bool, true, false, ◌||◌, none, some,
  List, [], ◌∷◌, arith, if◌then◌else◌, Bool-cases, string_eq, nat_eq, bool_eq, option_eq,
  client_error, ok, err, ok_inj,
}
use community_aws.Base.Int.{pos}
use community_aws.Base.Run.{Run, done, raised, endless}
use community_aws.Asg.Properties.{Group}
use community_aws.Asg.Wait.{Service, IsClock}
use community_aws.Asg.Cloud.{Cloud, time, sleep_10, update_asg}
use community_aws.Asg.Balancers.{in_time}
use community_aws.Asg.Delete.{
  DeleteParams, Deleting, delete_late, drain_loop, gone_loop, delete_asg, del_notification_config,
  drain, delete_from, delete_autoscaling_group,
}
use community_aws.Asg.Properties.{Instance}
use community_aws.Asg.Delete.Ends.{IsForward, delete-ends}

-- how many instances a group has, whether it is there, and the time
record State : Type 0 where
  instances : List Instance
  there : Bool
  clock : ℕ

abbrev one_instance : Instance
one_instance = record {
  instance_id = "i-1";
  health_status = "Healthy";
  lifecycle_state = "InService";
  launch_configuration_name = some "lc-1";
  launch_template = none;
}

abbrev web : List Instance → Group
web instances = record {
  auto_scaling_group_name = "web";
  min_size = pos 0;
  max_size = pos 2;
  desired_capacity = pos 1;
  launch_configuration_name = some "lc-1";
  launch_template = none;
  load_balancer_names = [];
  target_group_arns = [];
  health_check_type = "EC2";
  instances = instances;
}

abbrev described : State → List Group
described w = if w.there then web w.instances ∷ [] else []

abbrev small : Service
small = record {
  World = State;
  describe = described;
  now = λ w. w.clock;
  sleep = λ n w. record w { clock = w.clock + n };
  none_is_smaller = false;
}

small-IsClock : IsClock small
small-IsClock = record { sleep_lasts = λ n w. omega arith }

-- an update takes the instances away at once
abbrev small_cloud : Cloud small
small_cloud = record {
  update_auto_scaling_group = λ u w. ok (record w { instances = [] });
  terminate_instance = λ i decrement w. ok w;
  deregister_instances = λ lb i w. ok w;
  load_balancer_health = λ lb is w. ok [];
  target_group_health = λ tg is w. ok [];
}

abbrev small_deleting : Deleting small
small_deleting = record {
  delete_auto_scaling_group = λ name force w.
      if is_empty w.instances || force
      then ok (record w { there = false })
      else err (client_error "ResourceInUse");
  delete_notification_configuration = λ name topic w. ok w;
}

-- a deletion that is accepted and never takes place
abbrev idle_deleting : Deleting small
idle_deleting = record {
  delete_auto_scaling_group = λ name force w. ok w;
  delete_notification_configuration = λ name topic w. ok w;
}

small-IsForward : IsForward small small_cloud small_deleting
small-IsForward = record {
  update_later = λ u w w' e. rw (sym (ok_inj e)) (omega arith);
  delete_later = later;
}
  where
    later :
        (name : String) (force : Bool) (w w' : State)
        → (if is_empty w.instances || force
            then ok (record w { there = false })
            else err (client_error "ResourceInUse"))
          ≡ ok w'
        → w.clock ≤ w'.clock
    later name force w w' e = elim (Bool-cases (is_empty w.instances || force)) [
      | inl free ↦ rw (sym (ok_inj (rw free at e))) (omega arith)
      | inr used ↦ cc (rw used at e)
    ]

abbrev asked : Bool → DeleteParams
asked wait = record {
  name = "web";
  notification_topic = some "topic";
  wait_for_instances = wait;
  wait_timeout = 20;
}

abbrev before : State
before = record { instances = one_instance ∷ []; there = true; clock = 7 }

abbrev after : State
after = record { instances = []; there = false; clock = 17 }

drains_first :
    delete_autoscaling_group small small_cloud small_deleting 5 (asked true) before
    ≡ done (true, after)
unfolding delete_autoscaling_group del_notification_config delete_from drain delete_asg update_asg
    drain_loop gone_loop time sleep_10 in_time
drains_first = refl

-- The group is still there when the time is up.
never_goes :
    delete_autoscaling_group small small_cloud idle_deleting 6 (asked false) before
    ≡ raised delete_late
unfolding delete_autoscaling_group del_notification_config delete_from delete_asg gone_loop time
    in_time
never_goes = refl

abbrev HasEnded : Run State Bool → Type 0
HasEnded m =
    (m before ≢ endless) × ((w' : State) (b : Bool) → m before ≡ done (b, w') → described w' ≡ [])

delete-ends_example :
    HasEnded (delete_autoscaling_group small small_cloud small_deleting 6 (asked true))
delete-ends_example =
    delete-ends small small-IsClock small_cloud small_deleting small-IsForward 5 (asked true)
      (omega arith) before
