-- ===== src/Asg/Delete.antt =====
-- `delete_autoscaling_group` of `plugins/modules/ec2_asg.py`. Both loops take the same fuel.
pub mod Laws
pub mod Ends
mod Tests
use community_aws.Base.{
  some_inj, is_within, is_empty, ℕ, zero, suc, ◌+◌, ◌-◌, ◌*◌, ◌≤◌, ◌<◌, String, ◌≡◌, refl, sym, ap,
  ◌∙◌, ◌≢◌, ◌↔◌, ◌⊎◌, inl, inr, Bool, true, false, ◌&&◌, ◌||◌, not, Option, none, some, List, [],
  ◌∷◌, ◌++◌, map, arith, ℕ_discrete, ltb, leb, eqb, if◌then◌else◌, Bool-cases, Sum-cases,
  Option-cases, eqb_iff, length, take, drop, filter, any, all, All, filter-filter, filter-append,
  contains, contains-append, contains-filter, length-append, length-take, length-drop,
  take-append-drop, Eq, ◌==◌, ==_iff, ==_refl, ==_false, String-discrete, string_eq, nat_eq,
  bool_eq, option_eq, Option-discrete, upper, lower, lower, Error, key_error, value_error,
  type_error, index_error, unbound_local_error, fail_json, client_error, Result, ok, err, or_raise,
  raise_if, >>=-eq-ok, for_each, Result-cases, ok_pair, ok_inj, some_ok_pair,
}
use community_aws.Base.Int.{ℤ, pos}
use community_aws.Base.Run.{
  Run, Outcome, done, raised, endless, return_, look, lift, raise, ◌>>=◌, ◌>>◌,
}
use community_aws.Asg.Properties.{Group}
use community_aws.Asg.Wait.{Service}
use community_aws.Asg.Cloud.{Cloud, Update, change, time, sleep_10, update_asg}
use community_aws.Asg.Balancers.{in_time}

pub record DeleteParams : Type 0 where
  pub name : String
  pub notification_topic : Option String
  pub wait_for_instances : Bool
  pub wait_timeout : ℕ

-- the calls that only a deletion makes
pub record Deleting (s : Service) : Type 0 where
  pub delete_auto_scaling_group : String → Bool → s.World → Result s.World
  pub delete_notification_configuration : String → String → s.World → Result s.World

abbrev pub no_sizes : String → Update
no_sizes name = record {
  auto_scaling_group_name = name;
  min_size = pos 0;
  max_size = some (pos 0);
  desired_capacity = some (pos 0);
}

abbrev drain_late : Error
drain_late = fail_json "Waited too long for old instances to terminate."

abbrev pub delete_late : Error
delete_late = fail_json "Waited too long for ASG to delete."

-- the variable `instances` behind a round
abbrev still_there : List Group → Bool → Bool
still_there [] b = b
still_there (g ∷ l) b = if is_empty g.instances then false else b

module _ (s : Service) where
  -- the wait for the instances
  unfoldable pub drain_loop : ℕ → ℕ → Bool → Run s.World (Unit {0})
  unfolding time sleep_10
  drain_loop zero deadline instances w = endless
  drain_loop (suc fuel) deadline instances w =
      let again = look s.describe >>= λ groups.
      sleep_10 s >> drain_loop fuel deadline (still_there groups instances) in
      let round = time s >>= λ t. if instances && leb t deadline then again else return_ tt in
      round w

  -- the wait for the group
  unfoldable pub gone_loop : ℕ → ℕ → Run s.World (Unit {0})
  gone_loop zero deadline w = endless
  gone_loop (suc fuel) deadline w =
      let again = gone_loop fuel deadline (s.sleep 5 w) in
      if not (is_empty (s.describe w)) && leb (s.now w) deadline then again else done (tt, w)

  module _ (c : Cloud s) (d : Deleting s) (fuel : ℕ) where
    unfoldable pub delete_asg : String → Bool → Run s.World (Unit {0})
    delete_asg name force_delete = change s (d.delete_auto_scaling_group name force_delete)

    unfoldable pub del_notification_config : String → String → Run s.World (Unit {0})
    del_notification_config name topic = change s (d.delete_notification_configuration name topic)

    -- the branch of `wait_for_instances`
    unfoldable pub drain : String → ℕ → Run s.World (Unit {0})
    unfolding update_asg drain_loop in_time delete_asg
    drain name deadline =
        update_asg s c (no_sizes name)
        >> drain_loop fuel deadline true
        >> in_time s drain_late deadline
        >> delete_asg name false

    unfoldable pub delete_from : DeleteParams → ℕ → Run s.World Bool
    unfolding drain delete_asg gone_loop in_time
    delete_from p deadline =
        (if p.wait_for_instances then drain p.name deadline else delete_asg p.name true)
        >> (gone_loop fuel deadline >> (in_time s delete_late deadline >> return_ true))

    abbrev pub drop_notification : DeleteParams → Option String → Run s.World (Unit {0})
    drop_notification p none = return_ tt
    drop_notification p (some String.[]) = return_ tt
    drop_notification p (some (String.◌∷◌ x t)) = del_notification_config p.name (String.◌∷◌ x t)

    abbrev pub delete_listed : DeleteParams → List Group → Run s.World Bool
    delete_listed p [] = return_ false
    delete_listed p (g ∷ l) = time s >>= λ t. delete_from p (t + p.wait_timeout)

    unfoldable pub delete_autoscaling_group : DeleteParams → Run s.World Bool
    unfolding del_notification_config delete_from time
    delete_autoscaling_group p =
        drop_notification p p.notification_topic >> (look s.describe >>= delete_listed p)
