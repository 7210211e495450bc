-- ===== src/Asg/Batch.antt =====
-- `terminate_batch`: what one batch of the rolling replacement does.
pub mod Laws
use community_aws.Base.{
  ℕ, zero, suc, ◌+◌, ◌-◌, ◌*◌, ◌≤◌, ◌<◌, String, ◌≡◌, refl, sym, ap, ◌∙◌, ◌≢◌, ◌↔◌, ◌⊎◌, inl, inr,
  Bool, true, false, ◌&&◌, ◌||◌, not, Option, none, some, List, [], ◌∷◌, ◌++◌, map, arith,
  ℕ_discrete, ltb, leb, eqb, if◌then◌else◌, Bool-cases, Sum-cases, Option-cases, eqb_iff, length,
  take, drop, filter, any, all, All, filter-filter, filter-append, contains, contains-append,
  contains-filter, length-append, length-take, length-drop, take-append-drop, Eq, ◌==◌, ==_iff,
  ==_refl, ==_false, String-discrete, string_eq, nat_eq, bool_eq, option_eq, Option-discrete, upper,
  Error, key_error, value_error, type_error, index_error, unbound_local_error, fail_json,
  client_error, Result, ok, err, ◌>>=◌, ◌>>◌, or_raise, raise_if, >>=-eq-ok, for_each, Result-cases,
  ok_pair, ok_inj,
}
use community_aws.Base.Int.{ℤ, pos, negsuc, ltb_ℤ, ◌-ℤ◌}
use community_aws.Asg.Properties.{Group, Props, get_properties}
use community_aws.Asg.Chunks.{slice_to}
use community_aws.Asg.Select.{
  Split, get_instances_by_launch_config, get_instances_by_launch_template, ParamKeys,
  list_purgeable_instances,
}

-- the parameters of the module that the function reads
pub record Params : Type 0 where
  pub keys : ParamKeys
  pub replace_batch_size : ℤ
  pub min_size : Option ℤ
  pub desired_capacity : Option ℤ
  pub launch_config_name : Option String
  pub lc_check : Bool
  pub lt_check : Bool

-- The calls that change the group.
pub data Call : Type 0 where
  -- `update_asg(connection, AutoScalingGroupName=…, MinSize=…)`
  update_min_size : String → ℤ → Call
  -- `elb_dreg(connection, group_name, instance_id)`
  elb_dreg : String → Call
  -- `terminate_asg_instance(connection, instance_id, decrement_capacity)`
  terminate_asg_instance : String → Bool → Call

pub record Batch : Type 0 where
  pub break_loop : Bool
  pub desired_size : ℤ
  pub decrement_capacity : Bool
  pub instances_to_terminate : List String
  pub new_min_size : Option ℤ

ℤ-discrete : Discrete ℤ
unfolding ℕ_discrete
ℤ-discrete = hlevel ℕ_discrete

abbrev pub int_or : Option ℤ → ℤ → ℤ
int_or none d = d
int_or (some n) d = n

-- `if module.params.get('launch_config_name')`
abbrev pub is_named : Option String → Bool
is_named none = false
is_named (some String.[]) = false
is_named (some (String.◌∷◌ _ _)) = true

abbrev pub is_zero : ℤ → Bool
is_zero (pos zero) = true
is_zero _ = false

-- `as_group['MinSize'] != min_size`, with None for no parameter
min_differs : ℤ → Option ℤ → Bool
unfolding ℤ-discrete
min_differs n none = true
min_differs n (some m) = elim (ℤ-discrete n m) [ yes _ ↦ false | no _ ↦ true ]

abbrev pub split_instances : Params → Props → List String → Result Split
split_instances p props initial =
    if is_named p.launch_config_name
    then get_instances_by_launch_config props p.lc_check initial
    else get_instances_by_launch_template props p.lt_check initial

-- `num_new_inst_needed`
unfoldable pub num_new_inst_needed : Params → Group → List String → ℤ
num_new_inst_needed p g new = int_or p.desired_capacity g.desired_capacity -ℤ pos (length new)

-- the block of `num_new_inst_needed == 0`
at_capacity : Params → Group → Bool → List String → Batch
unfolding min_differs
at_capacity p g leftovers old = record {
  break_loop = true;
  desired_size = int_or p.min_size g.min_size;
  decrement_capacity = not leftovers;
  instances_to_terminate = old;
  new_min_size =
      if min_differs g.min_size p.min_size then some (int_or p.min_size g.min_size) else none;
}

-- the two blocks on `num_new_inst_needed`
unfoldable pub choose : Params → Group → Bool → ℤ → List String → List String → Batch
unfolding at_capacity
choose p g leftovers needed old purgeable =
    if is_zero needed then at_capacity p g leftovers old else record {
      break_loop = false;
      desired_size = g.min_size;
      decrement_capacity = false;
      instances_to_terminate =
          if ltb_ℤ needed p.replace_batch_size then slice_to needed purgeable else purgeable;
      new_min_size = none;
    }

unfoldable pub plan_batch : Params → Group → List String → List String → Bool → Result Batch
plan_batch p g replace_instances initial_instances leftovers = do
  let props = get_properties g
  (new, old) ← split_instances p props initial_instances
  purgeable ←
      list_purgeable_instances p.keys props p.lc_check p.lt_check replace_instances
        initial_instances
  ok (choose p g leftovers (num_new_inst_needed p g new) old purgeable)

terminations : Bool → List String → List Call
terminations decrement [] = []
terminations decrement (i ∷ l) =
    elb_dreg i ∷ terminate_asg_instance i decrement ∷ terminations decrement l

-- the calls of a batch, in order
unfoldable pub batch_calls : Group → Batch → List Call
unfolding terminations
batch_calls g b = elim b.new_min_size [
  | none ↦ terminations b.decrement_capacity b.instances_to_terminate
  | some n ↦
      update_min_size g.auto_scaling_group_name n
      ∷ terminations b.decrement_capacity b.instances_to_terminate
]

-- `terminate_batch`: the calls that it makes, and its result (`break_loop`, `desired_size` and the
-- terminated instances, with what else was decided)
unfoldable pub terminate_batch :
    Params → Group → List String → List String → Bool → Result (List Call × Batch)
unfolding plan_batch batch_calls
terminate_batch p g replace_instances initial_instances leftovers =
    plan_batch p g replace_instances initial_instances leftovers >>= λ b. ok (batch_calls g b, b)
