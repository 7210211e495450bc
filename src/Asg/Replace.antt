-- ===== src/Asg/Replace.antt =====
-- The first part of `replace`, up to the call of `update_size` that starts a rolling replacement:
-- whether there is anything to do, and with which batch size.
pub mod Laws
mod Tests
use community_aws.Base.{
  is_empty, ℕ, zero, suc, ◌+◌, ◌-◌, ◌*◌, ◌≤◌, ◌<◌, String, ◌≡◌, refl, sym, ap, ◌∙◌, ◌≢◌, ◌↔◌, ◌⊎◌,
  inl, inr, Bool, true, false, ◌&&◌, ◌||◌, not, Option, none, some, List, [], ◌∷◌, ◌++◌, map, arith,
  ℕ_discrete, ltb, leb, eqb, if◌then◌else◌, Bool-cases, Sum-cases, Option-cases, eqb_iff, length,
  take, drop, filter, any, all, All, filter-filter, filter-append, contains, contains-append,
  contains-filter, length-append, length-take, length-drop, take-append-drop, Eq, ◌==◌, ==_iff,
  ==_refl, ==_false, String-discrete, string_eq, nat_eq, bool_eq, option_eq, Option-discrete, upper,
  Error, key_error, value_error, type_error, index_error, unbound_local_error, fail_json,
  client_error, Result, ok, err, ◌>>=◌, ◌>>◌, or_raise, raise_if, >>=-eq-ok, for_each, Result-cases,
  ok_pair, ok_inj, some_ok_pair,
}
use community_aws.Base.Int.{ℤ, pos, negsuc, ◌+ℤ◌, ◌-ℤ◌, ltb_ℤ}
use community_aws.Asg.Properties.{Group, Props, get_properties}
use community_aws.Asg.Select.{
  Split, get_instances_by_launch_config, get_instances_by_launch_template,
}
use community_aws.Asg.Batch.{Params, int_or, is_named, is_zero}

pub record ReplaceParams : Type 0 where
  pub batch : Params
  pub max_size : Option ℤ
  -- the parameter `launch_template` is a dictionary that is not empty
  pub has_template : Bool
  pub replace_instances : List String
  pub replace_all_instances : Bool

pub record Sizes : Type 0 where
  pub max_size : ℤ
  pub min_size : ℤ
  pub desired_capacity : ℤ

pub data Plan : Type 0 where
  -- `terminate_batch(connection, old_instances, instances, True)`, and the end
  leftovers : List String → List String → Plan
  -- the end, with `changed` False
  nothing : Plan
  -- the batch size, and the sizes of the call of `update_size`
  roll : ℤ → Sizes → Plan

abbrev pub lc_checked : ReplaceParams → Bool
lc_checked p = is_named p.batch.launch_config_name && p.batch.lc_check

abbrev pub lt_checked : ReplaceParams → Bool
lt_checked p = p.has_template && p.batch.lt_check

-- the variable `replace_instances`
abbrev pub named_instances : ReplaceParams → Props → List String
named_instances p props = if p.replace_all_instances then props.instances else p.replace_instances

-- the variable `instances`
abbrev pub instances_of : ReplaceParams → Props → List String
instances_of p props =
    if is_empty (named_instances p props) then props.instances else named_instances p props

-- with neither a launch configuration nor a template the two lists have no value
unfoldable pub split_replaced : ReplaceParams → Props → Result Split
split_replaced p props =
    if is_named p.batch.launch_config_name
    then get_instances_by_launch_config props (lc_checked p) (instances_of p props)
    else if p.has_template
    then get_instances_by_launch_template props (lt_checked p) (instances_of p props)
    else err unbound_local_error

-- `num_new_inst_needed`
unfoldable pub needed_by : ReplaceParams → Group → List String → ℤ
needed_by p g new = int_or p.batch.desired_capacity g.desired_capacity -ℤ pos (length new)

-- `batch_size`, behind the block on `lc_check or lt_check`
unfoldable pub batch_size_of : ReplaceParams → ℤ → ℤ
batch_size_of p needed =
    if (lc_checked p || lt_checked p) && ltb_ℤ needed p.batch.replace_batch_size
    then needed
    else p.batch.replace_batch_size

unfoldable pub sizes_with : ReplaceParams → Group → ℤ → Sizes
sizes_with p g n = record {
  max_size = int_or p.max_size g.max_size +ℤ n;
  min_size = int_or p.batch.min_size g.min_size +ℤ n;
  desired_capacity = int_or p.batch.desired_capacity g.desired_capacity +ℤ n;
}

unfoldable pub decide : ReplaceParams → Group → List String → List String → ℤ → Plan
decide p g instances old needed =
    if (lc_checked p || lt_checked p) && is_zero needed && not (is_empty old)
    then leftovers old instances
    else if is_empty old
    then nothing
    else roll (batch_size_of p needed) (sizes_with p g (batch_size_of p needed))

unfoldable pub start_replace : ReplaceParams → Group → Result Plan
start_replace p g = split_replaced p (get_properties g) >>= λ (new, old).
    ok (decide p g (instances_of p (get_properties g)) old (needed_by p g new))
