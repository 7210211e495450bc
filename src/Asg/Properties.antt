-- ===== src/Asg/Properties.antt =====
-- `get_properties`: what the replacement reads of a group that the service describes. The keys
-- that are copied for the module's result only are left out.
pub mod Laws
use community_aws.Base.{
  ℕ, zero, suc, ◌+◌, ◌-◌, ◌*◌, ◌≤◌, ◌<◌, String, ◌≡◌, refl, sym, ap, ◌∙◌, ◌≢◌, ◌↔◌, ◌⊎◌, inl, inr,
  Bool, true, false, ◌&&◌, ◌||◌, not, Option, none, some, List, [], ◌∷◌, ◌++◌, map, arith,
  ℕ_discrete, ltb, leb, eqb, if◌then◌else◌, Bool-cases, Sum-cases, Option-cases, eqb_iff, length,
  take, drop, filter, any, all, All, filter-filter, filter-append, contains, contains-append,
  contains-filter, length-append, length-take, length-drop, take-append-drop, Eq, ◌==◌, ==_iff,
  ==_refl, ==_false, String-discrete, string_eq, nat_eq, bool_eq, option_eq, Option-discrete, upper,
  Error, key_error, value_error, type_error, index_error, unbound_local_error, fail_json,
  client_error, Result, ok, err, ◌>>=◌, ◌>>◌, or_raise, raise_if, >>=-eq-ok, for_each, Result-cases,
  ok_pair,
}
use community_aws.Base.Int.{ℤ, pos}

pub record Template : Type 0 where
  pub template_id : String
  pub template_name : String
  pub version : String

-- an element of `Instances`, as `describe_auto_scaling_groups` returns it
pub record Instance : Type 0 where
  pub instance_id : String
  pub health_status : String
  pub lifecycle_state : String
  pub launch_configuration_name : Option String
  pub launch_template : Option Template

pub record Group : Type 0 where
  pub auto_scaling_group_name : String
  pub min_size : ℤ
  pub max_size : ℤ
  pub desired_capacity : ℤ
  pub launch_configuration_name : Option String
  pub launch_template : Option Template
  pub load_balancer_names : List String
  pub target_group_arns : List String
  pub health_check_type : String
  pub instances : List Instance

-- an entry of `instance_facts`
pub record Facts : Type 0 where
  pub health_status : String
  pub lifecycle_state : String
  pub launch_config_name : Option String
  pub launch_template : Option Template

pub record Counts : Type 0 where
  pub healthy_instances : ℕ
  pub in_service_instances : ℕ
  pub unhealthy_instances : ℕ
  pub pending_instances : ℕ
  pub viable_instances : ℕ
  pub terminating_instances : ℕ

-- `launch_config_name` and `launch_template` are none where the dictionary lacks the key.
pub record Props : Type 0 where
  pub instances : List String
  pub instance_facts : List (String × Facts)
  pub launch_config_name : Option String
  pub launch_template : Option Template
  pub counts : Counts

unfoldable pub Template-discrete : Discrete Template
unfolding String-discrete
Template-discrete = hlevel String-discrete

instance abbrev pub template_eq : Eq Template
template_eq = record { decides = Template-discrete }

-- `instance_facts[k] = v`, in a dictionary kept in the order of insertion
unfoldable pub put_facts : String → Facts → List (String × Facts) → List (String × Facts)
put_facts k v [] = (k, v) ∷ []
put_facts k v ((j, u) ∷ d) = if j == k then (k, v) ∷ d else (j, u) ∷ put_facts k v d

-- `props['instance_facts'][k]`
unfoldable pub get_facts : String → List (String × Facts) → Option Facts
get_facts k [] = none
get_facts k ((j, u) ∷ d) = if j == k then some u else get_facts k d

-- the launch configuration wins over a launch template
facts_of : Instance → Facts
facts_of i = record {
  health_status = i.health_status;
  lifecycle_state = i.lifecycle_state;
  launch_config_name = i.launch_configuration_name;
  launch_template = elim i.launch_configuration_name [ some _ ↦ none | none ↦ i.launch_template ];
}

abbrev add_if : Bool → ℕ → ℕ
add_if b n = if b then n + 1 else n

unfoldable pub count_instance : Instance → Counts → Counts
count_instance i c =
    let healthy = i.health_status == "Healthy" in
    let in_service = i.lifecycle_state == "InService" in
    record {
      healthy_instances = add_if healthy c.healthy_instances;
      in_service_instances = add_if in_service c.in_service_instances;
      unhealthy_instances = add_if (not healthy) c.unhealthy_instances;
      pending_instances = add_if (i.lifecycle_state == "Pending") c.pending_instances;
      viable_instances = add_if (healthy && in_service) c.viable_instances;
      terminating_instances = add_if (i.lifecycle_state == "Terminating") c.terminating_instances;
    }

abbrev pub no_counts : Counts
no_counts = record {
  healthy_instances = 0;
  in_service_instances = 0;
  unhealthy_instances = 0;
  pending_instances = 0;
  viable_instances = 0;
  terminating_instances = 0;
}

-- the loop over the instances
unfoldable pub scan :
    List Instance → List (String × Facts) × Counts → List (String × Facts) × Counts
unfolding facts_of
scan [] s = s
scan (i ∷ is') (facts, counts) =
    scan is' (put_facts i.instance_id (facts_of i) facts, count_instance i counts)

unfoldable pub get_properties : Group → Props
unfolding scan
get_properties g =
    let (facts, counts) = scan g.instances ([], no_counts) in
    record {
      instances = map (λ i. i.instance_id) g.instances;
      instance_facts = facts;
      launch_config_name = g.launch_configuration_name;
      launch_template = elim g.launch_configuration_name [
        | some _ ↦ none
        | none ↦ g.launch_template
      ];
      counts = counts;
    }

-- every instance that is listed has its facts
abbrev pub HasFacts : Props → Type 0
HasFacts p = All (λ k. (f : Facts) × (get_facts k p.instance_facts ≡ some f)) p.instances
