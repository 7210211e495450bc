-- ===== src/Elasticache/Tests.antt =====
-- Runs of the manager on a service in memory, and the theorems at them.
use community_aws.Base.{
  some_inj, inl_inj, ℕ, zero, suc, ◌-◌, ◌<◌, String, ◌≡◌, refl, sym, ap, ◌∙◌, ◌≢◌, ◌⊎◌, inl, inr,
  true, Option, none, some, List, [], ◌∷◌, arith, drop, String-discrete, string_eq, nat_eq, bool_eq,
  option_eq,
}
use community_aws.Base.Run.{endless}
use community_aws.Elasticache.Client.{
  ClientError, Node, Cluster, Params, cache_cluster_not_found, Service, Manager,
}
use community_aws.Elasticache.Compare.{present, absent, check_params, get_nodes_to_remove, node_ids}
use community_aws.Elasticache.Status.{
  next_status, status_of, refresh_data, wait_loop, await_change, wait_for_status,
}
use community_aws.Elasticache.Actions.{
  wait_if_asked, finish, create_cluster, create_from, create, delete_cluster, delete_from, delete,
}
use community_aws.Elasticache.Main.{init_params, ensure_present, run_state, main}
use community_aws.Base.Int.{pos}
use community_aws.Elasticache.Ends.{IsSettling, described, after, main-ends_settling}
use community_aws.Elasticache.Coherent.{IsCoherent, main-IsCoherent}
use community_aws.Elasticache.Reached.{main-available}
use community_aws.Elasticache.Limits.{get_nodes_to_remove-drop, wait_for_status-endless}

-- the cluster, and the seconds until its status is the last one
record Cell : Type 0 where
  cluster : Option Cluster
  seconds : ℕ

abbrev node : String → Node
node id = record { cache_node_id = id; port = some 11211 }

abbrev cluster_of : String → Cluster
cluster_of status = record {
  cache_cluster_status = status;
  num_cache_nodes = 3;
  cache_node_type = "cache.t2.small";
  engine = "memcached";
  engine_version = "1.5";
  configuration_port = some 11211;
  preferred_availability_zone = "us-east-1a";
  cache_nodes = node "0001" ∷ node "0002" ∷ node "0003" ∷ [];
  cache_security_groups = [];
  security_groups = "sg-1" ∷ [];
}

-- a cluster is created, and deleted, in two seconds
abbrev settled_cluster : Cell → Option Cluster
settled_cluster w = elim w.seconds [
  | zero ↦ w.cluster
  | suc n ↦ elim w.cluster [
    | none ↦ some (cluster_of "deleting")
    | some c ↦ some (cluster_of "creating")
  ]
]

abbrev memory : Service
memory = record {
  World = Cell;
  describe_cache_clusters =
      λ w. elim (settled_cluster w) [ none ↦ inr cache_cluster_not_found | some c ↦ inl (c ∷ []) ];
  create_cache_cluster =
      λ p w. inl (record { cluster = some (cluster_of "available"); seconds = 2 });
  delete_cache_cluster = λ w. inl (cluster_of "deleting", (record { cluster = none; seconds = 2 }));
  modify_cache_cluster = λ ids p w. inl w;
  reboot_cache_cluster = λ ids w. inl w;
  sleep = λ n w. record w { seconds = w.seconds - n };
}

abbrev nothing : Cell
nothing = record { cluster = none; seconds = 0 }

abbrev there : Cell
there = record { cluster = some (cluster_of "available"); seconds = 0 }

abbrev params : Params
params = record {
  name = "cache";
  engine = "Memcached";
  cache_engine_version = "";
  node_type = "cache.t2.small";
  num_nodes = pos 1;
  cache_port = none;
  cache_parameter_group = "";
  cache_subnet_group = "";
  cache_security_groups = [];
  security_group_ids = [];
  zone = none;
  wait = true;
  hard_modify = true;
}

abbrev created : Manager Cell
created = record {
  world = there;
  changed = true;
  data_ = some (cluster_of "available");
  status = "available";
}

abbrev deleted : Manager Cell
deleted = record { world = nothing; changed = true; data_ = none; status = "gone" }

main-IsCoherent_example : IsCoherent deleted
unfolding main run_state delete delete_from delete_cluster finish wait_if_asked wait_for_status
    await_change wait_loop refresh_data check_params init_params String-discrete
main-IsCoherent_example = main-IsCoherent memory 5 absent params there deleted refl

main-available_example : created.status ≡ "available"
unfolding main run_state ensure_present create create_from create_cluster finish wait_if_asked
    wait_for_status await_change wait_loop refresh_data check_params init_params String-discrete
main-available_example = main-available memory 5 params refl nothing created refl

get_nodes_to_remove-drop_example :
    ("0002" ∷ "0003" ∷ []) ≡ drop 1 (node_ids (cluster_of "available"))
unfolding get_nodes_to_remove
get_nodes_to_remove-drop_example =
    get_nodes_to_remove-drop params (cluster_of "available") 1 ("0002" ∷ "0003" ∷ []) refl refl refl

abbrev stuck : Service
stuck = record memory {
  describe_cache_clusters = λ w. inl (cluster_of "incompatible-network" ∷ []);
}

abbrev creating : Manager Cell
creating = record {
  world = there;
  changed = true;
  data_ = some (cluster_of "creating");
  status = "creating";
}

wait_for_status-endless_example : wait_for_status stuck 4 "available" creating ≡ endless
unfolding String-discrete
wait_for_status-endless_example =
    wait_for_status-endless stuck (cluster_of "incompatible-network") [] "available" 4 creating
      (λ w. refl) refl refl refl

-- a service whose cluster is on the way for a second
data Phase : Type 0 where
  gone deleting creating_ available : Phase

abbrev name_of : Phase → String
name_of gone = "gone"
name_of deleting = "deleting"
name_of creating_ = "creating"
name_of available = "available"

abbrev settle : Phase → Phase
settle gone = gone
settle deleting = gone
settle creating_ = available
settle available = available

abbrev answer : Phase → List Cluster ⊎ ClientError
answer gone = inr cache_cluster_not_found
answer deleting = inl (cluster_of "deleting" ∷ [])
answer creating_ = inl (cluster_of "creating" ∷ [])
answer available = inl (cluster_of "available" ∷ [])

abbrev quick : Service
quick = record {
  World = Phase;
  describe_cache_clusters = answer;
  create_cache_cluster = λ p w. inl creating_;
  delete_cache_cluster = λ w. inl (cluster_of "deleting", deleting);
  modify_cache_cluster = λ ids p w. inl w;
  reboot_cache_cluster = λ ids w. inl w;
  sleep = λ n w. settle w;
}

quick-settles :
    (w : Phase) (status awaited : String)
    → described quick w ≡ some status
    → next_status status ≡ some awaited
    → (i : ℕ) × (i < 1) × (described quick (after quick (suc i) w) ≡ some awaited)
unfolding String-discrete
quick-settles gone status awaited h next = cc (ap next_status (some_inj h) ∙ next)
quick-settles deleting status awaited h next = (0, omega arith, ap next_status (some_inj h) ∙ next)
quick-settles creating_ status awaited h next = (0, omega arith, ap next_status (some_inj h) ∙ next)
quick-settles available status awaited h next = cc (ap next_status (some_inj h) ∙ next)

quick-deletes :
    (w w' : Phase) (d : Cluster)
    → quick.delete_cache_cluster w ≡ inl (d, w')
    → described quick w' ≡ some (status_of d)
quick-deletes w w' d h =
    let e : (cluster_of "deleting", deleting) ≡ (d, w') = inl_inj h in
    ap (λ x. described quick x.1) (sym e) ∙ ap (λ x. some (status_of x.0)) e

quick-IsSettling : IsSettling quick 1
quick-IsSettling = record { settles = quick-settles; deletes = quick-deletes }

main-ends_settling_example : main quick 1 present params gone ≢ endless
main-ends_settling_example = main-ends_settling quick 1 present params gone quick-IsSettling
