-- ===== src/Elasticache/Client.antt =====
-- The calls of ElastiCache for the one cluster that the module is about, the parameters of the module
-- and the state of the manager.
use community_aws.Base.{ℕ, String, ◌⊎◌, Bool, Option, List, string_eq, nat_eq, bool_eq, option_eq}
use community_aws.Base.Int.{ℤ}

pub record Node : Type 0 where
  pub cache_node_id : String
  -- the port of the endpoint, which a node may not have yet
  pub port : Option ℕ

-- what the service describes
pub record Cluster : Type 0 where
  pub cache_cluster_status : String
  pub num_cache_nodes : ℕ
  pub cache_node_type : String
  pub engine : String
  pub engine_version : String
  -- the port of the configuration endpoint
  pub configuration_port : Option ℕ
  pub preferred_availability_zone : String
  pub cache_nodes : List Node
  -- the names and the IDs of the groups
  pub cache_security_groups : List String
  pub security_groups : List String

pub record Params : Type 0 where
  pub name : String
  pub engine : String
  pub cache_engine_version : String
  pub node_type : String
  pub num_nodes : ℤ
  pub cache_port : Option ℕ
  pub cache_parameter_group : String
  pub cache_subnet_group : String
  pub cache_security_groups : List String
  pub security_group_ids : List String
  pub zone : Option String
  pub wait : Bool
  -- a missing value is false
  pub hard_modify : Bool

pub data ClientError : Type 0 where
  cache_cluster_not_found : ClientError
  other : String → ClientError

-- A call that changes the service returns the message of its error, or the new state.
pub record Service : Type 1 where
  pub World : Type 0
  pub describe_cache_clusters : World → List Cluster ⊎ ClientError
  pub create_cache_cluster : Params → World → World ⊎ String
  -- the cluster of the response
  pub delete_cache_cluster : World → (Cluster × World) ⊎ String
  -- the IDs of the nodes to remove
  pub modify_cache_cluster : List String → Params → World → World ⊎ String
  pub reboot_cache_cluster : List String → World → World ⊎ String
  pub sleep : ℕ → World → World

-- the fields of the manager that change, with the state of the service
pub record Manager (W : Type 0) : Type 0 where
  pub world : W
  pub changed : Bool
  pub data_ : Option Cluster
  pub status : String
