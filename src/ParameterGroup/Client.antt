-- ===== src/ParameterGroup/Client.antt =====
-- The calls of ElastiCache on one parameter group, and the values of parameters.
use community_aws.Base.{String, ◌⊎◌, Bool, Option, List, string_eq, nat_eq, bool_eq, option_eq}
use community_aws.Base.Int.{ℤ}

pub data Value : Type 0 where
  text : String → Value
  number : ℤ → Value
  boolean : Bool → Value

-- the keys of a parameter that the module reads
pub record Parameter : Type 0 where
  pub parameter_name : String
  pub is_modifiable : Bool
  pub allowed_values : Option String
  pub data_type : String
  pub parameter_value : Option String

-- a parameter that was asked for, as the call takes it
abbrev pub NameValue : Type 0
NameValue = String × String

-- A call returns its result, or the message of its ClientError.
pub record Service : Type 1 where
  pub World : Type 0
  -- `to_text` of ansible.module_utils
  pub to_text : Value → String
  pub describe_cache_parameters : World → List Parameter ⊎ String
  -- the family and the description
  pub create_cache_parameter_group : String → String → World → World ⊎ String
  pub delete_cache_parameter_group : World → World ⊎ String
  pub modify_cache_parameter_group : List NameValue → World → World ⊎ String
  -- the parameters, and whether all are reset
  pub reset_cache_parameter_group : List NameValue → Bool → World → World ⊎ String
