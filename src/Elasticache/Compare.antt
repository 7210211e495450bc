-- ===== src/Elasticache/Compare.antt =====
-- The decisions that make no call: the check of the parameters in `main`, and what the settings of
-- the cluster say of those that are wanted: `_requires_modification`,
-- `_requires_destroy_and_create`, `_get_port` and `_get_nodes_to_remove`.
use community_aws.Base.{
  is_empty, ℕ, ◌+◌, ◌-◌, String, Bool, false, ◌&&◌, ◌||◌, not, Option, none, some, List, [], ◌∷◌,
  map, eqb, if◌then◌else◌, length, drop, all, contains, ◌==◌, string_eq, nat_eq, bool_eq, option_eq,
  key_error, index_error, fail_json, Result, ok, err, ◌>>=◌, ◌>>◌, or_raise,
}
use community_aws.Base.Int.{pos, pos_part, neg_part, eqb_ℤ}
use community_aws.Elasticache.Client.{Cluster, Params}

-- `set(a) != set(b)`
abbrev pub sets_differ : List String → List String → Bool
sets_differ a b = not (all (λ x. contains x b) a && all (λ x. contains x a) b)

unfoldable pub requires_modification : Params → Cluster → Bool
requires_modification p d =
    (not (eqb_ℤ p.num_nodes (pos 0)) && not (eqb_ℤ (pos d.num_cache_nodes) p.num_nodes))
    || (not (p.cache_engine_version == "") && not (d.engine_version == p.cache_engine_version))
    || sets_differ d.cache_security_groups p.cache_security_groups
    || (not (is_empty p.security_group_ids) && sets_differ d.security_groups p.security_group_ids)

-- A missing endpoint is a KeyError, a missing node an IndexError; the port is none for another
-- engine.
unfoldable pub get_port : Cluster → Result (Option ℕ)
get_port d =
    if d.engine == "memcached"
    then (or_raise (key_error "ConfigurationEndpoint") d.configuration_port >>= λ n. ok (some n))
    else if d.engine == "redis"
    then elim d.cache_nodes [
      | [] ↦ err index_error
      | n ∷ l ↦ or_raise (key_error "Endpoint") n.port >>= λ port. ok (some port)
    ]
    else ok none

-- a wanted value that is given, and is not the value at hand
abbrev pub port_differs : Option ℕ → Option ℕ → Bool
port_differs none port = false
port_differs (some n) port = not (some n == port)

abbrev pub zone_differs : Option String → String → Bool
zone_differs none zone = false
zone_differs (some z) zone = not (z == zone)

unfoldable pub requires_destroy_and_create : Params → Cluster → Result Bool
requires_destroy_and_create p d = get_port d >>= λ port. ok (
    not (p.node_type == d.cache_node_type)
    || not (p.engine == d.engine)
    || port_differs p.cache_port port
    || zone_differs p.zone d.preferred_availability_zone)

-- how many nodes are too many
abbrev pub num_nodes_to_remove : Params → Cluster → ℕ
num_nodes_to_remove p d = (d.num_cache_nodes + neg_part p.num_nodes) - pos_part p.num_nodes

abbrev pub node_ids : Cluster → List String
node_ids d = map (λ n. n.cache_node_id) d.cache_nodes

-- The last nodes of the cluster: the slice from `-n` on, for a positive n.
unfoldable pub get_nodes_to_remove : Params → Cluster → Result (List String)
get_nodes_to_remove p d =
    let n = num_nodes_to_remove p d in
    if eqb n 0
    then ok []
    else if not p.hard_modify
    then err
        (fail_json "requires removal of cache nodes. 'hard_modify' must be set to true to proceed.")
    else ok (drop (length (node_ids d) - n) (node_ids d))

pub data State : Type 0 where
  present absent rebooted : State

-- the two checks of the parameters
unfoldable pub check_params : State → Params → Result (Unit {0})
check_params state p =
    (if not (p.cache_subnet_group == "") && not (is_empty p.cache_security_groups)
      then err (fail_json "Can't specify both cache_subnet_group and cache_security_groups")
      else ok tt)
    >> (elim state [
      | present ↦
          if eqb_ℤ p.num_nodes (pos 0)
          then err (fail_json "'num_nodes' is a required parameter.")
          else ok tt
      | absent ↦ ok tt
      | rebooted ↦ ok tt
    ])
