-- ===== src/Elasticache/Actions.antt =====
-- The actions of the manager: `create`, `delete`, `modify`, `sync` and `reboot`.
use community_aws.Base.{
  ℕ, String, ◌⊎◌, inl, inr, true, not, if◌then◌else◌, contains, ◌==◌, string_eq, nat_eq, bool_eq,
  option_eq, type_error, fail_json,
}
use community_aws.Base.Run.{lift, Run, done, raised, return_, raise, look, given, ◌>>=◌, ◌>>◌}
use community_aws.Elasticache.Client.{Cluster, Params, Service, Manager}
use community_aws.Elasticache.Compare.{
  requires_modification, requires_destroy_and_create, get_nodes_to_remove, node_ids,
}
use community_aws.Elasticache.Status.{
  busy_statuses, exist_statuses, unless_reached, status_now, set_data, refresh_data,
  wait_for_status,
}

module _ (s : Service) (p : Params) (rounds : ℕ) where
  -- a call that changes the service, or ends the module with its error
  abbrev pub call : (s.World → s.World ⊎ String) → Run (Manager s.World) (Unit {0})
  call f m = elim (f m.world) [
    | inl w ↦ done (tt, (record m { world = w }))
    | inr text ↦ raised (fail_json text)
  ]

  -- the call that deletes returns a cluster
  abbrev pub call_delete : Run (Manager s.World) Cluster
  call_delete m = elim (s.delete_cache_cluster m.world) [
    | inl (d, w) ↦ done (d, (record m { world = w }))
    | inr text ↦ raised (fail_json text)
  ]

  abbrev pub set_changed : Run (Manager s.World) (Unit {0})
  set_changed m = done (tt, (record m { changed = true }))

  -- `if self.wait: self._wait_for_status(...)`
  unfoldable pub wait_if_asked : String → Run (Manager s.World) (Unit {0})
  wait_if_asked awaited = if p.wait then wait_for_status s rounds awaited else return_ tt

  -- the same where the code fails without a wait
  unfoldable pub wait_or_fail : String → String → Run (Manager s.World) (Unit {0})
  wait_or_fail awaited text =
      if p.wait then wait_for_status s rounds awaited else raise (fail_json text)

  -- the data, which the code reads without a check
  abbrev pub data_now : Run (Manager s.World) Cluster
  data_now = look (λ m. m.data_) >>= given type_error

  -- the end of the actions: the new data, and the wait
  unfoldable pub finish : String → Run (Manager s.World) (Unit {0})
  unfolding wait_if_asked
  finish awaited = set_changed >> wait_if_asked awaited

  unfoldable pub create_cluster : Run (Manager s.World) (Unit {0})
  unfolding finish
  create_cluster = call (s.create_cache_cluster p) >> refresh_data s >> finish "available"

  -- from a status other than `available`
  unfoldable pub create_from : String → Run (Manager s.World) (Unit {0})
  unfolding wait_if_asked wait_or_fail create_cluster
  create_from status =
      if contains status busy_statuses
      then wait_if_asked "available"
      else (if status == "deleting"
          then wait_or_fail "gone" "is currently deleting. Cannot create."
          else return_ tt)
        >> create_cluster

  unfoldable pub create : Run (Manager s.World) (Unit {0})
  unfolding create_from
  create = unless_reached s "available" create_from

  unfoldable pub delete_cluster : Run (Manager s.World) (Unit {0})
  unfolding finish
  delete_cluster = call_delete >>= set_data s >> finish "gone"

  -- from a status other than `gone`
  unfoldable pub delete_from : String → Run (Manager s.World) (Unit {0})
  unfolding wait_if_asked wait_or_fail delete_cluster
  delete_from status =
      if status == "deleting"
      then wait_if_asked "gone"
      else (if contains status busy_statuses
          then wait_or_fail "available" "Cannot delete."
          else return_ tt)
        >> delete_cluster

  unfoldable pub delete : Run (Manager s.World) (Unit {0})
  unfolding delete_from
  delete = unless_reached s "gone" delete_from

  unfoldable pub modify : Run (Manager s.World) (Unit {0})
  unfolding finish
  modify = data_now >>= λ d. lift (get_nodes_to_remove p d) >>= λ ids.
      call (s.modify_cache_cluster ids p) >> refresh_data s >> finish "available"

  -- the comparison with the settings, of a cluster that is available
  unfoldable pub sync_available : Run (Manager s.World) (Unit {0})
  unfolding create delete modify
  sync_available = data_now >>= λ d. lift (requires_destroy_and_create p d) >>= λ destroy.
      if destroy
      then (if not p.hard_modify
          then raise (
              fail_json
                "requires destructive modification. 'hard_modify' must be set to true to proceed.")
          else if not p.wait
          then raise (fail_json "requires destructive modification. 'wait' must be set to true.")
          else delete >> create)
      else data_now >>= λ d'. if requires_modification p d' then modify else return_ tt

  -- Only a cluster that is available can be compared: without a wait, nothing is done.
  unfoldable pub sync_busy : Run (Manager s.World) (Unit {0})
  unfolding sync_available
  sync_busy = if p.wait then wait_for_status s rounds "available" >> sync_available else return_ tt

  unfoldable pub sync : Run (Manager s.World) (Unit {0})
  unfolding sync_available sync_busy
  sync = status_now s >>= λ status.
      if not (contains status exist_statuses)
      then raise (fail_json "Cannot sync.")
      else if contains status busy_statuses
      then sync_busy
      else sync_available

  unfoldable pub reboot_nodes : Run (Manager s.World) (Unit {0})
  unfolding finish
  reboot_nodes = data_now >>= λ d.
      call (s.reboot_cache_cluster (node_ids d)) >> refresh_data s >> finish "available"

  unfoldable pub reboot : Run (Manager s.World) (Unit {0})
  unfolding wait_or_fail reboot_nodes
  reboot = status_now s >>= λ status.
      if not (contains status exist_statuses)
      then raise (fail_json "Cannot reboot.")
      else if status == "rebooting"
      then return_ tt
      else (if contains status busy_statuses
          then wait_or_fail "available" "Cannot reboot."
          else return_ tt)
        >> reboot_nodes
