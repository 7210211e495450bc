-- ===== src/Elasticache/Status.antt =====
-- The status of the cluster: `_refresh_data` and `_wait_for_status`. The wait has no limit in the
-- code; `rounds` is the number of rounds that it takes here.
use community_aws.Base.{
  ℕ, zero, suc, String, ◌⊎◌, inl, inr, not, Option, none, some, List, [], ◌∷◌, if◌then◌else◌,
  contains, ◌==◌, string_eq, nat_eq, bool_eq, option_eq, key_error, index_error, fail_json,
}
use community_aws.Base.Run.{Run, done, endless, return_, raise, look, given, ◌>>=◌, ◌>>◌}
use community_aws.Elasticache.Client.{
  Cluster, ClientError, cache_cluster_not_found, other, Service, Manager,
}

-- `EXIST_STATUSES`, and those of them that are on the way to `available`
abbrev pub busy_statuses : List String
busy_statuses = "creating" ∷ "rebooting" ∷ "modifying" ∷ []

abbrev pub exist_statuses : List String
exist_statuses = "available" ∷ busy_statuses

-- `status_map`
abbrev pub next_status : String → Option String
next_status status =
    if contains status busy_statuses
    then some "available"
    else if status == "deleting"
    then some "gone"
    else none

-- the status as the manager keeps it
abbrev pub status_of : Cluster → String
status_of d =
    if d.cache_cluster_status == "rebooting cache cluster nodes"
    then "rebooting"
    else d.cache_cluster_status

module _ (s : Service) where
  -- `_refresh_data` with a cluster, and what it does without one when there is no cluster
  abbrev pub set_data : Cluster → Run (Manager s.World) (Unit {0})
  set_data d m = done (tt, (record m { data_ = some d; status = status_of d }))

  abbrev pub set_gone : Run (Manager s.World) (Unit {0})
  set_gone m = done (tt, (record m { data_ = none; status = "gone" }))

  -- what is done with the answer of the service
  abbrev pub take_answer : List Cluster ⊎ ClientError → Run (Manager s.World) (Unit {0})
  take_answer (inr cache_cluster_not_found) = set_gone
  take_answer (inr (other text)) = raise (fail_json text)
  take_answer (inl []) = raise index_error
  take_answer (inl (d ∷ l)) = set_data d

  unfoldable pub refresh_data : Run (Manager s.World) (Unit {0})
  refresh_data = look (λ m. s.describe_cache_clusters m.world) >>= take_answer

  abbrev pub slept : Run (Manager s.World) (Unit {0})
  slept m = done (tt, (record m { world = s.sleep 1 m.world }))

  abbrev pub status_now : Run (Manager s.World) String
  status_now = look (λ m. m.status)

  unfoldable pub wait_loop : ℕ → String → Run (Manager s.World) (Unit {0})
  unfolding refresh_data
  wait_loop zero awaited m = endless
  wait_loop (suc rounds) awaited m =
      (slept >> refresh_data >> status_now >>= λ status.
      if status == awaited then return_ tt else wait_loop rounds awaited)
        m

  -- the checks of `status_map`, and the loop
  unfoldable pub await_change : ℕ → String → String → Run (Manager s.World) (Unit {0})
  await_change rounds awaited status = given (key_error status) (next_status status) >>= λ next.
      if not (next == awaited)
      then raise (fail_json "Invalid awaited status.")
      else if not (contains awaited ("available" ∷ "gone" ∷ []))
      then raise (fail_json "is not a valid awaited status.")
      else wait_loop rounds awaited

  -- nothing is done where the status is already the one that is wanted
  abbrev pub unless_reached :
      String → (String → Run (Manager s.World) (Unit {0})) → Run (Manager s.World) (Unit {0})
  unless_reached awaited next =
      status_now >>= λ status. if status == awaited then return_ tt else next status

  unfoldable pub wait_for_status : ℕ → String → Run (Manager s.World) (Unit {0})
  wait_for_status rounds awaited = unless_reached awaited (await_change rounds awaited)
