-- ===== src/Elasticache/Closed.antt =====
-- What holds of the wait, and of the calls with the refresh that follows them, holds of the whole
-- manager.
use community_aws.Base.{
  ℕ, String, List, ◌==◌, string_eq, nat_eq, bool_eq, option_eq, Result, ok, err,
}
use community_aws.Base.Run.{lift, Run, ◌>>=◌, ◌>>◌}
use community_aws.Base.Rules.{Closed, of_if, of_given}
use community_aws.Elasticache.Client.{Params, Service, Manager}
use community_aws.Elasticache.Compare.{State, present, absent, rebooted}
use community_aws.Elasticache.Status.{set_data, refresh_data, unless_reached, wait_for_status}
use community_aws.Elasticache.Actions.{
  call, call_delete, set_changed, wait_if_asked, wait_or_fail, data_now, finish, create_cluster,
  create_from, create, delete_cluster, delete_from, delete, modify, sync_available, sync_busy, sync,
  reboot_nodes, reboot,
}
use community_aws.Elasticache.Main.{ensure_present, run_state}

-- a closed predicate that holds of the parts that read or change the service
pub record Parts (s : Service) (p : Params) (rounds : ℕ) (c : Closed (Manager s.World))
    : Type 0 where
  pub of_wait : (awaited : String) → c.Holds (wait_for_status s rounds awaited)
  pub of_set_changed : c.Holds (set_changed s p rounds)
  pub of_call_create : c.Holds (call s p rounds (s.create_cache_cluster p) >> refresh_data s)
  pub of_call_modify :
      (ids : List String)
      → c.Holds (call s p rounds (s.modify_cache_cluster ids p) >> refresh_data s)
  pub of_call_reboot :
      (ids : List String) → c.Holds (call s p rounds (s.reboot_cache_cluster ids) >> refresh_data s)
  pub of_call_delete : c.Holds (call_delete s p rounds >>= set_data s)

module _ {s : Service} {p : Params} {rounds : ℕ} (c : Closed (Manager s.World))
    (parts : Parts s p rounds c) where
  of_unless_reached :
      (awaited : String) (next : String → Run (Manager s.World) (Unit {0}))
      → ((status : String) → c.Holds (next status))
      → c.Holds (unless_reached s awaited next)
  of_unless_reached awaited next h =
      c.of_bind _ _ (c.of_look _)
        (λ status. of_if c (status == awaited) _ _ (c.of_return tt) (h status))

  pub of_lift : {A : Type 0} (r : Result A) → c.Holds (lift r)
  of_lift (ok a) = c.of_return a
  of_lift (err e) = c.of_raise e

  of_wait_if_asked : (awaited : String) → c.Holds (wait_if_asked s p rounds awaited)
  unfolding wait_if_asked
  of_wait_if_asked awaited = search (c.of_return, of_if c, parts.of_wait)

  of_wait_or_fail : (awaited text : String) → c.Holds (wait_or_fail s p rounds awaited text)
  unfolding wait_or_fail
  of_wait_or_fail awaited text = search (c.of_raise, of_if c, parts.of_wait)

  of_data_now : c.Holds (data_now s p rounds)
  of_data_now = c.of_bind _ _ (c.of_look _) (of_given c _)

  of_finish : (awaited : String) → c.Holds (finish s p rounds awaited)
  unfolding finish
  of_finish awaited = search (c.of_bind, parts.of_set_changed, of_wait_if_asked)

  of_create_cluster : c.Holds (create_cluster s p rounds)
  unfolding create_cluster
  of_create_cluster = search (c.of_bind, parts.of_call_create, of_finish)

  of_create_from : (status : String) → c.Holds (create_from s p rounds status)
  unfolding create_from
  of_create_from status =
      search (c.of_bind, c.of_return, of_if c, of_wait_if_asked, of_wait_or_fail, of_create_cluster)

  of_create : c.Holds (create s p rounds)
  unfolding create
  of_create = of_unless_reached "available" (create_from s p rounds) of_create_from

  of_delete_cluster : c.Holds (delete_cluster s p rounds)
  unfolding delete_cluster
  of_delete_cluster = search (c.of_bind, parts.of_call_delete, of_finish)

  of_delete_from : (status : String) → c.Holds (delete_from s p rounds status)
  unfolding delete_from
  of_delete_from status =
      search (c.of_bind, c.of_return, of_if c, of_wait_if_asked, of_wait_or_fail, of_delete_cluster)

  of_delete : c.Holds (delete s p rounds)
  unfolding delete
  of_delete = of_unless_reached "gone" (delete_from s p rounds) of_delete_from

  of_modify : c.Holds (modify s p rounds)
  unfolding modify
  of_modify = search (c.of_bind, of_data_now, of_lift, parts.of_call_modify, of_finish) depth 8

  of_sync_available : c.Holds (sync_available s p rounds)
  unfolding sync_available
  of_sync_available =
      search
        (
          c.of_bind,
          c.of_return,
          c.of_raise,
          of_if c,
          of_data_now,
          of_lift,
          of_delete,
          of_create,
          of_modify,
        )
        depth 9

  of_sync : c.Holds (sync s p rounds)
  unfolding sync sync_busy
  of_sync =
      search
        (c.of_bind, c.of_look, c.of_return, c.of_raise, of_if c, parts.of_wait, of_sync_available)
        depth 8

  of_reboot_nodes : c.Holds (reboot_nodes s p rounds)
  unfolding reboot_nodes
  of_reboot_nodes = search (c.of_bind, of_data_now, parts.of_call_reboot, of_finish) depth 8

  of_reboot : c.Holds (reboot s p rounds)
  unfolding reboot
  of_reboot =
      search
        (c.of_bind, c.of_look, c.of_return, c.of_raise, of_if c, of_wait_or_fail, of_reboot_nodes)
        depth 8

  pub of_run_state : (state : State) → c.Holds (run_state s rounds state p)
  unfolding run_state ensure_present
  of_run_state present = search (c.of_bind, c.of_look, of_if c, of_sync, of_create)
  of_run_state absent = of_delete
  of_run_state rebooted = of_reboot
