-- ===== src/Elasticache/Main.antt =====
-- `main`, with the functions of the manager that it calls and its initial state.
use community_aws.Base.{
  ℕ, false, none, if◌then◌else◌, contains, string_eq, nat_eq, bool_eq, option_eq, lower, lower,
}
use community_aws.Base.Run.{lift, Run, Outcome, ◌>>=◌, ◌>>◌}
use community_aws.Elasticache.Client.{Params, Service, Manager}
use community_aws.Elasticache.Compare.{State, present, absent, rebooted, check_params}
use community_aws.Elasticache.Status.{exist_statuses, status_now, refresh_data}
use community_aws.Elasticache.Actions.{create, delete, sync, reboot}

-- the engine, in lower case
unfoldable pub init_params : Params → Params
init_params p = record p { engine = lower p.engine }

abbrev pub init : {W : Type 0} → W → Manager W
init w = record { world = w; changed = false; data_ = none; status = "gone" }

module _ (s : Service) (rounds : ℕ) where
  unfoldable pub ensure_present : Params → Run (Manager s.World) (Unit {0})
  ensure_present p = status_now s >>= λ status.
      if contains status exist_statuses then sync s p rounds else create s p rounds

  unfoldable pub run_state : State → Params → Run (Manager s.World) (Unit {0})
  unfolding ensure_present
  run_state present p = ensure_present p
  run_state absent p = delete s p rounds
  run_state rebooted p = reboot s p rounds

  -- The manager at the end has the facts that the module reports.
  unfoldable pub main : State → Params → s.World → Outcome (Unit {0} × Manager s.World)
  unfolding run_state
  main state p w =
      (lift (check_params state p) >> refresh_data s >> run_state state (init_params p)) (init w)
