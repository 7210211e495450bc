-- ===== src/Elasticache/Reached.antt =====
-- The status that a run reaches which waits, and a wait that does not end.
use community_aws.Base.{
  ℕ, zero, suc, String, ◌≡◌, sym, ap, ◌∙◌, inl, inr, true, false, arith, Bool-cases, contains, ◌==◌,
  ==_iff, string_eq, nat_eq, bool_eq, option_eq, Result, ok, err,
}
use community_aws.Base.Run.{lift, Run, done, ◌>>◌, done_inj, bind-eq-done}
use community_aws.Base.Rules.{
  Ensures, Ensures-raise, Ensures-bind, Ensures-if, Ensures-then, Ensures-then-branch,
  Ensures-Preserves, Preserves, preserves, of_if, of_given,
}
use community_aws.Elasticache.Client.{Params, Service, Manager}
use community_aws.Elasticache.Compare.{present, absent, check_params}
use community_aws.Elasticache.Status.{
  refresh_data, slept, status_now, wait_loop, await_change, unless_reached, wait_for_status,
  busy_statuses, exist_statuses,
}
use community_aws.Elasticache.Actions.{
  wait_if_asked, finish, create_cluster, create_from, create, delete_cluster, delete_from, delete,
  modify, sync_available, sync_busy, sync,
}
use community_aws.Elasticache.Main.{init_params, init, ensure_present, run_state, main}

module _ (s : Service) where
  abbrev pub HasStatus : String → Manager s.World → Type 0
  HasStatus status m = m.status ≡ status

  wait_loop-HasStatus :
      (rounds : ℕ) (awaited : String) → Ensures (HasStatus awaited) (wait_loop s rounds awaited)
  unfolding wait_loop
  wait_loop-HasStatus zero awaited w w' a h = cc
  wait_loop-HasStatus (suc rounds) awaited w w' a h =
      let (status, v, there, after) =
        bind-eq-done (slept s >> refresh_data s >> status_now s) _ w w' a h in
      let (u, v', there', seen) =
        bind-eq-done (slept s >> refresh_data s) (λ u. status_now s) w v status there in
      elim (Bool-cases (status == awaited)) [
        | inl yes_ ↦
            ap (λ (m : Manager s.World). m.status)
              (sym (done_inj (rw yes_ at after)).1 ∙ sym (done_inj seen).1)
            ∙ (done_inj seen).0
            ∙ (==_iff status awaited).0 yes_
        | inr no_ ↦ wait_loop-HasStatus rounds awaited v w' a (rw no_ at after)
      ]

  unless_reached-HasStatus :
      (awaited : String) (next : String → Run (Manager s.World) (Unit {0}))
      → ((status : String) → Ensures (HasStatus awaited) (next status))
      → Ensures (HasStatus awaited) (unless_reached s awaited next)
  unless_reached-HasStatus awaited next k w w' a h = elim (Bool-cases (w.status == awaited)) [
    | inl yes_ ↦
        ap (λ (m : Manager s.World). m.status) (sym (done_inj (rw yes_ at h)).1)
        ∙ (==_iff w.status awaited).0 yes_
    | inr no_ ↦ k w.status w w' a (rw no_ at h)
  ]

  -- a wait that ends has reached the status
  wait_for_status-HasStatus :
      (rounds : ℕ) (awaited : String)
      → Ensures (HasStatus awaited) (wait_for_status s rounds awaited)
  unfolding wait_for_status await_change
  wait_for_status-HasStatus rounds awaited =
      unless_reached-HasStatus awaited (await_change s rounds awaited) (λ status. search (
        Ensures-bind (HasStatus awaited),
        Ensures-raise (HasStatus awaited),
        Ensures-if (HasStatus awaited),
        wait_loop-HasStatus rounds,
      ))

  module _ (p : Params) (rounds : ℕ) (waits : p.wait ≡ true) where
    wait_if_asked-HasStatus :
        (awaited : String) → Ensures (HasStatus awaited) (wait_if_asked s p rounds awaited)
    unfolding wait_if_asked
    wait_if_asked-HasStatus awaited = rw waits (wait_for_status-HasStatus rounds awaited)

    finish-HasStatus : (awaited : String) → Ensures (HasStatus awaited) (finish s p rounds awaited)
    unfolding finish
    finish-HasStatus awaited = search (Ensures-bind (HasStatus awaited), wait_if_asked-HasStatus)

    create-HasStatus : Ensures (HasStatus "available") (create s p rounds)
    unfolding create create_from create_cluster
    create-HasStatus = unless_reached-HasStatus "available" (create_from s p rounds) (λ status.
        search (
          Ensures-bind (HasStatus "available"),
          Ensures-if (HasStatus "available"),
          wait_if_asked-HasStatus,
          finish-HasStatus,
        ))

    delete-HasStatus : Ensures (HasStatus "gone") (delete s p rounds)
    unfolding delete delete_from delete_cluster
    delete-HasStatus = unless_reached-HasStatus "gone" (delete_from s p rounds) (λ status. search (
      Ensures-bind (HasStatus "gone"),
      Ensures-if (HasStatus "gone"),
      wait_if_asked-HasStatus,
      finish-HasStatus,
    ))

    modify-HasStatus : Ensures (HasStatus "available") (modify s p rounds)
    unfolding modify
    modify-HasStatus = search (Ensures-bind (HasStatus "available"), finish-HasStatus) depth 8

    lift-HasStatus : {A : Type 0} (r : Result A) → Preserves (HasStatus "available") (lift r)
    lift-HasStatus (ok a) = (preserves (HasStatus "available")).of_return a
    lift-HasStatus (err e) = (preserves (HasStatus "available")).of_raise e

    sync_available-HasStatus : Preserves (HasStatus "available") (sync_available s p rounds)
    unfolding sync_available
    sync_available-HasStatus =
        let c = preserves (HasStatus "available") in
        let made : Ensures (HasStatus "available") (delete s p rounds >> create s p rounds) =
          search (Ensures-bind (HasStatus "available"), create-HasStatus) in
        let replaced = Ensures-Preserves (HasStatus "available") _ made in
        let modified = Ensures-Preserves (HasStatus "available") _ modify-HasStatus in
        search
          (
            c.of_bind,
            c.of_look,
            c.of_return,
            c.of_raise,
            of_if c,
            of_given c,
            lift-HasStatus,
            replaced,
            modified,
          )
          depth 9

    sync_busy-HasStatus : Ensures (HasStatus "available") (sync_busy s p rounds)
    unfolding sync_busy
    sync_busy-HasStatus = Ensures-then-branch (HasStatus "available") p.wait _ _ waits (
        Ensures-then (HasStatus "available") (wait_for_status s rounds "available") _
          (wait_for_status-HasStatus rounds "available") (λ u. sync_available-HasStatus))

    -- A status that exists, and is on the way to nothing, is `available`.
    settled :
        (status : String)
        → contains status exist_statuses ≡ true
        → contains status busy_statuses ≡ false
        → status ≡ "available"
    settled status e b = (==_iff status "available").0 (ground (arith, e, b))

    sync-HasStatus : Ensures (HasStatus "available") (sync s p rounds)
    unfolding sync
    sync-HasStatus w w' a h = elim (Bool-cases (contains w.status exist_statuses)) [
      | inr no_ ↦ cc (rw no_ at h)
      | inl yes_ ↦ elim (Bool-cases (contains w.status busy_statuses)) [
        | inr idle ↦
            sync_available-HasStatus w w' a (rw (yes_, idle) at h) (settled w.status yes_ idle)
        | inl busy ↦ sync_busy-HasStatus w w' a (rw (yes_, busy) at h)
      ]
    ]

    run_state-present : Ensures (HasStatus "available") (run_state s rounds present p)
    unfolding run_state ensure_present
    run_state-present = search (
      Ensures-bind (HasStatus "available"),
      Ensures-if (HasStatus "available"),
      sync-HasStatus,
      create-HasStatus,
    )

    run_state-absent : Ensures (HasStatus "gone") (run_state s rounds absent p)
    unfolding run_state
    run_state-absent = delete-HasStatus

module _ (s : Service) (rounds : ℕ) (p : Params) (waits : p.wait ≡ true) (w : s.World)
    (m : Manager s.World) where
  -- Where waiting is asked for, a run for the state `present` that returns has reached the status
  -- `available`, whatever it had to do: create, replace or modify the cluster, or only to wait.
  pub main-available : main s rounds present p w ≡ done (tt, m) → m.status ≡ "available"
  unfolding main init_params
  main-available h =
      let reached : Ensures (HasStatus s "available") (λ v.
        (lift (check_params present p)
            >> refresh_data s
            >> run_state s rounds present (init_params p))
          v) =
        Ensures-bind (HasStatus s "available") _ _
          (λ u. run_state-present s (init_params p) rounds waits) in
      reached (init w) m tt h

  -- Where waiting is asked for, a run for the state `absent` that returns has reached the status
  -- `gone`.
  main-gone : main s rounds absent p w ≡ done (tt, m) → (m.status ≡ "gone")
  unfolding main init_params
  main-gone h =
      let reached : Ensures (HasStatus s "gone") (λ v.
        (lift (check_params absent p)
            >> refresh_data s
            >> run_state s rounds absent (init_params p))
          v) =
        Ensures-bind (HasStatus s "gone") _ _
          (λ u. run_state-absent s (init_params p) rounds waits) in
      reached (init w) m tt h
