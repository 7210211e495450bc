-- ===== src/Elasticache/Coherent.antt =====
-- What every action keeps: the status of the manager is that of its data.
use community_aws.Base.{
  ℕ, zero, suc, String, ◌≡◌, refl, ◌⊎◌, inl, inr, Option, none, some, List, [], ◌∷◌, Sum-cases,
  ◌==◌, string_eq, nat_eq, bool_eq, option_eq, key_error,
}
use community_aws.Base.Run.{Run, done, done_inj}
use community_aws.Base.Rules.{Closed, of_if, of_given, preserves}
use community_aws.Elasticache.Client.{
  Cluster, Params, ClientError, cache_cluster_not_found, other, Service, Manager,
}
use community_aws.Elasticache.Compare.{State, check_params}
use community_aws.Elasticache.Status.{
  next_status, status_of, set_data, take_answer, refresh_data, slept, wait_loop, await_change,
  wait_for_status,
}
use community_aws.Elasticache.Actions.{call, call_delete, set_changed}
use community_aws.Elasticache.Main.{init_params, init, main}
use mathlib.Core.Path.{subst}
use community_aws.Elasticache.Closed.{Parts, of_lift, of_run_state}

-- no data, and the status `gone`, or data with its own status
abbrev pub IsCoherentWith : Option Cluster → String → Type 0
IsCoherentWith none status = status ≡ "gone"
IsCoherentWith (some d) status = status ≡ status_of d

abbrev pub IsCoherent : {W : Type 0} → Manager W → Type 0
IsCoherent m = IsCoherentWith m.data_ m.status

module _ (s : Service) (p : Params) (rounds : ℕ) where
  abbrev coherence : Closed (Manager s.World)
  coherence = preserves IsCoherent

  abbrev Kept : {A : Type 0} → Run (Manager s.World) A → Type 0
  Kept m = coherence.Holds m

  set_data-Kept : (d : Cluster) → Kept (set_data s d)
  set_data-Kept d w w' a h c = subst IsCoherent (done_inj h).1 refl

  take_answer-Kept : (r : List Cluster ⊎ ClientError) → Kept (take_answer s r)
  take_answer-Kept (inr cache_cluster_not_found) =
      λ w w' a h c. subst IsCoherent (done_inj h).1 refl
  take_answer-Kept (inr (other text)) = coherence.of_raise _
  take_answer-Kept (inl []) = coherence.of_raise _
  take_answer-Kept (inl (d ∷ l)) = set_data-Kept d

  refresh_data-Kept : Kept (refresh_data s)
  unfolding refresh_data
  refresh_data-Kept = coherence.of_bind _ _ (coherence.of_look _) take_answer-Kept

  slept-Kept : Kept (slept s)
  slept-Kept w w' a h c = subst IsCoherent (done_inj h).1 c

  set_changed-Kept : Kept (set_changed s p rounds)
  set_changed-Kept w w' a h c = subst IsCoherent (done_inj h).1 c

  call-Kept : (f : s.World → s.World ⊎ String) → Kept (call s p rounds f)
  call-Kept f w w' a h c = elim (Sum-cases (f w.world)) [
    | inl (v, e) ↦ subst IsCoherent (done_inj (rw (e, call) at h)).1 c
    | inr (x, e) ↦ cc (rw (e, call) at h)
  ]

  call_delete-Kept : Kept (call_delete s p rounds)
  call_delete-Kept w w' a h c = elim (Sum-cases (s.delete_cache_cluster w.world)) [
    | inl ((d, v), e) ↦ subst IsCoherent (done_inj (rw (e, call_delete) at h)).1 c
    | inr (x, e) ↦ cc (rw (e, call_delete) at h)
  ]

  wait_loop-Kept : (n : ℕ) (awaited : String) → Kept (wait_loop s n awaited)
  unfolding wait_loop
  wait_loop-Kept zero awaited = λ w w' a h c. cc
  wait_loop-Kept (suc n) awaited =
      coherence.of_bind _ _
        (coherence.of_bind _ _ (coherence.of_bind _ _ slept-Kept (λ u. refresh_data-Kept))
          (λ u. coherence.of_look _))
        (λ status.
          of_if coherence (status == awaited) _ _ (coherence.of_return tt)
            (wait_loop-Kept n awaited))

  await_change-Kept : (awaited status : String) → Kept (await_change s rounds awaited status)
  unfolding await_change
  await_change-Kept awaited status =
      coherence.of_bind _ _ (of_given coherence (key_error status) (next_status status))
        (λ next. search (coherence.of_raise, of_if coherence, wait_loop-Kept rounds))

  wait_for_status-Kept : (awaited : String) → Kept (wait_for_status s rounds awaited)
  unfolding wait_for_status
  wait_for_status-Kept awaited = coherence.of_bind _ _ (coherence.of_look _) (λ status.
      of_if coherence (status == awaited) _ _ (coherence.of_return tt)
        (await_change-Kept awaited status))

  Parts-Kept : Parts s p rounds coherence
  Parts-Kept = record {
    of_wait = wait_for_status-Kept;
    of_set_changed = set_changed-Kept;
    of_call_create = search (coherence.of_bind, call-Kept, refresh_data-Kept);
    of_call_modify = λ ids. search (coherence.of_bind, call-Kept, refresh_data-Kept);
    of_call_reboot = λ ids. search (coherence.of_bind, call-Kept, refresh_data-Kept);
    of_call_delete = search (coherence.of_bind, call_delete-Kept, set_data-Kept);
  }

-- At the end of every run of the module that returns, the status that it reports is that of the
-- cluster that it reports, or `gone` where it reports no cluster.
pub main-IsCoherent :
    (s : Service) (rounds : ℕ) (state : State) (p : Params) (w : s.World) (m : Manager s.World)
    → main s rounds state p w ≡ done (tt, m)
    → IsCoherent m
unfolding main
main-IsCoherent s rounds state p w m h =
    let c = preserves {W = Manager s.World} IsCoherent in
    let checked = of_lift c (Parts-Kept s p rounds) (check_params state p) in
    c.of_bind _ _ (c.of_bind _ _ checked (λ u. refresh_data-Kept s p rounds))
      (λ u. of_run_state c (Parts-Kept s (init_params p) rounds) state) (init w) m tt h refl
