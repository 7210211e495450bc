-- ===== src/Elasticache/Ends.antt =====
-- Termination: where the cluster settles, each wait ends, and so does a run of the module.
use community_aws.Base.{
  some_inj, ℕ, zero, suc, ◌<◌, String, ◌≡◌, refl, sym, ap, ◌∙◌, ◌≢◌, ◌⊎◌, inl, inr, false, Option,
  none, some, List, [], ◌∷◌, arith, Bool-cases, Sum-cases, Option-cases, ◌==◌, ==_iff, string_eq,
  nat_eq, bool_eq, option_eq, Error, index_error, fail_json, Result-cases,
}
use community_aws.Base.Run.{done, raised, endless, ◌>>=◌, ◌>>◌, done_inj}
use community_aws.Base.Rules.{Closed, EndsIn, ends_in}
use community_aws.Elasticache.Client.{
  Cluster, Params, ClientError, cache_cluster_not_found, other, Service, Manager,
}
use community_aws.Elasticache.Compare.{State, check_params}
use community_aws.Elasticache.Status.{
  next_status, status_of, set_data, take_answer, refresh_data, wait_loop, await_change,
  wait_for_status,
}
use community_aws.Elasticache.Actions.{call, call_delete, set_changed}
use community_aws.Elasticache.Main.{init_params, init, main}
use mathlib.Core.Path.{subst}
use community_aws.Elasticache.Limits.{next_status-known}
use community_aws.Elasticache.Closed.{Parts, of_run_state}

-- the status that the service describes, none where the call fails
abbrev pub status_in : List Cluster ⊎ ClientError → Option String
status_in (inr cache_cluster_not_found) = some "gone"
status_in (inr (other text)) = none
status_in (inl []) = none
status_in (inl (d ∷ l)) = some (status_of d)

module _ (s : Service) where
  abbrev pub described : s.World → Option String
  described w = status_in (s.describe_cache_clusters w)

  -- the state after some seconds
  abbrev pub after : ℕ → s.World → s.World
  after zero w = w
  after (suc i) w = after i (s.sleep 1 w)

  -- A status on the way to another one is followed by that one in less than `n` seconds and one; the
  -- response to a deletion has the status that is described from then on.
  pub record IsSettling (n : ℕ) : Type 0 where
    pub settles :
        (w : s.World) (status awaited : String)
        → described w ≡ some status
        → next_status status ≡ some awaited
        → (i : ℕ) × (i < n) × (described (after (suc i) w) ≡ some awaited)
    pub deletes :
        (w w' : s.World) (d : Cluster)
        → s.delete_cache_cluster w ≡ inl (d, w')
        → described w' ≡ some (status_of d)

  -- the manager knows the status that is described
  abbrev IsSynced : Manager s.World → Type 0
  IsSynced m = described m.world ≡ some m.status

  take_answer-cases :
      (r : List Cluster ⊎ ClientError) (m : Manager s.World)
      → ((m' : Manager s.World) × ((take_answer s r m ≡ done (tt, m'))
            × ((m'.world ≡ m.world) × (status_in r ≡ some m'.status))))
        ⊎ ((e : Error) × (take_answer s r m ≡ raised e))
  take_answer-cases (inr cache_cluster_not_found) m =
      inl (record m { data_ = none; status = "gone" }, (refl, (refl, refl)))
  take_answer-cases (inr (other text)) m = inr (fail_json text, refl)
  take_answer-cases (inl []) m = inr (index_error, refl)
  take_answer-cases (inl (d ∷ l)) m =
      inl (record m { data_ = some d; status = status_of d }, (refl, (refl, refl)))

  refresh_data-cases :
      (m : Manager s.World)
      → ((m' : Manager s.World) × ((refresh_data s m ≡ done (tt, m'))
            × ((m'.world ≡ m.world) × IsSynced m')))
        ⊎ ((e : Error) × (refresh_data s m ≡ raised e))
  unfolding refresh_data
  refresh_data-cases m = elim (take_answer-cases (s.describe_cache_clusters m.world) m) [
    | inr (e, h) ↦ inr (e, h)
    | inl (m', (h, (same, seen))) ↦ inl (m', (h, (same, ap described same ∙ seen)))
  ]

  -- after a refresh the manager knows the status, wherever it started
  refresh_data-IsSynced :
      (m : Manager s.World)
      → (refresh_data s m ≢ endless)
        × ((m' : Manager s.World) (a : Unit {0}) → refresh_data s m ≡ done (a, m') → IsSynced m')
  refresh_data-IsSynced m = elim (refresh_data-cases m) [
    | inr (e, h) ↦ ((λ k. cc), λ m' a k. cc)
    | inl (m'', (h, (same, seen))) ↦
        ((λ k. cc), λ m' a k. subst IsSynced (done_inj (sym h ∙ k)).1 seen)
  ]

  wait_loop-EndsIn :
      (rounds i : ℕ) (awaited : String) (m : Manager s.World)
      → i < rounds
      → described (after (suc i) m.world) ≡ some awaited
      → (wait_loop s rounds awaited m ≢ endless)
        × ((m' : Manager s.World) (a : Unit {0})
            → wait_loop s rounds awaited m ≡ done (a, m')
            → IsSynced m')
  unfolding wait_loop
  wait_loop-EndsIn zero i awaited m less h = ((λ k. omega (arith, less)), λ m' a k. cc)
  wait_loop-EndsIn (suc rounds) i awaited m less h =
      let v = record m { world = s.sleep 1 m.world } in
      elim (refresh_data-cases v) [
        | inr (e, r) ↦ rw (r, ◌>>=◌) ((λ k. cc), λ m' a k. cc)
        | inl (m1, (r, (same, seen))) ↦ elim (Bool-cases (m1.status == awaited)) [
          | inl yes_ ↦ rw (r, ◌>>=◌, yes_) ((λ k. cc), λ m' a k. subst IsSynced (done_inj k).1 seen)
          | inr no_ ↦
              let (j, less', there) =
                later i m1 no_ seen less
                  (subst (λ x. described (after i x) ≡ some awaited) (sym same) h) in
              rw (r, ◌>>=◌, no_) (wait_loop-EndsIn rounds j awaited m1 less' there)
        ]
      ]
    where
      later :
          (i : ℕ) (m1 : Manager s.World)
          → (m1.status == awaited) ≡ false
          → IsSynced m1
          → i < suc rounds
          → described (after i m1.world) ≡ some awaited
          → (j : ℕ) × (j < rounds) × (described (after (suc j) m1.world) ≡ some awaited)
      later zero m1 no_ seen less there =
          let e : m1.status ≡ awaited = some_inj (sym seen ∙ there) in
          cc (sym no_ ∙ (==_iff m1.status awaited).1 e)
      later (suc j) m1 no_ seen less there = (j, omega (arith, less), there)

module _ (s : Service) (p : Params) (rounds : ℕ) (settling : IsSettling s rounds) where
  abbrev ending : Closed (Manager s.World)
  ending = ends_in (IsSynced s)

  wait_for_status-EndsIn :
      (awaited : String) → EndsIn (IsSynced s) (wait_for_status s rounds awaited)
  unfolding wait_for_status await_change
  wait_for_status-EndsIn awaited m i = elim (Bool-cases (m.status == awaited)) [
    | inl yes_ ↦ rw yes_ (ending.of_return tt m i)
    | inr no_ ↦ elim (Option-cases (next_status m.status)) [
      | inl unknown ↦ rw (no_, unknown) ((λ k. cc), λ m' a k. cc)
      | inr (next, e) ↦ elim (Bool-cases (next == awaited)) [
        | inr other_ ↦ rw (no_, e, ◌>>=◌, other_) ((λ k. cc), λ m' a k. cc)
        | inl same ↦
            let to : next_status m.status ≡ some awaited =
              e ∙ ap (λ x. some x) ((==_iff next awaited).0 same) in
            let (j, less, there) = settling.settles m.world m.status awaited i to in
            rw (no_, e, ◌>>=◌, same, next_status-known m.status awaited to)
              (wait_loop-EndsIn s rounds j awaited m less there)
      ]
    ]
  ]

  call_refresh-EndsIn :
      (f : s.World → s.World ⊎ String) → EndsIn (IsSynced s) (call s p rounds f >> refresh_data s)
  call_refresh-EndsIn f m i = elim (Sum-cases (f m.world)) [
    | inl (w, e) ↦ rw (e, ◌>>=◌) (refresh_data-IsSynced s (record m { world = w }))
    | inr (x, e) ↦ rw (e, ◌>>=◌) ((λ k. cc), λ m' a k. cc)
  ]

  call_delete-EndsIn : EndsIn (IsSynced s) (call_delete s p rounds >>= set_data s)
  call_delete-EndsIn m i = elim (Sum-cases (s.delete_cache_cluster m.world)) [
    | inl ((d, w), e) ↦
        rw (e, ◌>>=◌)
          ((λ k. cc), λ m' a k. subst (IsSynced s) (done_inj k).1 (settling.deletes m.world w d e))
    | inr (x, e) ↦ rw (e, ◌>>=◌) ((λ k. cc), λ m' a k. cc)
  ]

  set_changed-EndsIn : EndsIn (IsSynced s) (set_changed s p rounds)
  set_changed-EndsIn m i = ((λ k. cc), λ m' a k. subst (IsSynced s) (done_inj k).1 i)

  Parts-EndsIn : Parts s p rounds ending
  Parts-EndsIn = record {
    of_wait = wait_for_status-EndsIn;
    of_set_changed = set_changed-EndsIn;
    of_call_create = call_refresh-EndsIn (s.create_cache_cluster p);
    of_call_modify = λ ids. call_refresh-EndsIn (s.modify_cache_cluster ids p);
    of_call_reboot = λ ids. call_refresh-EndsIn (s.reboot_cache_cluster ids);
    of_call_delete = call_delete-EndsIn;
  }

-- Where the cluster settles in fewer seconds than there are rounds, a run of the module ends, with the
-- facts that it reports or with an exception, for every state asked for.
pub main-ends_settling :
    (s : Service) (rounds : ℕ) (state : State) (p : Params) (w : s.World)
    → IsSettling s rounds
    → main s rounds state p w ≢ endless
unfolding main
main-ends_settling s rounds state p w settling h = elim (Result-cases (check_params state p)) [
  | inr (e, refused) ↦ cc (rw (refused, ◌>>=◌) at h)
  | inl (u, fine) ↦ elim (refresh_data-cases s (init w)) [
    | inr (e, r) ↦ cc (rw (fine, ◌>>=◌, r) at h)
    | inl (m, (r, (same, seen))) ↦
        let ran =
          of_run_state (ends_in (IsSynced s)) (Parts-EndsIn s (init_params p) rounds settling)
            state in
        (ran m seen).0 (rw (fine, ◌>>=◌, r) at h)
  ]
]
