-- ===== src/Elasticache/Limits.antt =====
-- The nodes that a change removes, and the wait, which has no limit.
use community_aws.Base.{
  some_inj, ℕ, zero, suc, ◌-◌, ◌≤◌, String, ◌≡◌, refl, sym, ap, ◌∙◌, inl, inr, true, false, some,
  List, [], ◌∷◌, map, arith, eqb, Bool-cases, length, drop, contains, ◌==◌, ==_refl, string_eq,
  nat_eq, bool_eq, option_eq, ok, ok_inj,
}
use community_aws.Base.Run.{endless, ◌>>=◌}
use community_aws.Base.Int.{pos}
use community_aws.Elasticache.Client.{Node, Cluster, Params, Service, Manager}
use community_aws.Elasticache.Compare.{get_nodes_to_remove, num_nodes_to_remove, node_ids}
use community_aws.Elasticache.Status.{
  next_status, status_of, refresh_data, wait_loop, await_change, wait_for_status, busy_statuses,
}
use mathlib.Core.Path.{subst}

length-map : {A B : Type 0} (f : A → B) (l : List A) → length (map f l) ≡ length l
length-map f [] = refl
length-map f (x ∷ l) = ap suc (length-map f l)

drop-all : {A : Type 0} (n : ℕ) (l : List A) → length l ≤ n → drop n l ≡ []
drop-all zero [] h = refl
drop-all (suc n) [] h = refl
drop-all zero (x ∷ l) h = ground (arith, h)
drop-all (suc n) (x ∷ l) h = drop-all n l (omega (arith, h))

-- Where the service counts the nodes that it lists, and the wanted number is not negative, the nodes
-- that are removed are those after the first ones of the wanted number: none, where no more are there.
pub get_nodes_to_remove-drop :
    (p : Params) (d : Cluster) (n : ℕ) (ids : List String)
    → p.num_nodes ≡ pos n
    → d.num_cache_nodes ≡ length d.cache_nodes
    → get_nodes_to_remove p d ≡ ok ids
    → ids ≡ drop n (node_ids d)
unfolding get_nodes_to_remove
get_nodes_to_remove-drop p d n ids wanted counted h =
    let len : length (node_ids d) ≡ d.num_cache_nodes =
      length-map (λ (x : Node). x.cache_node_id) d.cache_nodes ∙ sym counted in
    let many : num_nodes_to_remove p d ≡ d.num_cache_nodes - n = rw wanted (ground arith) in
    elim (Bool-cases (eqb (num_nodes_to_remove p d) 0)) [
      | inl none_ ↦
          sym (ok_inj (rw none_ at h))
          ∙ sym (drop-all n (node_ids d) (ground (arith, len, many, none_)))
      | inr some_ ↦ elim (Bool-cases p.hard_modify) [
        | inr no_ ↦ cc (rw (some_, no_) at h)
        | inl yes_ ↦
            sym (ok_inj (rw (some_, yes_) at h))
            ∙ ap (λ i. drop i (node_ids d)) (ground (arith, len, many, some_))
      ]
    ]

-- what `status_map` leads to
pub next_status-known :
    (status awaited : String)
    → next_status status ≡ some awaited
    → contains awaited ("available" ∷ "gone" ∷ []) ≡ true
next_status-known status awaited h = elim (Bool-cases (contains status busy_statuses)) [
  | inl busy ↦
      subst (λ x. contains x ("available" ∷ "gone" ∷ []) ≡ true) (some_inj (rw busy at h))
        (ground (arith, ==_refl {A = String} "available"))
  | inr other_ ↦ elim (Bool-cases (status == "deleting")) [
    | inl leaving ↦
        subst (λ x. contains x ("available" ∷ "gone" ∷ []) ≡ true)
          (some_inj (rw (other_, leaving) at h)) (ground (arith, ==_refl {A = String} "gone"))
    | inr no_ ↦ cc (rw (other_, no_) at h)
  ]
]

module _ (s : Service) (d : Cluster) (l : List Cluster) (awaited : String) where
  -- Where the service describes the cluster with a status other than the one that is waited for, and
  -- goes on to do so, a wait that has begun does not end, in however many rounds.
  pub wait_for_status-endless :
      (rounds : ℕ) (m : Manager s.World)
      → ((w : s.World) → s.describe_cache_clusters w ≡ inl (d ∷ l))
      → (status_of d == awaited) ≡ false
      → (m.status == awaited) ≡ false
      → next_status m.status ≡ some awaited
      → wait_for_status s rounds awaited m ≡ endless
  unfolding wait_for_status await_change wait_loop refresh_data
  wait_for_status-endless rounds m stays other_ from next =
      rw (from, next, ==_refl awaited, next_status-known m.status awaited next, ◌>>=◌) (go rounds m)
    where
      go : (n : ℕ) (v : Manager s.World) → wait_loop s n awaited v ≡ endless
      go zero v = refl
      go (suc n) v = rw (stays (s.sleep 1 v.world), ◌>>=◌, other_) (go n _)
