-- ===== src/Asg/Batch/Laws.antt =====
-- What a batch terminates, by how many new instances are still needed.
use community_aws.Base.{
  ℕ, suc, ◌≤◌, String, ◌≡◌, refl, ap, inl, inr, Bool, true, false, not, none, List, [], ◌∷◌, map,
  arith, if◌then◌else◌, Bool-cases, Option-cases, length, take, filter, length-take, string_eq,
  nat_eq, bool_eq, option_eq, Result, ok, Result-cases, ok_pair,
}
use community_aws.Base.Int.{ℤ, pos, ltb_ℤ, ◌≤ℤ◌}
use native.Mathlib.Nat.{le_trans}
use community_aws.Asg.Properties.{Group, Props, get_properties}
use community_aws.Asg.Chunks.{slice_to}
use community_aws.Asg.Select.{collect, ParamKeys, list_purgeable_instances}
use community_aws.Asg.Batch.{
  Params, Call, terminate_asg_instance, Batch, int_or, split_instances, num_new_inst_needed,
  at_capacity, choose, plan_batch, terminations, batch_calls, terminate_batch,
}

length-filter-le : (p : String → Bool) (l : List String) → length (filter p l) ≤ length l
length-filter-le p [] = omega arith
length-filter-le p (x ∷ l) = ground (arith, length-filter-le p l)

length-collect-le :
    (t : String → Result Bool) (l out : List String) → collect t l ≡ ok out → length out ≤ length l
unfolding collect
length-collect-le t [] out h = ground arith
length-collect-le t (i ∷ l) out h = elim (Result-cases (t i)) [
  | inr (e, raised) ↦ cc (rw raised at h)
  | inl (b, tested) ↦ elim (Result-cases (collect t l)) [
    | inr (e, raised) ↦ cc (rw (tested, raised) at h)
    | inl (rest, done) ↦
        let k = rw (tested, done) at h in ground (arith, k, length-collect-le t l rest done)
  ]
]

length-purgeable-le :
    (keys : ParamKeys) (props : Props) (lc lt : Bool) (replace initial out : List String)
    → list_purgeable_instances keys props lc lt replace initial ≡ ok out
    → length out ≤ length replace
unfolding list_purgeable_instances
length-purgeable-le keys props lc lt replace initial out h =
    elim (Bool-cases keys.launch_config_name) [
      | inl key ↦ le_trans (length-collect-le _ _ out (rw key at h)) (length-filter-le _ replace)
      | inr no_key ↦ elim (Bool-cases keys.launch_template) [
        | inl key ↦
            le_trans (length-collect-le _ _ out (rw (no_key, key) at h))
              (length-filter-le _ replace)
        | inr none_at_all ↦ let e = rw (no_key, none_at_all) at h in ground (arith, e)
      ]
    ]

-- the instances of the calls that terminate, with the flag of each
abbrev pub terminated : List Call → List (String × Bool)
terminated [] = []
terminated (terminate_asg_instance i d ∷ l) = (i, d) ∷ terminated l
terminated (_ ∷ l) = terminated l

terminated-terminations :
    (d : Bool) (l : List String) → terminated (terminations d l) ≡ map (λ i. (i, d)) l
unfolding terminations
terminated-terminations d [] = refl
terminated-terminations d (i ∷ l) = ap (λ t. (i, d) ∷ t) (terminated-terminations d l)

-- what a batch that succeeds went through
terminate_batch-ok :
    (p : Params) (g : Group) (replace initial : List String) (leftovers : Bool)
    (new old : List String) (calls : List Call) (b : Batch)
    → split_instances p (get_properties g) initial ≡ ok (new, old)
    → terminate_batch p g replace initial leftovers ≡ ok (calls, b)
    → (purgeable : List String) × (length purgeable ≤ length replace)
      × (choose p g leftovers (num_new_inst_needed p g new) old purgeable ≡ b)
      × (batch_calls g b ≡ calls)
unfolding terminate_batch plan_batch
terminate_batch-ok p g replace initial leftovers new old calls b split h =
    elim (Result-cases
      (list_purgeable_instances p.keys (get_properties g) p.lc_check p.lt_check replace initial)) [
        | inr (e, raised) ↦ cc (rw (split, raised) at h)
        | inl (purgeable, listed) ↦
            let (made, decided) = ok_pair (rw (split, listed) at h) in
            (
              purgeable,
              length-purgeable-le p.keys (get_properties g) p.lc_check p.lt_check replace initial
                  purgeable listed,
              decided,
              rw (← decided) made,
            )
      ]

length-terminations :
    (d : Bool) (l : List String) → length (terminated (terminations d l)) ≡ length l
unfolding terminations
length-terminations d [] = refl
length-terminations d (x ∷ l) = ap suc (length-terminations d l)

terminated-batch_calls :
    (g : Group) (b : Batch)
    → terminated (batch_calls g b) ≡ map (λ i. (i, b.decrement_capacity)) b.instances_to_terminate
unfolding batch_calls
terminated-batch_calls g b = elim (Option-cases b.new_min_size) [
  | inl same ↦ rw same (terminated-terminations b.decrement_capacity b.instances_to_terminate)
  | inr (n, new) ↦ rw new (terminated-terminations b.decrement_capacity b.instances_to_terminate)
]

length-cut-le :
    (k n : ℕ) (batch_size : ℤ) (l : List String)
    → length l ≤ n
    → pos n ≤ℤ batch_size
    → length (if ltb_ℤ (pos (suc k)) batch_size then take (suc k) l else l) ≤ suc k
length-cut-le k n batch_size l short cut = elim (Bool-cases (ltb_ℤ (pos (suc k)) batch_size)) [
  | inl fewer ↦ rw fewer (omega (arith, length-take {0} (suc k) l))
  | inr enough ↦ rw enough (ground arith)
]

-- While new instances are still needed, a batch that was cut to the batch size terminates at most
-- as many instances as are needed, keeps the capacity, changes no size, and does not end the loop.
pub terminate_batch_bounded :
    (p : Params) (g : Group) (replace initial : List String) (leftovers : Bool)
    (new old : List String) (k : ℕ) (calls : List Call) (b : Batch)
    → split_instances p (get_properties g) initial ≡ ok (new, old)
    → num_new_inst_needed p g new ≡ pos (suc k)
    → pos (length replace) ≤ℤ p.replace_batch_size
    → terminate_batch p g replace initial leftovers ≡ ok (calls, b)
    → (length (terminated calls) ≤ suc k)
      × (b.break_loop ≡ false)
      × (terminated calls ≡ map (λ i. (i, false)) b.instances_to_terminate)
      × (b.new_min_size ≡ none)
unfolding batch_calls choose slice_to
terminate_batch_bounded p g replace initial leftovers new old k calls b split needed cut h =
    let (purgeable, short, decided, made) =
      terminate_batch-ok p g replace initial leftovers new old calls b split h in
    rw (← made, ← decided, needed)
      (
        rw length-terminations
            (length-cut-le k (length replace) p.replace_batch_size purgeable short cut),
        refl,
        terminated-terminations false _,
        refl,
      )

-- With no new instance needed, a batch terminates every old instance, lowers the capacity with each
-- unless these are leftovers, and ends the loop; its size is the minimum size asked for.
terminate_batch_last :
    (p : Params) (g : Group) (replace initial : List String) (leftovers : Bool)
    (new old : List String) (calls : List Call) (b : Batch)
    → split_instances p (get_properties g) initial ≡ ok (new, old)
    → num_new_inst_needed p g new ≡ pos 0
    → terminate_batch p g replace initial leftovers ≡ ok (calls, b)
    → (terminated calls ≡ map (λ i. (i, not leftovers)) old)
      × (b.break_loop ≡ true)
      × (b.desired_size ≡ int_or p.min_size g.min_size)
unfolding batch_calls choose
terminate_batch_last p g replace initial leftovers new old calls b split needed h =
    let (purgeable, short, decided, made) =
      terminate_batch-ok p g replace initial leftovers new old calls b split h in
    rw (← made, ← decided, needed)
      (terminated-batch_calls g (at_capacity p g leftovers old), refl, refl)
