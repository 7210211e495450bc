-- ===== src/Asg/Properties/Laws.antt =====
-- The facts and the counts of `get_properties`.
use community_aws.Base.{
  ℕ, ◌+◌, ◌≤◌, String, ◌≡◌, refl, ◌∙◌, ◌≢◌, inl, inr, some, List, [], ◌∷◌, map, arith,
  if◌then◌else◌, Bool-cases, length, All, ◌==◌, ==_refl, string_eq, nat_eq, bool_eq, option_eq,
}
use mathlib.Core.Path.{subst}
use text.Mathlib.TextEquality.{eq_iff}
use community_aws.Asg.Properties.{
  no_counts, Instance, Facts, Counts, Group, put_facts, get_facts, facts_of, count_instance, scan,
  get_properties, HasFacts,
}

get_facts-put_facts :
    (k j : String) (f : Facts) (d : List (String × Facts))
    → get_facts j (put_facts k f d) ≡ (if k == j then some f else get_facts j d)
unfolding get_facts put_facts
get_facts-put_facts k j f [] = refl
get_facts-put_facts k j f ((i, u) ∷ d) = ground (arith, get_facts-put_facts k j f d)

abbrev Known : String → List (String × Facts) → Type 0
Known k d = (f : Facts) × (get_facts k d ≡ some f)

put_facts-Known :
    (k j : String) (f : Facts) (d : List (String × Facts)) → Known j d → Known j (put_facts k f d)
put_facts-Known k j f d (g, e) = elim (Bool-cases (k == j)) [
  | inl same ↦ (f, get_facts-put_facts k j f d ∙ rw same)
  | inr other ↦ (g, get_facts-put_facts k j f d ∙ rw other e)
]

scan-keeps :
    (k : String) (l : List Instance) (s : List (String × Facts) × Counts)
    → Known k s.0
    → Known k (scan l s).0
unfolding scan
scan-keeps k [] s h = h
scan-keeps k (i ∷ l) (d, c) h =
    scan-keeps k l (put_facts i.instance_id (facts_of i) d, count_instance i c)
      (put_facts-Known i.instance_id k (facts_of i) d h)

scan-Known :
    (l : List Instance) (s : List (String × Facts) × Counts)
    → All (λ k. Known k (scan l s).0) (map (λ i. i.instance_id) l)
unfolding scan
scan-Known [] s = tt
scan-Known (i ∷ l) (d, c) = (
  scan-keeps i.instance_id l (put_facts i.instance_id (facts_of i) d, count_instance i c)
      (
        facts_of i,
        get_facts-put_facts i.instance_id i.instance_id (facts_of i) d ∙ rw (==_refl i.instance_id),
      ),
  scan-Known l (put_facts i.instance_id (facts_of i) d, count_instance i c),
)

-- Every instance that `get_properties` lists has an entry among its facts.
get_properties-HasFacts : (g : Group) → HasFacts (get_properties g)
unfolding get_properties
get_properties-HasFacts g = scan-Known g.instances ([], _)

in_service_pending : ◌≢◌ {A = String} "InService" "Pending"
in_service_pending = ground (arith, eq_iff "InService" "Pending")

in_service_terminating : ◌≢◌ {A = String} "InService" "Terminating"
in_service_terminating = ground (arith, eq_iff "InService" "Terminating")

pending_terminating : ◌≢◌ {A = String} "Pending" "Terminating"
pending_terminating = ground (arith, eq_iff "Pending" "Terminating")

record Consistent (n : ℕ) (c : Counts) : Type 0 where
  total : c.healthy_instances + c.unhealthy_instances ≡ n
  viable_healthy : c.viable_instances ≤ c.healthy_instances
  viable_in_service : c.viable_instances ≤ c.in_service_instances
  stages : c.in_service_instances + c.pending_instances + c.terminating_instances ≤ n

count_instance-Consistent :
    (i : Instance) (n : ℕ) (c : Counts) → Consistent n c → Consistent (n + 1) (count_instance i c)
unfolding count_instance
count_instance-Consistent i n c h = record {
  total = ground arith;
  viable_healthy = ground arith;
  viable_in_service = ground arith;
  stages = ground (arith, in_service_pending, in_service_terminating, pending_terminating);
}

scan-Consistent :
    (l : List Instance) (n : ℕ) (s : List (String × Facts) × Counts)
    → Consistent n s.1
    → Consistent (length l + n) (scan l s).1
unfolding scan
scan-Consistent [] n s h = omega arith
scan-Consistent (i ∷ l) n (d, c) h =
    let rest =
      scan-Consistent l (n + 1) (put_facts i.instance_id (facts_of i) d, count_instance i c)
        (count_instance-Consistent i n c h) in
    subst
      (λ k. Consistent k (scan l (put_facts i.instance_id (facts_of i) d, count_instance i c)).1)
      (omega arith) rest

-- The counts of `get_properties`: each instance is healthy or unhealthy and not both, the viable
-- ones are at most the healthy ones and at most those in service, and no instance is counted twice
-- among those in service, pending and terminating.
get_properties-counts :
    (g : Group)
    → let c = (get_properties g).counts in
      (c.healthy_instances + c.unhealthy_instances ≡ length g.instances)
      × (c.viable_instances ≤ c.healthy_instances)
      × (c.viable_instances ≤ c.in_service_instances)
      × (c.in_service_instances + c.pending_instances + c.terminating_instances
          ≤ length g.instances)
unfolding get_properties
get_properties-counts g =
    let start : Consistent 0 no_counts = omega arith in
    let c = scan-Consistent g.instances 0 ([], no_counts) start in
    (c.total ∙ omega arith, c.viable_healthy, c.viable_in_service, omega (arith, c.stages))
