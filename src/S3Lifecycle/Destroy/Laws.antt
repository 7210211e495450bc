-- ===== src/S3Lifecycle/Destroy/Laws.antt =====
-- Removing rules: what is kept, and that a second run finds nothing to do.
use community_aws.Base.{
  String, ◌≡◌, refl, sym, ◌≢◌, ◌⊎◌, inl, inr, Bool, true, false, not, Option, none, some, List, [],
  ◌∷◌, arith, if◌then◌else◌, Sum-cases, Option-cases, filter, any, All, ◌==◌, string_eq, nat_eq,
  bool_eq, option_eq, Result, ok, >>=-eq-ok, Result-cases, ok_pair,
}
use mathlib.Core.Path.{subst}
use community_aws.S3Lifecycle.Rule.{Rule}
use community_aws.S3Lifecycle.Client.{Client, rules, IsS3, current_rules}
use community_aws.S3Lifecycle.Build.{Params, prefix_param}
use community_aws.S3Lifecycle.Destroy.{is_target, remaining, write_rules, destroy_lifecycle_rule}

abbrev pub has_id : String → Rule → Bool
has_id i r = elim r.id [ none ↦ false | some j ↦ i == j ]

-- The rules that are kept and the flag, for rules that have their ID: all but those with it.
remaining-id :
    (i p : String) (l : List Rule)
    → All (λ r. r.id ≢ none) l
    → remaining (some i) p l ≡ ok (filter (λ r. not (has_id i r)) l, any (has_id i) l)
unfolding remaining is_target
remaining-id i p [] h = refl
remaining-id i p (r ∷ l) (h, hs) = elim (Option-cases r.id) [
  | inl missing ↦ absurd (h missing)
  | inr (j, e) ↦ ground (arith, e, remaining-id i p l hs)
]

remaining_step :
    (k : Option String) (p : String) (r : Rule) (l rest kept : List Rule) (target b changed : Bool)
    → is_target k p r ≡ ok target
    → (remaining k p rest ≡ ok (rest, false)) × ((b ≡ true) ⊎ (rest ≡ l))
    → ◌≡◌ {A = Result (List Rule × Bool)}
        (ok (if target then (rest, true) else (r ∷ rest, b)))
        (ok (kept, changed))
    → (remaining k p kept ≡ ok (kept, false)) × ((changed ≡ true) ⊎ (kept ≡ r ∷ l))
unfolding remaining
remaining_step k p r l rest kept true b changed tested (again, same) h = ground (arith, again)
remaining_step k p r l rest kept false b changed tested (again, same) h = (
  subst (λ t. remaining k p t ≡ ok (t, false)) (ok_pair h).0 (rw (tested, again)),
  ground (arith, same),
)

-- A second pass over what a pass kept keeps all of it and reports no change, and a pass that reports
-- no change kept the list as it was.
remaining_again :
    (k : Option String) (p : String) (l kept : List Rule) (changed : Bool)
    → remaining k p l ≡ ok (kept, changed)
    → (remaining k p kept ≡ ok (kept, false)) × ((changed ≡ true) ⊎ (kept ≡ l))
unfolding remaining
remaining_again k p [] kept changed h = ground arith
remaining_again k p (r ∷ l) kept changed h = elim (Result-cases (is_target k p r)) [
  | inr (e, raised) ↦ cc (rw raised at h)
  | inl (target, tested) ↦ elim (Result-cases (remaining k p l)) [
    | inr (e, raised) ↦ cc (rw (tested, raised) at h)
    | inl ((rest, b), passed) ↦
        remaining_step k p r l rest kept target b changed tested
          (remaining_again k p l rest b passed) (rw (tested, passed) at h)
  ]
]

remaining-All :
    (P : Rule → Type 0) (k : Option String) (p : String) (l kept : List Rule) (changed : Bool)
    → All P l
    → remaining k p l ≡ ok (kept, changed)
    → All P kept
unfolding remaining
remaining-All P k p [] kept changed a h = subst (All P) (ok_pair h).0 tt
remaining-All P k p (r ∷ l) kept changed (a, as') h = elim (Result-cases (is_target k p r)) [
  | inr (e, raised) ↦ cc (rw raised at h)
  | inl (target, tested) ↦ elim (Result-cases (remaining k p l)) [
    | inr (e, raised) ↦ cc (rw (tested, raised) at h)
    | inl ((rest, b), passed) ↦
        All_step target rest b (rw (tested, passed) at h) (remaining-All P k p l rest b as' passed)
  ]
]
  where
    All_step :
        (t : Bool) (rest : List Rule) (b : Bool)
        → ◌≡◌ {A = Result (List Rule × Bool)}
            (ok (if t then (rest, true) else (r ∷ rest, b)))
            (ok (kept, changed))
        → All P rest
        → All P kept
    All_step true rest b e q = subst (All P) (ok_pair e).0 q
    All_step false rest b e q = subst (All P) (ok_pair e).0 (a, q)

module _ (c : Client) (s3 : IsS3 c) where
  -- what a successful write leaves to be read
  write_rules-read :
      (kept l : List Rule) (changed b : Bool) (w w' : c.World)
      → c.get_bucket_lifecycle_configuration w ≡ rules l
      → All (λ r. r.id ≢ none) kept
      → write_rules c kept l changed w ≡ ok (b, w')
      → current_rules (c.get_bucket_lifecycle_configuration w') ≡ ok kept
  unfolding write_rules
  write_rules-read (k ∷ kept) l changed b w w' got ids h =
      elim (Sum-cases (c.put_bucket_lifecycle_configuration (k ∷ kept) w)) [
        | inl (w1, put) ↦
            subst (λ v. current_rules (c.get_bucket_lifecycle_configuration v) ≡ ok (k ∷ kept))
              (ok_pair (rw put at h)).1 (rw (s3.get-put (k ∷ kept) w w1 ids put))
        | inr (m, put) ↦ cc (rw put at h)
      ]
  write_rules-read [] (r ∷ l) changed b w w' got ids h =
      elim (Sum-cases (c.delete_bucket_lifecycle w)) [
        | inl (w1, del) ↦
            subst (λ v. current_rules (c.get_bucket_lifecycle_configuration v) ≡ ok [])
              (ok_pair (rw del at h)).1 (rw (s3.get-delete w w1 del))
        | inr (m, del) ↦ cc (rw del at h)
      ]
  write_rules-read [] [] changed b w w' got ids h =
      subst (λ v. current_rules (c.get_bucket_lifecycle_configuration v) ≡ ok []) (ok_pair h).1
        (rw got)

  write_rules-same :
      (kept : List Rule) (b : Bool) (w w' : c.World)
      → write_rules c kept kept false w ≡ ok (b, w')
      → b ≡ false
  unfolding write_rules
  write_rules-same (k ∷ kept) b w w' h =
      elim (Sum-cases (c.put_bucket_lifecycle_configuration (k ∷ kept) w)) [
        | inl (w1, put) ↦ sym (ok_pair (rw put at h)).0
        | inr (m, put) ↦ cc (rw put at h)
      ]
  write_rules-same [] b w w' h = sym (ok_pair h).0

-- At the level of the calls: once a run has succeeded on rules that all have their ID, another run
-- with the same parameters that succeeds reports no change.
pub destroy_twice :
    (c : Client) (s3 : IsS3 c) (p : Params) (l : List Rule) (w w' w'' : c.World) (b b' : Bool)
    → c.get_bucket_lifecycle_configuration w ≡ rules l
    → All (λ r. r.id ≢ none) l
    → destroy_lifecycle_rule c p w ≡ ok (b, w')
    → destroy_lifecycle_rule c p w' ≡ ok (b', w'')
    → b' ≡ false
unfolding destroy_lifecycle_rule
destroy_twice c s3 p l w w' w'' b b' got ids first second =
    let ((kept, changed), rem, wrote) =
      >>=-eq-ok (remaining p.rule_id (prefix_param p) l) _ (rw got at first) in
    let read =
      write_rules-read c s3 kept l changed b w w' got
        (remaining-All (λ r. r.id ≢ none) p.rule_id (prefix_param p) l kept changed ids rem)
        wrote in
    write_rules-same c s3 kept b' w' w''
      (rw (read, (remaining_again p.rule_id (prefix_param p) l kept changed rem).0) at second)
