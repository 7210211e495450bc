-- ===== src/IamPolicy/Policy/Laws/Runs.antt =====
-- What a whole run of the module does, and a second one after it.
use community_aws.Base.{
  String, ◌≡◌, sym, ap, ◌∙◌, inl, inr, Bool, true, false, some, List, Bool-cases, contains,
  string_eq, nat_eq, bool_eq, option_eq, Result, ok, >>=-eq-ok, ok_pair, ok_inj,
}
use community_aws.IamPolicy.Client.{
  Iam, IsIam, list_policies, get_policy, put_policy, delete_policy,
}
use community_aws.IamPolicy.Policy.{
  State, present, absent, Policy, Report, list_names, put, delete, create, act, run,
}
use community_aws.IamPolicy.Policy.Laws.{
  matching-listed, matching-contains, is_put, Created, create-Created, create-put, delete-deleted,
}

doc_inj : {D : Type 0} {d e : D} → some d ≡ some e → d ≡ e
doc_inj h = cc

abbrev pub is_present : State → Bool
is_present present = true
is_present absent = false

-- what an operation does a second time to a state that it has left as it was
unmoved :
    {W : Type 0} (f : W → Result (Bool × W)) (w w' w'' : W) (b b' : Bool)
    → f w ≡ ok (b, w')
    → f w' ≡ ok (b', w'')
    → b ≡ false
    → w' ≡ w
    → b' ≡ false
unmoved f w w' w'' b b' h h' unchanged e = (ok_pair (sym h' ∙ ap f e ∙ h)).0 ∙ unchanged

module _ (c : Iam) (iam : IsIam c) where
  listed_after_put :
      (p : Policy c) (t : String) (w w' : c.World) (names : List String)
      → put_policy c p.kind p.name p.policy_name t w ≡ ok w'
      → list_names c p w' ≡ ok names
      → contains p.policy_name names ≡ true
  unfolding list_names
  listed_after_put p t w w' names written h =
      let (l, listed, same) = >>=-eq-ok (list_policies c p.kind p.name w') _ h in
      rw (← ok_inj same) (iam.list-put p.kind p.name p.policy_name t w w' l written listed)

  listed_after_delete :
      (p : Policy c) (w w' : c.World) (names : List String)
      → delete_policy c p.kind p.name p.policy_name w ≡ ok w'
      → list_names c p w' ≡ ok names
      → contains p.policy_name names ≡ false
  unfolding list_names
  listed_after_delete p w w' names deleted h =
      let (l, listed, same) = >>=-eq-ok (list_policies c p.kind p.name w') _ h in
      rw (← ok_inj same) (iam.list-delete p.kind p.name p.policy_name w w' l deleted listed)

  same_after_put :
      (p : Policy c) (doc d : c.Document) (w w' : c.World)
      → put_policy c p.kind p.name p.policy_name (c.dumps doc) w ≡ ok w'
      → get_policy c p.kind p.name p.policy_name w' ≡ ok d
      → c.compare_policies d doc ≡ false
  same_after_put p doc d w w' written got =
      let read = iam.get-put p.kind p.name p.policy_name doc d w w' written got in
      let e : d ≡ doc = doc_inj (sym read ∙ iam.loads-dumps doc) in rw e (iam.compare-same doc)

  -- a second `create` finds the document that the first has put
  again_put :
      (p : Policy c) (w w' w'' : c.World) (b b' : Bool) (first : Created c p w b w')
      (second : Created c p w' b' w'')
      → put_policy c p.kind p.name p.policy_name (c.dumps first.doc) w ≡ ok w'
      → b' ≡ false
  again_put p w w' w'' b b' first second written =
      let e : second.doc ≡ first.doc = ok_inj (sym second.read ∙ first.read) in
      let there =
        matching-contains c p second.doc w' p.policy_name second.names second.found
          second.policy_match (λ d got. rw e (same_after_put p first.doc d w w' written got))
          second.matched (listed_after_put p _ w w' second.names written second.listed) in
      sym (ok_pair (rw there at second.done)).0

  create-again :
      (p : Policy c) (w w' w'' : c.World) (b b' : Bool)
      → p.check_mode ≡ false
      → create c p w ≡ ok (b, w')
      → create c p w' ≡ ok (b', w'')
      → b' ≡ false
  create-again p w w' w'' b b' real h h' =
      let first = create-Created c p w w' b h in
      elim (create-put c p first.doc w w' b (is_put c p first.found first.policy_match) real
        first.done) [
          | inl (unchanged, e) ↦ unmoved (create c p) w w' w'' b b' h h' unchanged e
          | inr written ↦ again_put p w w' w'' b b' first (create-Created c p w' w'' b' h') written
        ]

  delete-again :
      (p : Policy c) (w w' w'' : c.World) (b b' : Bool)
      → p.check_mode ≡ false
      → delete c p w ≡ ok (b, w')
      → delete c p w' ≡ ok (b', w'')
      → b' ≡ false
  unfolding delete
  delete-again p w w' w'' b b' real h h' = elim (delete-deleted c p w w' b real h) [
    | inl (unchanged, e) ↦ unmoved (delete c p) w w' w'' b b' h h' unchanged e
    | inr deleted ↦
        let (names, listed, k) = >>=-eq-ok (list_names c p w') _ h' in
        sym (ok_pair (rw (listed_after_delete p w w' names deleted listed) at k)).0
  ]

  act-again :
      (s : State) (p : Policy c) (w w' w'' : c.World) (b b' : Bool)
      → p.check_mode ≡ false
      → act c s p w ≡ ok (b, w')
      → act c s p w' ≡ ok (b', w'')
      → b' ≡ false
  act-again present p = create-again p
  act-again absent p = delete-again p

  -- Outside check mode, when a run has ended without exception, a second run of the same parameters
  -- on the state that the first has left, if it ends without exception, reports no change; for the
  -- states `present` and `absent`.
  pub run_twice :
      (p : Policy c) (w w' w'' : c.World) (r r' : Report c)
      → p.check_mode ≡ false
      → run c p w ≡ ok (r, w')
      → run c p w' ≡ ok (r', w'')
      → r'.changed ≡ false
  unfolding run
  run_twice p w w' w'' r r' real h h' =
      let ((b, w1), acted, k) = >>=-eq-ok (act c p.state p w) _ h in
      let ((b', w2), acted', k') = >>=-eq-ok (act c p.state p w') _ h' in
      let (names, listed, ended) = >>=-eq-ok (list_names c p w1) _ k in
      let (names', listed', ended') = >>=-eq-ok (list_names c p w2) _ k' in
      let e : w1 ≡ w' = (ok_pair ended).1 in
      sym (ap (λ x. x.changed) (ok_pair ended').0)
      ∙ act-again p.state p w w' w2 b b' real (acted ∙ ap (λ x. ok (b, x)) e) acted'

  delete-gone :
      (p : Policy c) (w w' : c.World) (names : List String) (b : Bool)
      → p.check_mode ≡ false
      → delete c p w ≡ ok (b, w')
      → list_names c p w' ≡ ok names
      → contains p.policy_name names ≡ false
  unfolding delete
  delete-gone p w w' names b real h listed =
      let (names0, listed0, k) = >>=-eq-ok (list_names c p w) _ h in
      elim (Bool-cases (contains p.policy_name names0)) [
        | inr gone ↦
            let e : w ≡ w' = (ok_pair (rw gone at k)).1 in
            let same : names0 ≡ names = ok_inj (sym listed0 ∙ ap (list_names c p) e ∙ listed) in
            ap (contains p.policy_name) (sym same) ∙ gone
        | inl there ↦
            let (w1, deleted, ended) =
              >>=-eq-ok (delete_policy c p.kind p.name p.policy_name w) _ (rw (there, real) at k) in
            listed_after_delete p w w' names (deleted ∙ ap ok (ok_pair ended).1) listed
      ]

  create-there :
      (p : Policy c) (w w' : c.World) (names : List String) (b : Bool)
      → p.check_mode ≡ false
      → p.skip_duplicates ≡ false
      → create c p w ≡ ok (b, w')
      → list_names c p w' ≡ ok names
      → contains p.policy_name names ≡ true
  unfolding put
  create-there p w w' names b real strict h listed =
      let s = create-Created c p w w' b h in
      elim (Bool-cases (contains p.policy_name s.found)) [
        | inl there ↦
            let e : w ≡ w' = (ok_pair (rw there at s.done)).1 in
            let same : s.names ≡ names = ok_inj (sym s.listed ∙ ap (list_names c p) e ∙ listed) in
            ap (contains p.policy_name) (sym same)
            ∙ matching-listed c p s.doc w p.policy_name s.names s.found s.policy_match s.matched
                there
        | inr new ↦
            let (w1, written, ended) =
              >>=-eq-ok (put_policy c p.kind p.name p.policy_name (c.dumps s.doc) w) _
                (rw (new, strict, real) at s.done) in
            listed_after_put p (c.dumps s.doc) w w' names (written ∙ ap ok (ok_pair ended).1) listed
      ]

  act-listed :
      (s : State) (p : Policy c) (w w' : c.World) (names : List String) (b : Bool)
      → p.check_mode ≡ false
      → p.skip_duplicates ≡ false
      → act c s p w ≡ ok (b, w')
      → list_names c p w' ≡ ok names
      → contains p.policy_name names ≡ is_present s
  act-listed present p w w' names b real strict = create-there p w w' names b real strict
  act-listed absent p w w' names b real strict = delete-gone p w w' names b real

  -- Outside check mode and without `skip_duplicates`, the policies that a run reports, when it ends
  -- without exception, contain the policy's name exactly if the state asked for is `present`.
  pub run-listed :
      (p : Policy c) (w w' : c.World) (r : Report c)
      → p.check_mode ≡ false
      → p.skip_duplicates ≡ false
      → run c p w ≡ ok (r, w')
      → contains p.policy_name r.policies ≡ is_present p.state
  unfolding run
  run-listed p w w' r real strict h =
      let ((b, w1), acted, k) = >>=-eq-ok (act c p.state p w) _ h in
      let (names, listed, ended) = >>=-eq-ok (list_names c p w1) _ k in
      ap (λ x. contains p.policy_name x.policies) (sym (ok_pair ended).0)
      ∙ act-listed p.state p w w1 names b real strict acted listed

module _ (c : Iam) where
  act-checked :
      (s : State) (p : Policy c) (w w' : c.World) (b : Bool)
      → p.check_mode ≡ true
      → act c s p w ≡ ok (b, w')
      → w' ≡ w
  unfolding put delete
  act-checked present p w w' b checked h =
      let s = create-Created c p w w' b h in
      elim (Bool-cases (is_put c p s.found s.policy_match)) [
        | inl writes ↦ sym (ok_pair (rw (writes, checked) at s.done)).1
        | inr skips ↦ sym (ok_pair (rw skips at s.done)).1
      ]
  act-checked absent p w w' b checked h =
      let (names, listed, k) = >>=-eq-ok (list_names c p w) _ h in
      elim (Bool-cases (contains p.policy_name names)) [
        | inl there ↦ sym (ok_pair (rw (there, checked) at k)).1
        | inr gone ↦ sym (ok_pair (rw gone at k)).1
      ]

  -- A run in check mode leaves the state of the service as it was.
  run-check_mode :
      (p : Policy c) (w w' : c.World) (r : Report c)
      → p.check_mode ≡ true
      → run c p w ≡ ok (r, w')
      → w' ≡ w
  unfolding run
  run-check_mode p w w' r checked h =
      let ((b, w1), acted, k) = >>=-eq-ok (act c p.state p w) _ h in
      let (names, listed, ended) = >>=-eq-ok (list_names c p w1) _ k in
      sym (ok_pair ended).1 ∙ act-checked p.state p w w1 b checked acted
