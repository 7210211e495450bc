-- ===== src/IamPolicy/Policy/Laws.antt =====
-- How `create` and `delete` decide, branch by branch.
pub mod Runs
use community_aws.Base.{
  ℕ, zero, suc, ◌+◌, ◌-◌, ◌*◌, ◌≤◌, ◌<◌, String, ◌≡◌, refl, sym, ap, ◌∙◌, ◌≢◌, ◌↔◌, ◌⊎◌, inl, inr,
  Bool, true, false, ◌&&◌, ◌||◌, not, Option, none, some, List, [], ◌∷◌, ◌++◌, map, arith,
  ℕ_discrete, ltb, leb, eqb, if◌then◌else◌, Bool-cases, Sum-cases, Option-cases, eqb_iff, length,
  take, drop, filter, any, all, All, filter-filter, filter-append, contains, contains-append,
  contains-filter, length-append, length-take, length-drop, take-append-drop, Eq, ◌==◌, ==_iff,
  ==_refl, ==_false, String-discrete, string_eq, nat_eq, bool_eq, option_eq, Option-discrete, upper,
  Error, key_error, value_error, type_error, index_error, unbound_local_error, fail_json,
  client_error, Result, ok, err, ◌>>=◌, ◌>>◌, or_raise, raise_if, >>=-eq-ok, for_each, Result-cases,
  ok_pair, ok_inj, some_ok_pair,
}
use community_aws.IamPolicy.Client.{
  Iam, IsIam, Kind, list_policies, get_policy, put_policy, delete_policy, names_of,
}
use community_aws.IamPolicy.Policy.{
  State, present, absent, Policy, Report, list_names, get_policy_text, put, delete, matching,
  create, act, run,
}

module _ (c : Iam) where
  found_step :
      (pol q : String) (others found : List String) (differs b m : Bool)
      → ◌≡◌ {A = Result (List String × Bool)}
          (ok (if not differs then (pol ∷ others, true) else (others, b)))
          (ok (found, m))
      → contains q others ≡ true
      → contains q found ≡ true
  found_step pol q others found true b m h there = rw (← (ok_pair h).0) there
  found_step pol q others found false b m h there = rw (← (ok_pair h).0) (ground (arith, there))

  -- a listed policy whose document matches is found
  pub matching-contains :
      (p : Policy c) (doc : c.Document) (w : c.World) (q : String) (names found : List String)
      (m : Bool)
      → ((d : c.Document)
          → get_policy c p.kind p.name q w ≡ ok d
          → c.compare_policies d doc ≡ false)
      → matching c p doc w names ≡ ok (found, m)
      → contains q names ≡ true
      → contains q found ≡ true
  unfolding matching
  matching-contains p doc w q [] found m same h listed = cc
  matching-contains p doc w q (pol ∷ names) found m same h listed =
      elim (Result-cases (get_policy c p.kind p.name pol w)) [
        | inr (e, raised) ↦ cc (rw raised at h)
        | inl (d, got) ↦ elim (Result-cases (matching c p doc w names)) [
          | inr (e, raised) ↦ cc (rw (got, raised) at h)
          | inl ((others, b), rest) ↦
              let k = rw (got, rest) at h in
              elim (Bool-cases (q == pol)) [
                | inl here ↦
                    let own = same d (rw ((==_iff q pol).0 here) got) in
                    rw (← (ok_pair (rw own at k)).0) (rw here)
                | inr other ↦
                    found_step pol q others found (c.compare_policies d doc) b m k
                      (matching-contains p doc w q names others b same rest (rw other at listed))
              ]
        ]
      ]

  -- the test of `create`
  abbrev pub is_put : Policy c → List String → Bool → Bool
  is_put p found m = not (contains p.policy_name found) && not (p.skip_duplicates && m)

  -- what a `create` without exception went through
  pub record Created (p : Policy c) (w : c.World) (changed : Bool) (w' : c.World) : Type 0 where
    pub doc : c.Document
    pub names : List String
    pub found : List String
    pub policy_match : Bool
    pub read : get_policy_text c p ≡ ok doc
    pub listed : list_names c p w ≡ ok names
    pub matched : matching c p doc w names ≡ ok (found, policy_match)
    pub done :
        (if is_put p found policy_match then put c p doc w else ok (false, w)) ≡ ok (changed, w')

  pub create-Created :
      (p : Policy c) (w w' : c.World) (changed : Bool)
      → create c p w ≡ ok (changed, w')
      → Created p w changed w'
  unfolding create
  create-Created p w w' changed h =
      let (doc, read, h1) = >>=-eq-ok (get_policy_text c p) _ h in
      let (names, listed, h2) = >>=-eq-ok (list_names c p w) _ h1 in
      let ((found, m), matched, h3) = >>=-eq-ok (matching c p doc w names) _ h2 in
      record {
        doc = doc;
        names = names;
        found = found;
        policy_match = m;
        read = read;
        listed = listed;
        matched = matched;
        done = h3;
      }

  -- a `create` that writes nothing leaves the state as it is, and one that writes has put the document
  pub create-put :
      (p : Policy c) (doc : c.Document) (w w' : c.World) (changed b : Bool)
      → p.check_mode ≡ false
      → (if b then put c p doc w else ok (false, w)) ≡ ok (changed, w')
      → ((changed ≡ false) × (w' ≡ w))
        ⊎ (put_policy c p.kind p.name p.policy_name (c.dumps doc) w ≡ ok w')
  unfolding put
  create-put p doc w w' changed false real h = inl (sym (ok_pair h).0, sym (ok_pair h).1)
  create-put p doc w w' changed true real h =
      let (w1, written, ended) =
        >>=-eq-ok (put_policy c p.kind p.name p.policy_name (c.dumps doc) w) _ (rw real at h) in
      inr (written ∙ ap ok (ok_pair ended).1)

  -- the same for `delete`
  pub delete-deleted :
      (p : Policy c) (w w' : c.World) (changed : Bool)
      → p.check_mode ≡ false
      → delete c p w ≡ ok (changed, w')
      → ((changed ≡ false) × (w' ≡ w)) ⊎ (delete_policy c p.kind p.name p.policy_name w ≡ ok w')
  unfolding delete
  delete-deleted p w w' changed real h =
      let (names, listed, k) = >>=-eq-ok (list_names c p w) _ h in
      elim (Bool-cases (contains p.policy_name names)) [
        | inr gone ↦ let e = rw gone at k in inl (sym (ok_pair e).0, sym (ok_pair e).1)
        | inl there ↦
            let (w1, deleted, ended) =
              >>=-eq-ok (delete_policy c p.kind p.name p.policy_name w) _ (rw (there, real) at k) in
            inr (deleted ∙ ap ok (ok_pair ended).1)
      ]

  listed_step :
      (pol q : String) (others found names : List String) (differs b m : Bool)
      → ◌≡◌ {A = Result (List String × Bool)}
          (ok (if not differs then (pol ∷ others, true) else (others, b)))
          (ok (found, m))
      → (contains q others ≡ true → contains q names ≡ true)
      → contains q found ≡ true
      → contains q (pol ∷ names) ≡ true
  listed_step pol q others found names true b m h rest there =
      let k = rest (rw (← (ok_pair h).0) at there) in ground (arith, k)
  listed_step pol q others found names false b m h rest there =
      let k = rw (← (ok_pair h).0) at there in ground (arith, k, rest)

  -- what is found is listed
  pub matching-listed :
      (p : Policy c) (doc : c.Document) (w : c.World) (q : String) (names found : List String)
      (m : Bool)
      → matching c p doc w names ≡ ok (found, m)
      → contains q found ≡ true
      → contains q names ≡ true
  unfolding matching
  matching-listed p doc w q [] found m h there = cc
  matching-listed p doc w q (pol ∷ names) found m h there =
      let (d, got, k) = >>=-eq-ok (get_policy c p.kind p.name pol w) _ h in
      let ((others, b), rest, j) = >>=-eq-ok (matching c p doc w names) _ k in
      listed_step pol q others found names (c.compare_policies d doc) b m j
        (matching-listed p doc w q names others b rest) there
