-- ===== src/S3Lifecycle/Create/Laws.antt =====
-- What `create_lifecycle_rule` writes, for a given rule ID.
use community_aws.Base.{
  String, ◌≡◌, refl, sym, ap, ◌∙◌, inl, inr, Bool, true, false, ◌&&◌, ◌||◌, Option, none, some,
  List, [], ◌∷◌, ◌++◌, map, arith, if◌then◌else◌, Bool-cases, any, All, ◌==◌, ==_refl, string_eq,
  nat_eq, bool_eq, option_eq, ok, ◌>>=◌, >>=-eq-ok, for_each, Result-cases,
}
use mathlib.Core.Path.{subst}
use mathlib.Core.List.{append-nil, append_assoc, map-append}
use community_aws.S3Lifecycle.Rule.{Rule, rule_eq, prefix_of, filter_prefix_or}
use community_aws.S3Lifecycle.Merge.{update_or_append_rule, compare_rule}
use community_aws.S3Lifecycle.Merge.Laws.{update_or_append_rule-named}
use community_aws.S3Lifecycle.Create.{
  Entry, existing, new_rule, entry_rule, Progress, start, visit, finish, new_configuration,
}

-- What becomes of a current rule: with the ID and the prefix of the new rule, it is replaced by
-- it; with the ID and another prefix it loses its ID; otherwise it stays.
abbrev pub image : Option String → String → Rule → Entry
image i prefix r =
    if i == r.id
    then (if prefix == prefix_of r then new_rule else existing (record r { id = none }))
    else existing r

-- a current rule that the new rule replaces
abbrev pub is_replaced : Option String → String → Rule → Bool
is_replaced i prefix r = (i == r.id) && (prefix == prefix_of r)

-- What the loop has done to the progress `s` after the current rules `l`.
record Visited (i : Option String) (prefix : String) (l : List Rule) (s s' : Progress)
    : Type 0 where
  entries : s'.entries ≡ s.entries ++ map (image i prefix) l
  appended : s'.appended ≡ (any (is_replaced i prefix) l || s.appended)
  id : s'.rule.id ≡ s.rule.id
  filter : s'.rule.filter ≡ s.rule.filter

visit-own :
    (i : String) (purge : Bool) (e : Rule) (s s' : Progress)
    → visit (some i) purge e s ≡ ok s'
    → Visited s.rule.id (prefix_of s.rule) (e ∷ []) s s'
unfolding visit
visit-own i purge e s s' h = elim (Result-cases (update_or_append_rule s.rule e purge)) [
  | inl ((rule, b), updated) ↦
      ground (arith, updated, update_or_append_rule-named s.rule e rule b purge updated)
  | inr (c, raised) ↦ ground (arith, raised)
]

-- One round of the loop.
visit-Visited :
    (i : String) (purge : Bool) (n : Option String) (p : String) (e : Rule) (s s' : Progress)
    → s.rule.id ≡ n
    → prefix_of s.rule ≡ p
    → visit (some i) purge e s ≡ ok s'
    → Visited n p (e ∷ []) s s'
visit-Visited i purge n p e s s' en ep h =
    subst (λ x. Visited x p (e ∷ []) s s') en
      (subst (λ y. Visited s.rule.id y (e ∷ []) s s') ep (visit-own i purge e s s' h))

loop-Visited :
    (i : String) (purge : Bool) (n : Option String) (p : String) (l : List Rule) (s s' : Progress)
    → s.rule.id ≡ n
    → prefix_of s.rule ≡ p
    → for_each (visit (some i) purge) l s ≡ ok s'
    → Visited n p l s s'
loop-Visited i purge n p [] s s' en ep h = record {
  entries = rw append-nil (ground arith);
  appended = ground arith;
  id = ground arith;
  filter = ground arith;
}
loop-Visited i purge n p (e ∷ l) s s' en ep h =
    let (s1, first, others) = >>=-eq-ok (visit (some i) purge e s) _ h in
    let v = visit-Visited i purge n p e s s1 en ep first in
    let w =
      loop-Visited i purge n p l s1 s' (v.id ∙ en) (ap filter_prefix_or v.filter ∙ ep) others in
    record {
      entries = w.entries ∙ ap (λ t. t ++ map (image n p) l) v.entries ∙ append_assoc s.entries _ _;
      appended = ground (arith, v.appended, w.appended);
      id = w.id ∙ v.id;
      filter = w.filter ∙ v.filter;
    }

finish_lem :
    (s : Progress) (es : List Entry) (a b : Bool) (out : List Rule)
    → s.entries ≡ es
    → s.appended ≡ (a || false)
    → finish s ≡ (out, b)
    → out ≡ map (entry_rule s.rule) (es ++ (if a then [] else new_rule ∷ []))
unfolding finish
finish_lem s es true b out e f h = rw (append-nil, ← e) (ground arith)
finish_lem s es false b out e f h = rw (← e) (ground arith)

-- With a rule ID, a run that succeeds writes, for some form of the new rule with the ID and the
-- filter that were built, each current rule's image in the current order: the new rule for a rule
-- of the same ID and prefix, a rule of the same ID and another prefix without its ID, and any
-- other rule as it was. The new rule comes last if it replaced none.
pub new_configuration_lem :
    (i : String) (purge : Bool) (rule : Rule) (l out : List Rule) (changed : Bool)
    → rule.id ≡ some i
    → new_configuration (some i) purge rule l ≡ ok (out, changed)
    → (final : Rule) × (final.id ≡ some i)
      × (final.filter ≡ rule.filter)
      × (out
          ≡ map (entry_rule final) (
              map (image (some i) (prefix_of rule)) l
              ++ (if any (is_replaced (some i) (prefix_of rule)) l then [] else new_rule ∷ [])))
unfolding new_configuration
new_configuration_lem i purge rule [] out changed n h = (rule, n, refl, ground arith)
new_configuration_lem i purge rule (r ∷ l) out changed n h =
    let (s, loop, done) =
      >>=-eq-ok (for_each (visit (some i) purge) (r ∷ l) (start rule)) (λ s. ok (finish s)) h in
    let v = loop-Visited i purge (some i) (prefix_of rule) (r ∷ l) (start rule) s n refl loop in
    (
      s.rule,
      v.id ∙ n,
      v.filter,
      finish_lem s _ _ changed out v.entries v.appended (ground (arith, done)),
    )

-- a round over the new rule itself
visit_same :
    (i : String) (s : Progress)
    → s.rule.id ≡ some i
    → visit (some i) true s.rule s
      ≡ ok (record s { entries = s.entries ++ new_rule ∷ []; appended = true })
unfolding visit update_or_append_rule compare_rule
visit_same i s n =
    simp (==_refl (s.rule.id), ==_refl (prefix_of s.rule), ==_refl (s.rule.status), ==_refl s.rule)

-- a round over a rule of another ID
visit_other :
    (i : String) (purge : Bool) (r : Rule) (s : Progress)
    → (s.rule.id == r.id) ≡ false
    → visit (some i) purge r s ≡ ok (record s { entries = s.entries ++ existing r ∷ [] })
unfolding visit
visit_other i purge r s h = rw (h, h)

record Unchanged (l : List Rule) (s s' : Progress) : Type 0 where
  rule : s'.rule ≡ s.rule
  entries : map (entry_rule s.rule) s'.entries ≡ map (entry_rule s.rule) s.entries ++ l
  changed : s'.changed ≡ s.changed
  appended : s'.appended ≡ (any (λ r. s.rule.id == r.id) l || s.appended)

loop-Unchanged :
    (i : String) (l : List Rule) (s : Progress)
    → s.rule.id ≡ some i
    → All (λ r. (s.rule.id == r.id) ≡ true → r ≡ s.rule) l
    → (s' : Progress) × (for_each (visit (some i) true) l s ≡ ok s') × Unchanged l s s'
loop-Unchanged i [] s n h =
    (s, refl, record { rule = refl; entries = rw append-nil; changed = refl; appended = refl })
loop-Unchanged i (r ∷ l) s n (h, hs) = elim (Bool-cases (s.rule.id == r.id)) [
  | inl mine ↦
      let next : Progress = record s { entries = s.entries ++ new_rule ∷ []; appended = true } in
      let (s', loop, u) = loop-Unchanged i l next n hs in
      (
        s',
        ap (λ x. x >>= for_each (visit (some i) true) l)
              (subst (λ x. visit (some i) true x s ≡ ok next) (sym (h mine)) (visit_same i s n))
            ∙ loop,
        record {
          rule = u.rule;
          entries =
              u.entries
              ∙ simp (map-append, append_assoc)
                  (ap (λ x. map (entry_rule s.rule) s.entries ++ x ∷ l) (sym (h mine)));
          changed = u.changed;
          appended = ground (arith, u.appended);
        },
      )
  | inr other ↦
      let next : Progress = record s { entries = s.entries ++ existing r ∷ [] } in
      let (s', loop, u) = loop-Unchanged i l next n hs in
      (
        s',
        ap (λ x. x >>= for_each (visit (some i) true) l) (visit_other i true r s other) ∙ loop,
        record {
          rule = u.rule;
          entries = u.entries ∙ simp (map-append, append_assoc);
          changed = u.changed;
          appended = ground (arith, u.appended);
        },
      )
]

-- With a rule ID and `purge_transitions`, a configuration whose rules of that ID all equal the
-- new rule, at least one of them present, is written back as it was and reported unchanged.
pub new_configuration_unchanged :
    (i : String) (rule : Rule) (l : List Rule)
    → rule.id ≡ some i
    → All (λ r. (rule.id == r.id) ≡ true → r ≡ rule) l
    → any (λ r. rule.id == r.id) l ≡ true
    → new_configuration (some i) true rule l ≡ ok (l, false)
unfolding new_configuration finish
new_configuration_unchanged i rule [] n hs found = cc
new_configuration_unchanged i rule (r ∷ l) n hs found =
    let (s, loop, u) = loop-Unchanged i (r ∷ l) (start rule) n hs in
    rw (loop, u.appended, found, u.changed, u.rule) (ap (λ x. ok (x, false)) u.entries)
