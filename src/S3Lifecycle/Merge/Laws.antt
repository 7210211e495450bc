-- ===== src/S3Lifecycle/Merge/Laws.antt =====
-- What merging keeps and adds.
use community_aws.Base.{
  String, ◌≡◌, refl, sym, ap, ◌∙◌, inl, inr, Bool, true, false, ◌&&◌, ◌||◌, not, none, some, List,
  [], ◌∷◌, ◌++◌, arith, if◌then◌else◌, Bool-cases, Option-cases, filter, any, ◌==◌, string_eq,
  nat_eq, bool_eq, option_eq, key_error, ok, err, >>=-eq-ok,
}
use mathlib.Core.Path.{subst}
use mathlib.Core.List.{append-nil, append_assoc}
use community_aws.S3Lifecycle.Rule.{rule_eq, Transition, Rule, is_none}
use community_aws.S3Lifecycle.Build.{or_empty}
use community_aws.S3Lifecycle.Merge.{
  update_or_append_rule, put_class, put_classes, by_class, get_class, append_transition,
  merge_items, merge_transitions,
}

-- some transition of the list has this storage class
abbrev has_class : String → List Transition → Bool
has_class c = any (λ t. t.storage_class == c)

get_class-put_class :
    (c : String) (t : Transition) (d : List Transition)
    → get_class c (put_class t d) ≡ (if t.storage_class == c then some t else get_class c d)
unfolding get_class put_class
get_class-put_class c t [] = refl
get_class-put_class c t (u ∷ d) = ground (arith, get_class-put_class c t d)

get_class-put_classes :
    (c : String) (ts d : List Transition)
    → is_none (get_class c (put_classes ts d)) ≡ (not (has_class c ts) && is_none (get_class c d))
unfolding put_classes
get_class-put_classes c [] d = refl
get_class-put_classes c (t ∷ ts) d =
    ground (arith, get_class-put_classes c ts (put_class t d), get_class-put_class c t d)

get_class-by_class :
    (c : String) (ts : List Transition) → is_none (get_class c (by_class ts)) ≡ not (has_class c ts)
unfolding by_class get_class
get_class-by_class c ts = ground (arith, get_class-put_classes c ts [])

-- the transitions that merging adds: those of a storage class that the updated rule lacks
abbrev added : Rule → Rule → List Transition
added updated updating =
    filter (λ t. not (has_class t.storage_class (or_empty updated.transitions)))
      (by_class (or_empty updating.transitions))

abbrev pub with_transitions : Rule → List Transition → Rule
with_transitions r l = record r { transitions = some l }

merge_items_lem :
    (d : List Transition) (ts : List Transition) (r : Rule) (l : List Transition)
    → merge_items d ts (with_transitions r l)
      ≡ ok (with_transitions r (l ++ filter (λ t. is_none (get_class t.storage_class d)) ts))
unfolding merge_items append_transition
merge_items_lem d [] r l = rw append-nil
merge_items_lem d (t ∷ ts) r l = elim (Bool-cases (is_none (get_class t.storage_class d))) [
  | inl new ↦ rw new (
      merge_items_lem d ts r (l ++ t ∷ [])
      ∙ ap (λ k. ok (with_transitions r k)) (append_assoc l (t ∷ []) _))
  | inr old ↦ rw old (merge_items_lem d ts r l)
]

filter-ext :
    {A : Type 0} (p q : A → Bool) → ((a : A) → p a ≡ q a) → (l : List A) → filter p l ≡ filter q l
filter-ext p q h [] = refl
filter-ext p q h (a ∷ l) = rw (h a, filter-ext p q h l)

merge_transitions-with :
    (u v : Rule) (l : List Transition)
    → merge_transitions (with_transitions u l) v
      ≡ ok (with_transitions u (l ++ added (with_transitions u l) v))
unfolding merge_transitions
merge_transitions-with u v l =
    merge_items_lem (by_class l) (by_class (or_empty v.transitions)) u l
    ∙ ap (λ k. ok (with_transitions u (l ++ k)))
        (filter-ext _ _ (λ t. get_class-by_class t.storage_class l)
          (by_class (or_empty v.transitions)))

has_class-append :
    (c : String) (k l : List Transition) → has_class c (k ++ l) ≡ (has_class c k || has_class c l)
has_class-append c [] l = refl
has_class-append c (t ∷ k) l = ground (arith, has_class-append c k l)

has_class-put_class :
    (c : String) (t : Transition) (d : List Transition)
    → has_class c (put_class t d) ≡ ((t.storage_class == c) || has_class c d)
unfolding put_class
has_class-put_class c t [] = ground arith
has_class-put_class c t (u ∷ d) = ground (arith, has_class-put_class c t d)

has_class-put_classes :
    (c : String) (ts d : List Transition)
    → has_class c (put_classes ts d) ≡ (has_class c ts || has_class c d)
unfolding put_classes
has_class-put_classes c [] d = refl
has_class-put_classes c (t ∷ ts) d =
    ground (arith, has_class-put_classes c ts (put_class t d), has_class-put_class c t d)

has_class-filter :
    (c : String) (l d : List Transition)
    → has_class c (filter (λ t. not (has_class t.storage_class l)) d)
      ≡ (has_class c d && not (has_class c l))
has_class-filter c l [] = refl
has_class-filter c l (t ∷ d) = ground (arith, has_class-filter c l d)

has_class-merged :
    (c : String) (l k : List Transition)
    → has_class c (l ++ filter (λ t. not (has_class t.storage_class l)) (by_class k))
      ≡ (has_class c l || has_class c k)
unfolding by_class
has_class-merged c l k = ground (
  arith,
  has_class-append c l (filter (λ t. not (has_class t.storage_class l)) (put_classes k [])),
  has_class-filter c l (put_classes k []),
  has_class-put_classes c k [],
)

-- With a key Transitions in the updated rule, merging returns that rule with transitions appended
-- to its list and nothing else changed. The result has a transition of a storage class exactly
-- when one of the two rules has one.
merge_transitions_lem :
    (u v : Rule) (l : List Transition) (c : String)
    → u.transitions ≡ some l
    → (merge_transitions u v ≡ ok (with_transitions u (l ++ added u v)))
      × (has_class c (l ++ added u v) ≡ (has_class c l || has_class c (or_empty v.transitions)))
merge_transitions_lem u v l c h =
    subst
      (λ w.
        (merge_transitions w v ≡ ok (with_transitions u (l ++ added w v)))
        × (has_class c (l ++ added w v) ≡ (has_class c l || has_class c (or_empty v.transitions))))
      (λ i. record u { transitions = sym h i })
      (merge_transitions-with u v l, has_class-merged c l (or_empty v.transitions))

-- a dictionary that holds an entry keeps holding one
put_classes-cons :
    (ts : List Transition) (x : Transition) (d : List Transition)
    → (y : Transition) × (e : List Transition) × (put_classes ts (x ∷ d) ≡ y ∷ e)
unfolding put_classes put_class
put_classes-cons [] x d = (x, d, refl)
put_classes-cons (t ∷ ts) x d = elim (Bool-cases (x.storage_class == t.storage_class)) [
  | inl same ↦ rw same (put_classes-cons ts t d)
  | inr other ↦ rw other (put_classes-cons ts x (put_class t d))
]

-- With no key Transitions in the updated rule, and a transition in the updating rule, merging
-- raises a KeyError.
merge_transitions_missing :
    (u v : Rule) (t : Transition) (ts : List Transition)
    → u.transitions ≡ none
    → v.transitions ≡ some (t ∷ ts)
    → merge_transitions u v ≡ err (key_error "Transitions")
unfolding merge_transitions by_class put_classes put_class
merge_transitions_missing u v t ts h e = let (y, d, eq) = put_classes-cons ts t [] in rw (h, e, eq)

merge_items-named :
    (d ts : List Transition) (r r' : Rule)
    → merge_items d ts r ≡ ok r'
    → (r'.id ≡ r.id) × (r'.filter ≡ r.filter)
unfolding merge_items append_transition
merge_items-named d [] r r' h = ground arith
merge_items-named d (t ∷ ts) r r' h = elim (Bool-cases (is_none (get_class t.storage_class d))) [
  | inr old ↦ merge_items-named d ts r r' (rw old at h)
  | inl new ↦ elim (Option-cases r.transitions) [
    | inl missing ↦ cc (rw (new, missing) at h)
    | inr (l, e) ↦ merge_items-named d ts (with_transitions r (l ++ t ∷ [])) r' (rw (new, e) at h)
  ]
]

-- The new rule keeps its ID and its filter while it takes over an existing rule.
pub update_or_append_rule-named :
    (r e r' : Rule) (b purge : Bool)
    → update_or_append_rule r e purge ≡ ok (r', b)
    → (r'.id ≡ r.id) × (r'.filter ≡ r.filter)
unfolding update_or_append_rule merge_transitions
update_or_append_rule-named r e r' b true h = ground arith
update_or_append_rule-named r e r' b false h = elim (Bool-cases (e.status == r.status)) [
  | inr differs ↦ let k = rw differs at h in ground (arith, k)
  | inl same ↦
      let (m, merged, returned) = >>=-eq-ok (merge_transitions r e) _ (rw same at h) in
      ground (arith, returned, merge_items-named _ _ r m merged)
]
