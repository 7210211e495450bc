-- ===== src/EcsTask/Match/Agree.antt =====
-- When two values agree, described without the tests of the comparison.
use community_aws.Base.{
  IsPart, is_within_lem, ℕ, String, ◌≡◌, refl, sym, ap, ◌∙◌, ◌↔◌, ◌⊎◌, inl, inr, Bool, true, false,
  ◌&&◌, not, Option, none, some, arith, eqb, if◌then◌else◌, Bool-cases, Option-cases, eqb_iff,
  string_eq, nat_eq, bool_eq, option_eq, Result, ok, ◌>>=◌, Result-cases, ok_inj,
}
use mathlib.Core.Path.{subst}
use community_aws.Base.Int.{pos, eqb_ℤ}
use community_aws.EcsTask.Values.{
  Value, null, boolean, number, text, list, dict, Items, nil, cons, end, field, lookup,
  length_items, length_fields, text_length, length_or, equal, truthy, truthy_at, item_in, value_in,
}
use community_aws.EcsTask.Match.{all_in, lists_agree, equal_at, as_lists, agrees}

-- The value is in the second one: equal to an entry of a list, a key of a dictionary, or a part of a
-- text that is not empty.
abbrev IsItem : Value → Items → Type 0
IsItem v nil = ⊥
IsItem v (cons u l) = (equal v u ≡ true) ⊎ IsItem v l

abbrev pub IsIn : Value → Value → Type 0
IsIn v (list l) = IsItem v l
IsIn (text s) (dict d) = (u : Value) × (lookup s d ≡ some u)
IsIn (text s) (text (String.◌∷◌ c t)) = IsPart s (String.◌∷◌ c t)
IsIn _ _ = ⊥

abbrev pub AllIn : Items → Value → Type 0
AllIn nil u = Unit
AllIn (cons v l) u = IsIn v u × AllIn l u

-- what Python calls the length of a list, a dictionary or a text
abbrev pub HasLength : Value → ℕ → Type 0
HasLength (list l) n = length_items l ≡ n
HasLength (dict d) n = length_fields d ≡ n
HasLength (text s) n = text_length s ≡ n
HasLength _ n = ⊥

-- The value of a key, and what the other dictionary has for it: both are false, or they are equal, or the
-- value is a list, and what the other has is as long, and has every entry of it.
abbrev pub Agree : Value → Option Value → Type 0
Agree v r =
    ((truthy v ≡ false) × (truthy_at r ≡ false))
    ⊎ ((u : Value) × (r ≡ some u)
        × ((equal v u ≡ true)
            ⊎ ((l : Items) × (v ≡ list l) × (HasLength u (length_items l) × AllIn l u))))

item_in_lem : (v : Value) (l : Items) → (item_in v l ≡ true) ↔ IsItem v l
unfolding item_in
item_in_lem v nil = (λ h. cc, λ h. absurd h)
item_in_lem v (cons u l) = (
  (λ h. elim (Bool-cases (equal v u)) [
    | inl same ↦ inl same
    | inr other ↦ inr ((item_in_lem v l).0 (rw other at h))
  ]),
  λ h. elim h [
    | inl same ↦ rw same refl
    | inr later ↦ let found = (item_in_lem v l).1 later in ground (arith, found)
  ],
)

value_in_lem : (v u : Value) → (value_in v u ≡ ok true) ↔ IsIn v u
unfolding value_in lookup
value_in_lem v (list l) =
    ((λ h. (item_in_lem v l).0 (ok_inj h)), λ h. ap (λ b. ok b) ((item_in_lem v l).1 h))
value_in_lem v null = (λ h. cc, λ h. absurd h)
value_in_lem v (boolean true) = (λ h. cc, λ h. absurd h)
value_in_lem v (boolean false) = (λ h. cc, λ h. absurd h)
value_in_lem v (number n) = (
  (λ h. elim (Bool-cases (eqb_ℤ n (pos 0))) [
    | inl zero_ ↦ cc (rw zero_ at h)
    | inr other ↦ cc (rw other at h)
  ]),
  λ h. absurd h,
)
value_in_lem null (dict end) = (λ h. cc, λ h. absurd h)
value_in_lem (boolean b) (dict end) = (λ h. cc, λ h. absurd h)
value_in_lem (number n) (dict end) = (λ h. cc, λ h. absurd h)
value_in_lem (list l) (dict end) = (λ h. cc, λ h. absurd h)
value_in_lem (dict e) (dict end) = (λ h. cc, λ h. absurd h)
value_in_lem null (dict (field k u d)) = (λ h. cc, λ h. absurd h)
value_in_lem (boolean b) (dict (field k u d)) = (λ h. cc, λ h. absurd h)
value_in_lem (number n) (dict (field k u d)) = (λ h. cc, λ h. absurd h)
value_in_lem (list l) (dict (field k u d)) = (λ h. cc, λ h. absurd h)
value_in_lem (dict e) (dict (field k u d)) = (λ h. cc, λ h. absurd h)
value_in_lem null (text String.[]) = (λ h. cc, λ h. absurd h)
value_in_lem (boolean b) (text String.[]) = (λ h. cc, λ h. absurd h)
value_in_lem (number n) (text String.[]) = (λ h. cc, λ h. absurd h)
value_in_lem (list l) (text String.[]) = (λ h. cc, λ h. absurd h)
value_in_lem (dict e) (text String.[]) = (λ h. cc, λ h. absurd h)
value_in_lem null (text (String.◌∷◌ c t)) = (λ h. cc, λ h. absurd h)
value_in_lem (boolean b) (text (String.◌∷◌ c t)) = (λ h. cc, λ h. absurd h)
value_in_lem (number n) (text (String.◌∷◌ c t)) = (λ h. cc, λ h. absurd h)
value_in_lem (list l) (text (String.◌∷◌ c t)) = (λ h. cc, λ h. absurd h)
value_in_lem (dict e) (text (String.◌∷◌ c t)) = (λ h. cc, λ h. absurd h)
value_in_lem (text s) (dict end) = (λ h. cc, λ (u, h). cc)
value_in_lem (text s) (dict (field k x d)) = (
  (λ h. elim (Option-cases (lookup s (field k x d))) [
    | inl missing ↦ cc (rw missing at h)
    | inr found ↦ found
  ]),
  λ (u, h). rw h refl,
)
value_in_lem (text s) (text String.[]) = (λ h. cc, λ h. absurd h)
value_in_lem (text s) (text (String.◌∷◌ c t)) = (
  (λ h. (is_within_lem s (String.◌∷◌ c t)).0 (ok_inj h)),
  λ h. ap (λ b. ok b) ((is_within_lem s (String.◌∷◌ c t)).1 h),
)

all_in_lem : (l : Items) (u : Value) → (all_in l u ≡ ok true) ↔ AllIn l u
unfolding all_in
all_in_lem nil u = (λ h. tt, λ h. refl)
all_in_lem (cons v l) u = (
  (λ h. elim (Result-cases (value_in v u)) [
    | inr (e, failed) ↦ cc (rw failed at h)
    | inl (true, found) ↦ ((value_in_lem v u).0 found, (all_in_lem l u).0 (rw found at h))
    | inl (false, missing) ↦ cc (rw missing at h)
  ]),
  λ (first, others). rw ((value_in_lem v u).1 first) ((all_in_lem l u).1 others),
)

no_items : (l : Items) → length_items l ≡ 0 → truthy (list l) ≡ false
no_items nil h = refl
no_items (cons v l) h = cc

HasLength-lem : (u : Value) (n : ℕ) → HasLength u n → length_or u ≡ ok n
HasLength-lem (list l) n h = ap (λ x. ok x) h
HasLength-lem (dict d) n h = ap (λ x. ok x) h
HasLength-lem (text s) n h = ap (λ x. ok x) h
HasLength-lem null n h = absurd h
HasLength-lem (boolean b) n h = absurd h
HasLength-lem (number m) n h = absurd h

-- what has a length is a list, a dictionary or a text, or it is false and counts as empty
length_or-HasLength :
    (u : Value) (n : ℕ) → length_or u ≡ ok n → HasLength u n ⊎ ((truthy u ≡ false) × (n ≡ 0))
length_or-HasLength (list l) n h = inl (ok_inj h)
length_or-HasLength (dict d) n h = inl (ok_inj h)
length_or-HasLength (text s) n h = inl (ok_inj h)
length_or-HasLength null n h = inr (refl, sym (ok_inj h))
length_or-HasLength (boolean true) n h = cc
length_or-HasLength (boolean false) n h = inr (refl, sym (ok_inj h))
length_or-HasLength (number m) n h = elim (Bool-cases (eqb_ℤ m (pos 0))) [
  | inl zero_ ↦ inr (ap not zero_, sym (ok_inj (rw zero_ at h)))
  | inr other ↦ cc (rw other at h)
]

lists_agree-there : (l : Items) (u : Value) → lists_agree l u ≡ ok true → Agree (list l) (some u)
unfolding lists_agree
lists_agree-there l u h = elim (Result-cases (length_or u)) [
  | inr (e, failed) ↦ cc (rw failed at h)
  | inl (n, sized) ↦ elim (Bool-cases (eqb (length_items l) n)) [
    | inr other ↦ cc (rw (sized, ◌>>=◌, other) at h)
    | inl as_long ↦
        let same : length_items l ≡ n = (eqb_iff (length_items l) n).0 as_long in
        let within = (all_in_lem l u).0 (rw (sized, ◌>>=◌, as_long) at h) in
        elim (length_or-HasLength u n sized) [
          | inl long ↦ inr (u, refl, inr (l, refl, (subst (HasLength u) (sym same) long, within)))
          | inr (falsy, none_) ↦ inl (no_items l (same ∙ none_), falsy)
        ]
  ]
]

lists_agree-back :
    (l : Items) (u : Value) → HasLength u (length_items l) → AllIn l u → lists_agree l u ≡ ok true
unfolding lists_agree
lists_agree-back l u long within =
    rw
      (
        HasLength-lem u (length_items l) long,
        ◌>>=◌,
        (eqb_iff (length_items l) (length_items l)).1 refl,
      )
      ((all_in_lem l u).1 within)

as_lists-there : (v : Value) (r : Option Value) → as_lists v r ≡ ok true → Agree v r
unfolding as_lists
as_lists-there (list l) (some u) h = lists_agree-there l u h
as_lists-there (list l) none h = cc
as_lists-there null r h = cc
as_lists-there (boolean b) r h = cc
as_lists-there (number n) r h = cc
as_lists-there (text s) r h = cc
as_lists-there (dict d) r h = cc

equal_at-there :
    (v : Value) (r : Option Value)
    → equal_at v r ≡ true
    → (u : Value) × (r ≡ some u) × (equal v u ≡ true)
equal_at-there v none h = cc
equal_at-there v (some u) h = (u, refl, h)

agrees-there : (v : Value) (r : Option Value) → agrees v r ≡ ok true → Agree v r
unfolding agrees
agrees-there v r h = elim (Bool-cases (not (truthy v) && not (truthy_at r))) [
  | inl falsy ↦ inl (ground (arith, falsy), ground (arith, falsy))
  | inr some_ ↦ elim (Bool-cases (equal_at v r)) [
    | inl same ↦ let (u, e, k) = equal_at-there v r same in inr (u, e, inl k)
    | inr other ↦ as_lists-there v r (rw (some_, other) at h)
  ]
]

if_same : (b : Bool) (x : Result Bool) → (if b then x else x) ≡ x
if_same true x = refl
if_same false x = refl

agrees-lists :
    (l : Items) (u : Value)
    → HasLength u (length_items l)
    → AllIn l u
    → agrees (list l) (some u) ≡ ok true
unfolding agrees as_lists
agrees-lists l u long within = rw (lists_agree-back l u long within) (if_same _ (ok true))

agrees-equal : (v u : Value) → equal v u ≡ true → agrees v (some u) ≡ ok true
unfolding agrees
agrees-equal v u h = ground (arith, h)

agrees-back : (v : Value) (r : Option Value) → Agree v r → agrees v r ≡ ok true
unfolding agrees
agrees-back v r (inl (falsy, falsy_at)) = ground (arith, falsy, falsy_at)
agrees-back v r (inr (u, e, inl same)) =
    subst (λ x. agrees v x ≡ ok true) (sym e) (agrees-equal v u same)
agrees-back v r (inr (u, e, inr (l, is_list, (long, within)))) =
    subst (λ x. agrees x r ≡ ok true) (sym is_list)
      (subst (λ x. agrees (list l) x ≡ ok true) (sym e) (agrees-lists l u long within))

-- A round of the comparison says yes exactly if the two values agree.
pub agrees_lem : (v : Value) (r : Option Value) → (agrees v r ≡ ok true) ↔ Agree v r
agrees_lem v r = (agrees-there v r, agrees-back v r)
