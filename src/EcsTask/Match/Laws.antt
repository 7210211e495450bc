-- ===== src/EcsTask/Match/Laws.antt =====
-- What the comparison of two dictionaries decides, key by key.
use community_aws.Base.{
  some_inj, String, ◌≡◌, refl, sym, ap, ◌∙◌, ◌↔◌, inl, inr, Bool, true, false, ◌&&◌, not, Option,
  none, some, arith, if◌then◌else◌, Bool-cases, Option-cases, ◌==◌, ==_iff, ==_refl, string_eq,
  nat_eq, bool_eq, option_eq, Result, ok, err, ◌>>=◌, ok_inj,
}
use mathlib.Core.Path.{subst}
use community_aws.EcsTask.Values.{Value, Fields, end, field, lookup, truthy, truthy_at}
use community_aws.EcsTask.Match.Agree.{Agree, agrees_lem}
use community_aws.EcsTask.Match.{
  agrees, left_agrees, right_agrees, right_has_values_of_left, has_key,
}

-- the keys of a dictionary are different
abbrev pub Unique : Fields → Type 0
Unique end = Unit
Unique (field k v d) = (lookup k d ≡ none) × Unique d

-- what two dictionaries have for a key agrees
abbrev pub AgreeAt : Option Value → Option Value → Type 0
AgreeAt (some v) r = Agree v r
AgreeAt none r = truthy_at r ≡ false

lookup-here : (k : String) (v : Value) (d : Fields) → lookup k (field k v d) ≡ some v
unfolding lookup
lookup-here k v d = rw (==_refl k)

-- a bind on a test that ended in true
both_true :
    (first : Result Bool) (then_ : Result Bool)
    → ((first >>= λ b. if b then then_ else ok false) ≡ ok true)
      ↔ ((first ≡ ok true) × (then_ ≡ ok true))
both_true (err e) then_ = ((λ h. (cc, cc)), λ h. cc)
both_true (ok true) then_ = ((λ h. (refl, h)), λ h. h.1)
both_true (ok false) then_ = ((λ h. (cc, cc)), λ h. cc)

-- the first loop looks at every key of the left
left_agrees-keys :
    (left right : Fields) (k : String) (v : Value)
    → left_agrees left right ≡ ok true
    → lookup k left ≡ some v
    → agrees v (lookup k right) ≡ ok true
unfolding left_agrees lookup
left_agrees-keys end right k v h got = cc
left_agrees-keys (field j u left) right k v h got =
    let (here, rest) = (both_true (agrees u (lookup j right)) (left_agrees left right)).0 h in
    elim (Bool-cases (j == k)) [
      | inl same ↦
          let e : j ≡ k = (==_iff j k).0 same in
          let w : u ≡ v = some_inj (rw same at got) in
          subst (λ x. agrees x (lookup k right) ≡ ok true) w
            (subst (λ x. agrees u (lookup x right) ≡ ok true) e here)
      | inr other ↦ left_agrees-keys left right k v rest (rw other at got)
    ]

left_agrees-all :
    (left right : Fields)
    → Unique left
    → ((k : String) (v : Value) → lookup k left ≡ some v → agrees v (lookup k right) ≡ ok true)
    → left_agrees left right ≡ ok true
unfolding left_agrees lookup
left_agrees-all end right unique h = refl
left_agrees-all (field j u left) right unique h =
    (both_true (agrees u (lookup j right)) (left_agrees left right)).1
      (h j u (lookup-here j u left), left_agrees-all left right unique.1 later)
  where
    later : (k : String) (v : Value) → lookup k left ≡ some v → agrees v (lookup k right) ≡ ok true
    later k v got = elim (Bool-cases (j == k)) [
      | inl same ↦
          let e : j ≡ k = (==_iff j k).0 same in
          cc (sym unique.0 ∙ subst (λ x. lookup x left ≡ some v) (sym e) got)
      | inr other ↦ h k v (rw other got)
    ]

has_key-missing : (k : String) (d : Fields) → lookup k d ≡ none → has_key k d ≡ false
has_key-missing k d h = rw (h, has_key) refl

has_key-got : (k : String) (d : Fields) (v : Value) → lookup k d ≡ some v → has_key k d ≡ true
has_key-got k d v h = rw (h, has_key) refl

right_agrees-keys :
    (right left : Fields) (k : String)
    → right_agrees right left ≡ true
    → lookup k left ≡ none
    → truthy_at (lookup k right) ≡ false
unfolding right_agrees lookup
right_agrees-keys end left k h missing = refl
right_agrees-keys (field j u right) left k h missing =
    elim (Bool-cases (truthy u && not (has_key j left))) [
      | inl extra ↦ cc (rw extra at h)
      | inr fine ↦ elim (Bool-cases (j == k)) [
        | inr other ↦ rw other (right_agrees-keys right left k (rw fine at h) missing)
        | inl same ↦
            let gone : has_key j left ≡ false =
              has_key-missing j left
                (subst (λ x. lookup x left ≡ none) (sym ((==_iff j k).0 same)) missing) in
            rw same (ground (arith, fine, gone))
      ]
    ]

right_agrees-all :
    (right left : Fields)
    → Unique right
    → ((k : String) → lookup k left ≡ none → truthy_at (lookup k right) ≡ false)
    → right_agrees right left ≡ true
unfolding right_agrees lookup
right_agrees-all end left unique h = refl
right_agrees-all (field j u right) left unique h =
    elim (Bool-cases (truthy u && not (has_key j left))) [
      | inl extra ↦ elim (Option-cases (lookup j left)) [
        | inl missing ↦
            let falsy = rw (lookup-here j u right) at (h j missing) in ground (arith, extra, falsy)
        | inr (v, got) ↦ let kept = has_key-got j left v got in ground (arith, extra, kept)
      ]
      | inr fine ↦ rw fine (right_agrees-all right left unique.1 later)
    ]
  where
    later : (k : String) → lookup k left ≡ none → truthy_at (lookup k right) ≡ false
    later k missing = elim (Bool-cases (j == k)) [
      | inl same ↦ let e : j ≡ k = (==_iff j k).0 same in rw (← e, unique.0) refl
      | inr other ↦ rw other at (h k missing)
    ]

-- Of two dictionaries, each with different keys, the right one has the values of the left one just
-- if what they have agrees at every key: for a key of the left, both are false, or they are equal, or
-- the left has a list, and the right something as long that has every entry of it, whatever the order;
-- for any other key, what the right has is false. The order of the keys does not matter, and neither
-- loop raises where the answer is yes.
pub right_has_values_of_left_lem :
    (left right : Fields)
    → Unique left
    → Unique right
    → (right_has_values_of_left left right ≡ ok true)
      ↔ ((k : String) → AgreeAt (lookup k left) (lookup k right))
unfolding right_has_values_of_left
right_has_values_of_left_lem left right unique_left unique_right = (there, back)
  where
    there :
        right_has_values_of_left left right ≡ ok true
        → (k : String) → AgreeAt (lookup k left) (lookup k right)
    there h k =
        let (on_left, on_right) =
          (both_true (left_agrees left right) (ok (right_agrees right left))).0 h in
        elim (Option-cases (lookup k left)) [
          | inl missing ↦ rw missing (right_agrees-keys right left k (ok_inj on_right) missing)
          | inr (v, got) ↦
              rw got
                ((agrees_lem v (lookup k right)).0 (left_agrees-keys left right k v on_left got))
        ]

    back :
        ((k : String) → AgreeAt (lookup k left) (lookup k right))
        → right_has_values_of_left left right ≡ ok true
    back h = (both_true (left_agrees left right) (ok (right_agrees right left))).1 (
      left_agrees-all left right unique_left
          (λ k v got. (agrees_lem v (lookup k right)).1 (rw got at (h k))),
      ap ok (right_agrees-all right left unique_right (λ k missing. rw missing at (h k))),
    )
