-- ===== src/Kinesis/Tags/Laws.antt =====
-- Tags as partial maps from keys to values, and what the conversions and the differences do to them.
use mathlib.Core.Path.{subst}
use community_aws.Base.{
  String, ◌≡◌, refl, sym, ◌∙◌, inl, inr, Bool, true, false, Option, none, some, [], ◌∷◌, arith,
  if◌then◌else◌, Bool-cases, filter, contains, ◌==◌, ==_iff, ==_false, string_eq, nat_eq, bool_eq,
  option_eq,
}
use community_aws.Kinesis.Client.{Tags}
use community_aws.Kinesis.Actions.{keys_of}
use community_aws.Kinesis.Tags.{put_tag, tags_onto, make_tags_in_proper_format, has_tag, difference}

-- the value of a key, the first one in the list
unfoldable pub value_of : String → Tags → Option String
value_of k [] = none
value_of k ((j, v) ∷ l) = if j == k then some v else value_of k l

abbrev pub or_else : Option String → Option String → Option String
or_else none b = b
or_else (some v) b = some v

-- no key occurs twice
abbrev pub HasUniqueKeys : Tags → Type 0
HasUniqueKeys [] = Unit {0}
HasUniqueKeys ((k, v) ∷ l) = (value_of k l ≡ none) × HasUniqueKeys l

value_of-put_tag :
    (k j v : String) (d : Tags)
    → value_of j (put_tag k v d) ≡ (if k == j then some v else value_of j d)
unfolding value_of put_tag
value_of-put_tag k j v [] = refl
value_of-put_tag k j v ((i, u) ∷ d) =
    ground (arith, ==_iff k j, ==_iff i k, ==_iff i j, value_of-put_tag k j v d)

-- a later entry wins: with unique keys, any entry
value_of-tags_onto :
    (j : String) (l d : Tags)
    → HasUniqueKeys l
    → value_of j (tags_onto l d) ≡ or_else (value_of j l) (value_of j d)
unfolding value_of tags_onto
value_of-tags_onto j [] d h = refl
value_of-tags_onto j ((k, v) ∷ l) d (h, hs) = elim (Bool-cases (k == j)) [
  | inl same ↦
      value_of-tags_onto j l (put_tag k v d) hs
      ∙ rw (value_of-put_tag k j v d, same)
          (rw (subst (λ x. value_of x l ≡ none) ((==_iff k j).0 same) h) refl)
  | inr other ↦ value_of-tags_onto j l (put_tag k v d) hs ∙ rw (value_of-put_tag k j v d, other)
]

put_tag-HasUniqueKeys : (k v : String) (d : Tags) → HasUniqueKeys d → HasUniqueKeys (put_tag k v d)
unfolding put_tag value_of
put_tag-HasUniqueKeys k v [] h = (refl, tt)
put_tag-HasUniqueKeys k v ((j, u) ∷ d) (h, hs) = elim (Bool-cases (j == k)) [
  | inl same ↦ rw same (subst (λ x. value_of x d ≡ none) ((==_iff j k).0 same) h, hs)
  | inr other ↦ rw other (
    value_of-put_tag k j v d ∙ rw (==_false k j (λ e. cc (sym other ∙ (==_iff j k).1 (sym e)))) h,
    put_tag-HasUniqueKeys k v d hs,
  )
]

tags_onto-HasUniqueKeys : (l d : Tags) → HasUniqueKeys d → HasUniqueKeys (tags_onto l d)
unfolding tags_onto
tags_onto-HasUniqueKeys [] d h = h
tags_onto-HasUniqueKeys ((k, v) ∷ l) d h =
    tags_onto-HasUniqueKeys l (put_tag k v d) (put_tag-HasUniqueKeys k v d h)

-- a value against an entry that may be missing
abbrev pub is_value : String → Option String → Bool
is_value v none = false
is_value v (some u) = v == u

abbrev pub minus : Option String → Option String → Option String
minus none b = none
minus (some v) b = if is_value v b then none else some v

has_tag-value_of :
    (k v : String) (b : Tags) → HasUniqueKeys b → has_tag (k, v) b ≡ is_value v (value_of k b)
unfolding has_tag value_of
has_tag-value_of k v [] h = refl
has_tag-value_of k v ((j, u) ∷ l) (h, hs) = elim (Bool-cases (j == k)) [
  | inl same ↦
      let e : j ≡ k = (==_iff j k).0 same in
      let missing = subst (λ x. value_of x l ≡ none) e h in
      let rest = rw missing at (has_tag-value_of k v l hs) in
      rw (same, (==_iff k j).1 (sym e), rest) (ground arith)
  | inr other ↦
      rw (other, ==_false k j (λ e. cc (sym other ∙ (==_iff j k).1 (sym e))))
        (has_tag-value_of k v l hs)
]

pub value_of-difference :
    (k : String) (a b : Tags)
    → HasUniqueKeys a
    → HasUniqueKeys b
    → value_of k (difference a b) ≡ minus (value_of k a) (value_of k b)
unfolding difference value_of
value_of-difference k [] b h hb = refl
value_of-difference k ((j, v) ∷ l) b (h, hs) hb = elim (Bool-cases (j == k)) [
  | inl same ↦
      let e : j ≡ k = (==_iff j k).0 same in
      let missing = subst (λ x. value_of x l ≡ none) e h in
      let rest = rw missing at (value_of-difference k l b hs hb) in
      let here =
        subst (λ x. has_tag (j, v) b ≡ is_value v (value_of x b)) e (has_tag-value_of j v b hb) in
      rw (here, same) (ground (arith, rest, same))
  | inr other ↦ rw other (ground (arith, other, value_of-difference k l b hs hb))
]

value_of-filter :
    (p : String × String → Bool) (k : String) (l : Tags)
    → value_of k l ≡ none
    → value_of k (filter p l) ≡ none
unfolding value_of
value_of-filter p k [] h = refl
value_of-filter p k ((j, v) ∷ l) h = elim (Bool-cases (j == k)) [
  | inl same ↦ cc (rw same at h)
  | inr other ↦ let rest = value_of-filter p k l (rw other at h) in ground (arith, rest, other)
]

pub filter-HasUniqueKeys :
    (p : String × String → Bool) (l : Tags) → HasUniqueKeys l → HasUniqueKeys (filter p l)
filter-HasUniqueKeys p [] h = tt
filter-HasUniqueKeys p ((j, v) ∷ l) (h, hs) = elim (Bool-cases (p (j, v))) [
  | inl kept ↦ rw kept (value_of-filter p j l h, filter-HasUniqueKeys p l hs)
  | inr dropped ↦ rw dropped (filter-HasUniqueKeys p l hs)
]

pub or_else-none : (o : Option String) → or_else o none ≡ o
or_else-none none = refl
or_else-none (some v) = refl

-- a list of unique keys, made a dictionary, has the same values
pub value_of-proper_format :
    (j : String) (l : Tags)
    → HasUniqueKeys l
    → value_of j (make_tags_in_proper_format l) ≡ value_of j l
unfolding make_tags_in_proper_format value_of
value_of-proper_format j l h = value_of-tags_onto j l [] h ∙ or_else-none (value_of j l)

pub proper_format-HasUniqueKeys : (l : Tags) → HasUniqueKeys (make_tags_in_proper_format l)
unfolding make_tags_in_proper_format
proper_format-HasUniqueKeys l = tags_onto-HasUniqueKeys l [] tt

abbrev pub has_value : Option String → Bool
has_value none = false
has_value (some v) = true

pub contains-keys_of : (k : String) (d : Tags) → contains k (keys_of d) ≡ has_value (value_of k d)
unfolding value_of
contains-keys_of k [] = refl
contains-keys_of k ((j, v) ∷ d) = ground (arith, ==_iff k j, ==_iff j k, contains-keys_of k d)

-- old values without those deleted, under the new ones, are the wanted ones
unfoldable pub replaced : Option String → Option String → Option String
replaced old new = or_else (minus new old) (if has_value (minus old new) then none else old)

pub replaced_lem : (old new : Option String) → replaced old new ≡ new
unfolding replaced
replaced_lem none none = refl
replaced_lem none (some v) = refl
replaced_lem (some u) none = refl
replaced_lem (some u) (some v) = ground (arith, ==_iff u v, ==_iff v u)
