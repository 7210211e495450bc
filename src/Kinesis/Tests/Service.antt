-- ===== src/Kinesis/Tests/Service.antt =====
-- The service in memory has the properties that the theorems ask of a service.
use community_aws.Base.{
  inl_inj, String, ◌≡◌, refl, sym, ap, ◌∙◌, inl, inr, false, none, List, [], ◌∷◌, ◌++◌, arith,
  if◌then◌else◌, Bool-cases, Option-cases, contains, ◌==◌, ==_iff, ==_refl, string_eq, nat_eq,
  bool_eq, option_eq,
}
use community_aws.Kinesis.Client.{Tags, Description}
use community_aws.Kinesis.Tags.Laws.{value_of, or_else, HasUniqueKeys, filter-HasUniqueKeys}
use community_aws.Kinesis.Tags.Service.{HasTags}
use community_aws.Kinesis.Find.Laws.{IsService}
use mathlib.Core.Path.{subst}
use community_aws.Kinesis.Tests.{Cell, memory, delete_keys, first_entries}

value_of-append :
    (j : String) (l m : Tags) → value_of j (l ++ m) ≡ or_else (value_of j l) (value_of j m)
unfolding value_of
value_of-append j [] m = refl
value_of-append j ((k, v) ∷ l) m = ground (arith, value_of-append j l m)

value_of-delete_keys :
    (j : String) (ks : List String) (l : Tags)
    → value_of j (delete_keys ks l) ≡ (if contains j ks then none else value_of j l)
unfolding value_of
value_of-delete_keys j ks [] = ground arith
value_of-delete_keys j ks ((k, v) ∷ l) = elim (Bool-cases (k == j)) [
  | inl same ↦
      let e : k ≡ j = (==_iff k j).0 same in
      let here : contains k ks ≡ contains j ks = ap (λ x. contains x ks) e in
      ground (arith, same, here, value_of-delete_keys j ks l)
  | inr other ↦ ground (arith, other, value_of-delete_keys j ks l)
]

value_of-first_entries : (j : String) (l : Tags) → value_of j (first_entries l) ≡ value_of j l
unfolding value_of
value_of-first_entries j [] = refl
value_of-first_entries j ((k, v) ∷ l) = ground (
  arith,
  ==_iff k j,
  ==_iff j k,
  value_of-delete_keys j (k ∷ []) (first_entries l),
  value_of-first_entries j l,
)

first_entries-HasUniqueKeys : (l : Tags) → HasUniqueKeys (first_entries l)
first_entries-HasUniqueKeys [] = tt
first_entries-HasUniqueKeys ((k, v) ∷ l) = (
  value_of-delete_keys k (k ∷ []) (first_entries l) ∙ ground (arith, ==_refl k),
  filter-HasUniqueKeys _ (first_entries l) (first_entries-HasUniqueKeys l),
)

pub memory-HasTags : HasTags (memory false)
memory-HasTags = record {
  tags_of = λ w j. value_of j w.tags;
  list-unique = λ w l h. subst HasUniqueKeys (inl_inj h) (first_entries-HasUniqueKeys w.tags);
  list-tags_of = λ j w l h. ap (value_of j) (sym (inl_inj h)) ∙ value_of-first_entries j w.tags;
  tags_of-add = λ j ts w w' h.
      ap (λ (v : Cell). value_of j v.tags) (sym (inl_inj h)) ∙ value_of-append j ts w.tags;
  tags_of-remove = λ j ks w w' h.
      ap (λ (v : Cell). value_of j v.tags) (sym (inl_inj h)) ∙ value_of-delete_keys j ks w.tags;
}

one_page :
    (w : Cell) (d : Description)
    → (memory false).describe_stream w ≡ inl d
    → d.has_more_shards ≡ false
one_page w d h = elim (Option-cases w.stream) [
  | inl e ↦ cc (rw e at h)
  | inr (c, e) ↦ ap (λ x. x.has_more_shards) (sym (inl_inj (rw e at h)))
]

pub memory-IsService : IsService (memory false)
memory-IsService = record { one_page = one_page; sleep_lasts = λ n w. omega arith }
