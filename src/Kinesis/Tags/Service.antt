-- ===== src/Kinesis/Tags/Service.antt =====
-- The tags that `update_tags` leaves at the service, seen as a partial map from keys to values.
use community_aws.Base.{
  String, ◌≡◌, refl, sym, ap, ◌∙◌, ◌⊎◌, inl, inr, Bool, true, false, Option, none, List, [], ◌∷◌,
  if◌then◌else◌, Bool-cases, Sum-cases, contains, string_eq, nat_eq, bool_eq, option_eq,
}
use community_aws.Base.Run.{done, done_inj, bind-eq-done}
use community_aws.Kinesis.Client.{Tags, Msg, no_message, Kinesis, attempt}
use community_aws.Kinesis.Actions.{tags_action, keys_of}
use community_aws.Kinesis.Tags.{
  make_tags_in_proper_format, difference, get_tags, create_tags, update_rest, replace_tags,
  update_tags,
}
use community_aws.Kinesis.Tags.Laws.{
  value_of, or_else, HasUniqueKeys, value_of-difference, filter-HasUniqueKeys,
  value_of-proper_format, proper_format-HasUniqueKeys, contains-keys_of, has_value, replaced,
  replaced_lem, or_else-none,
}

-- The tags of a service as a partial map: what is listed, and what the two calls that write do.
pub record HasTags (k : Kinesis) : Type 0 where
  pub tags_of : k.World → String → Option String
  pub list-unique : (w : k.World) (l : Tags) → k.list_tags_for_stream w ≡ inl l → HasUniqueKeys l
  pub list-tags_of :
      (j : String) (w : k.World) (l : Tags)
      → k.list_tags_for_stream w ≡ inl l
      → value_of j l ≡ tags_of w j
  pub tags_of-add :
      (j : String) (ts : Tags) (w w' : k.World)
      → k.add_tags_to_stream ts w ≡ inl w'
      → tags_of w' j ≡ or_else (value_of j ts) (tags_of w j)
  pub tags_of-remove :
      (j : String) (ks : List String) (w w' : k.World)
      → k.remove_tags_from_stream ks w ≡ inl w'
      → tags_of w' j ≡ (if contains j ks then none else tags_of w j)

module _ (k : Kinesis) (s : HasTags k) (j : String) where
  attempt_lem :
      (call : k.World → k.World ⊎ String) (m msg : Msg) (w w' : k.World)
      → attempt call m w ≡ done ((true, msg), w')
      → call w ≡ inl w'
  attempt_lem call m msg w w' h = elim (Sum-cases (call w)) [
    | inr (text, e) ↦ cc (rw (e, attempt) at h)
    | inl (v, e) ↦ e ∙ ap (λ x. inl x) (done_inj (rw (e, attempt) at h)).1
  ]

  tags_of-create_tags :
      (ts : Tags) (changed : Bool) (msg : Msg) (w w' : k.World)
      → create_tags k ts false w ≡ done ((true, changed, msg), w')
      → s.tags_of w' j ≡ or_else (value_of j ts) (s.tags_of w j)
  unfolding create_tags tags_action
  tags_of-create_tags [] changed msg w w' h = cc
  tags_of-create_tags (t ∷ ts) changed msg w w' h =
      let ((created, m), v, called, ended) =
        bind-eq-done (attempt (k.add_tags_to_stream (t ∷ ts)) no_message) _ w w' _ h in
      let (same, there) = done_inj ended in
      let c : created ≡ true = ap (λ x. x.0) same in
      s.tags_of-add j (t ∷ ts) w w' (
        attempt_lem (k.add_tags_to_stream (t ∷ ts)) no_message m w w'
          (called ∙ (λ i. done ((c i, m), there i))))

  tags_of-update_rest :
      (ts : Tags) (changed : Bool) (msg : Msg) (w w' : k.World)
      → HasUniqueKeys ts
      → update_rest k ts false w ≡ done ((true, changed, msg), w')
      → s.tags_of w' j ≡ or_else (value_of j ts) (s.tags_of w j)
  unfolding update_rest
  tags_of-update_rest [] changed msg w w' u h =
      ap (λ x. s.tags_of x j) (sym (done_inj h).1) ∙ unfold value_of in refl
  tags_of-update_rest (t ∷ ts) changed msg w w' u h =
      tags_of-create_tags (make_tags_in_proper_format (t ∷ ts)) changed msg w w' h
      ∙ rw (value_of-proper_format j (t ∷ ts) u) refl

  tags_of-replace_tags :
      (gone ts : Tags) (changed : Bool) (msg : Msg) (w w' : k.World)
      → HasUniqueKeys gone
      → HasUniqueKeys ts
      → replace_tags k gone ts false w ≡ done ((true, changed, msg), w')
      → s.tags_of w' j
        ≡ or_else (value_of j ts) (if has_value (value_of j gone) then none else s.tags_of w j)
  unfolding replace_tags tags_action
  tags_of-replace_tags [] ts changed msg w w' ug u h =
      tags_of-update_rest ts changed msg w w' u h ∙ unfold value_of in refl
  tags_of-replace_tags (t ∷ gone) ts changed msg w w' ug u h =
      let dict = make_tags_in_proper_format (t ∷ gone) in
      let ((deleted, m), v, called, after) =
        bind-eq-done (attempt (k.remove_tags_from_stream (keys_of dict)) no_message) _ w w' _ h in
      elim (Bool-cases deleted) [
        | inr failed_ ↦ cc (rw failed_ at after)
        | inl d ↦
            let removed = s.tags_of-remove j (keys_of dict) w v (
              attempt_lem (k.remove_tags_from_stream (keys_of dict)) no_message m w v
                (called ∙ (λ i. done ((d i, m), v)))) in
            tags_of-update_rest ts changed msg v w' u (rw d at after)
            ∙ ap (or_else (value_of j ts)) (
                removed
                ∙ ap (λ (b : Bool). if b then none else s.tags_of w j)
                    (contains-keys_of j dict
                      ∙ ap has_value (value_of-proper_format j (t ∷ gone) ug)))
      ]

  -- the two sets, against what the service had
  tags_of-update_tags :
      (tags l : Tags) (changed : Bool) (msg : Msg) (w w' : k.World)
      → HasUniqueKeys tags
      → k.list_tags_for_stream w ≡ inl l
      → replace_tags k
          (difference (make_tags_in_proper_format l) (make_tags_in_proper_format tags))
          (difference (make_tags_in_proper_format tags) (make_tags_in_proper_format l))
          false
          w
        ≡ done ((true, changed, msg), w')
      → s.tags_of w' j ≡ value_of j tags
  unfolding difference replaced
  tags_of-update_tags tags l changed msg w w' u got h =
      let old = make_tags_in_proper_format l in
      let new = make_tags_in_proper_format tags in
      let uo = proper_format-HasUniqueKeys l in
      let un = proper_format-HasUniqueKeys tags in
      let was : s.tags_of w j ≡ value_of j old =
        sym (s.list-tags_of j w l got) ∙ sym (value_of-proper_format j l (s.list-unique w l got)) in
      tags_of-replace_tags (difference old new) (difference new old) changed msg w w'
        (filter-HasUniqueKeys _ old uo) (filter-HasUniqueKeys _ new un) h
      ∙ rw (value_of-difference j new old un uo, value_of-difference j old new uo un, was)
          (replaced_lem (value_of j old) (value_of j new))
      ∙ value_of-proper_format j tags u

  -- Outside check mode, when `update_tags` succeeds and the tags of the stream could be listed, the
  -- service has exactly the wanted tags: each key has the wanted value, and any other key none.
  pub update_tags_lem :
      (tags l : Tags) (changed : Bool) (msg : Msg) (w w' : k.World)
      → HasUniqueKeys tags
      → k.list_tags_for_stream w ≡ inl l
      → update_tags k tags false w ≡ done ((true, changed, msg), w')
      → s.tags_of w' j ≡ value_of j tags
  unfolding update_tags get_tags
  update_tags_lem tags [] changed msg w w' u got h =
      tags_of-create_tags tags changed msg w w' (rw got at h)
      ∙ rw (← s.list-tags_of j w [] got) (unfold value_of in or_else-none (value_of j tags))
  update_tags_lem tags (t ∷ l) changed msg w w' u got h =
      tags_of-update_tags tags (t ∷ l) changed msg w w' u got (rw got at h)
