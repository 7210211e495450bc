-- ===== src/Kinesis/Tags.antt =====
-- `get_tags`, the conversions of tags, and `update_tags`. A set of pairs keeps the order of the
-- dictionary that it was made of; Python's own order is not known, and the calls do not depend on it.
pub mod Laws
pub mod Service
use community_aws.Base.{
  is_empty, ℕ, zero, suc, ◌+◌, ◌-◌, ◌*◌, ◌≤◌, ◌<◌, String, ◌≡◌, refl, sym, ap, ◌∙◌, ◌≢◌, ◌↔◌, ◌⊎◌,
  inl, inr, Bool, true, false, ◌&&◌, ◌||◌, not, Option, none, some, List, [], ◌∷◌, ◌++◌, map, arith,
  ℕ_discrete, ltb, leb, eqb, if◌then◌else◌, Bool-cases, Sum-cases, Option-cases, eqb_iff, length,
  take, drop, filter, any, all, All, filter-filter, filter-append, contains, contains-append,
  contains-filter, length-append, length-take, length-drop, take-append-drop, Eq, ◌==◌, ==_iff,
  ==_refl, ==_false, String-discrete, string_eq, nat_eq, bool_eq, option_eq, Option-discrete, upper,
  Error, key_error, value_error, type_error, index_error, unbound_local_error, fail_json,
  client_error, Result, ok, err, ◌>>◌, or_raise, raise_if, >>=-eq-ok, for_each, Result-cases,
  ok_pair, ok_inj, some_ok_pair,
}
use community_aws.Base.Run.{Run, Outcome, done, return_, look, ◌>>=◌}
use community_aws.Kinesis.Client.{Tags, Msg, no_message, failed, tags_up_to_date, Kinesis}
use community_aws.Kinesis.Actions.{TagsAction, tags_action, keys_of}

-- `d[k] = v`
unfoldable pub put_tag : String → String → Tags → Tags
put_tag k v [] = (k, v) ∷ []
put_tag k v ((j, u) ∷ d) = if j == k then (k, v) ∷ d else (j, u) ∷ put_tag k v d

tags_onto : Tags → Tags → Tags
unfolding put_tag
tags_onto [] d = d
tags_onto ((k, v) ∷ l) d = tags_onto l (put_tag k v d)

-- a list of {Key, Value} made a dictionary: a later entry of the same key wins
unfoldable pub make_tags_in_proper_format : Tags → Tags
unfolding tags_onto
make_tags_in_proper_format l = tags_onto l []

-- a dictionary made a list of {Key, Value}: both are lists of pairs here
abbrev pub make_tags_in_aws_format : Tags → Tags
make_tags_in_aws_format d = d

-- a list of pairs made a list of {Key, Value}
abbrev pub recreate_tags_from_list : Tags → Tags
recreate_tags_from_list l = l

abbrev pub same_tag : String × String → String × String → Bool
same_tag (k, v) (j, u) = (k == j) && (v == u)

unfoldable pub has_tag : String × String → Tags → Bool
has_tag t [] = false
has_tag t (u ∷ l) = same_tag t u || has_tag t l

-- `a.difference(b)`
unfoldable pub difference : Tags → Tags → Tags
unfolding has_tag
difference a b = filter (λ t. not (has_tag t b)) a

module _ (k : Kinesis) where
  -- the list of {Key, Value}, empty after a ClientError
  unfoldable pub get_tags : Bool → k.World → Bool × Msg × Tags
  get_tags check_mode w =
      if check_mode
      then (true, no_message, ("DryRunMode", "true") ∷ [])
      else elim (k.list_tags_for_stream w) [
        | inl tags ↦ (true, no_message, tags)
        | inr m ↦ (false, failed m, [])
      ]

  -- the last part, from `if tags`: `success` and `err_msg` are those of the start of the function
  unfoldable pub create_tags : Tags → Bool → Run k.World (Bool × Bool × Msg)
  create_tags tags check_mode =
      if is_empty tags
      then return_ (false, false, no_message)
      else tags_action k tags TagsAction.create check_mode >>= λ (created, msg).
          return_ (created, created, msg)

  -- what follows the deletion
  unfoldable pub update_rest : Tags → Bool → Run k.World (Bool × Bool × Msg)
  unfolding create_tags
  update_rest to_update check_mode =
      if is_empty to_update
      then return_ (true, false, tags_up_to_date)
      else create_tags (make_tags_in_proper_format (recreate_tags_from_list to_update)) check_mode

  -- the block on `current_tags`, from the two sets
  unfoldable pub replace_tags : Tags → Tags → Bool → Run k.World (Bool × Bool × Msg)
  unfolding update_rest
  replace_tags to_delete to_update check_mode =
      if is_empty to_delete
      then update_rest to_update check_mode
      else tags_action k (make_tags_in_proper_format (recreate_tags_from_list to_delete))
          TagsAction.delete check_mode
        >>= λ (deleted, msg).
            if deleted then update_rest to_update check_mode else return_ (false, false, msg)

  -- the result: success, changed, and the message
  unfoldable pub update_tags : Tags → Bool → Run k.World (Bool × Bool × Msg)
  unfolding create_tags replace_tags
  update_tags tags check_mode = look (get_tags check_mode) >>= λ (found, msg, current).
      let old = make_tags_in_proper_format current in
      let new = make_tags_in_proper_format (make_tags_in_aws_format tags) in
      if is_empty current
      then create_tags tags check_mode
      else replace_tags (difference old new) (difference new old) check_mode
