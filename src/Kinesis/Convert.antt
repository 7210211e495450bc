-- ===== src/Kinesis/Convert.antt =====
-- `convert_to_lower`: the renaming of the keys of a report.
use community_aws.Base.{
  ℕ, ◌+◌, String, ◌≡◌, refl, Bool, ◌&&◌, ◌||◌, not, leb, eqb, if◌then◌else◌, ◌==◌, string_eq,
  nat_eq, bool_eq, option_eq, lower, lower, index_error, Result, ok, err, ◌>>=◌,
}
use Prim.Native.Char.{Char, code}

-- the values of a report; `scalar` is any value that is no date, dictionary or list
mutual
  pub data Data : Type 0 where
    -- a date, with its `isoformat()`
    datetime : String → Data
    dict : Fields → Data
    list : Items → Data
    scalar : String → Data

  pub data Items : Type 0 where
    nil : Items
    cons : Data → Items → Items

  pub data Fields : Type 0 where
    end : Fields
    field : String → Data → Fields → Fields

abbrev is_upper : Char → Bool
is_upper c = leb 65 (code c) && leb (code c) 90

abbrev joined : String → String → String
joined String.[] t = t
joined (String.◌∷◌ c s) t = String.◌∷◌ c (joined s t)

-- the substitution of `(([A-Z]{1,3}){1})` by `_\1`: an underscore in front of each group of capital
-- letters, of three at most; the number counts the letters of the group so far
unfoldable pub separate : ℕ → String → String
separate n String.[] = String.[]
separate n (String.◌∷◌ c s) =
    let plain = String.◌∷◌ c (separate 0 s) in
    let first = joined "_" (String.◌∷◌ c (separate 1 s)) in
    let next = String.◌∷◌ c (separate (n + 1) s) in
    if not (is_upper c) then plain else if eqb n 0 || eqb n 3 then first else next

-- `if key[0] == '_': key = key[1:]`, where 95 is the code of the underscore
unfoldable pub drop_underscore : String → Result String
drop_underscore String.[] = err index_error
drop_underscore (String.◌∷◌ c s) = ok (if eqb (code c) 95 then s else String.◌∷◌ c s)

unfoldable pub lower_key : String → Result String
unfolding separate drop_underscore lower
lower_key key = drop_underscore (lower (separate 0 key))

-- `results[key] = value`
unfoldable pub put_field : String → Data → Fields → Fields
put_field k v end = field k v end
put_field k v (field j u d) = if j == k then field j v d else field j u (put_field k v d)

-- The function on a dictionary, with the results so far; what is no dictionary gives an empty one.
unfoldable mutual
  unfolding lower_key put_field

  pub convert_fields : Fields → Fields → Result Fields
  convert_fields end results = ok results
  convert_fields (field key val d) results =
      lower_key key >>= λ k. convert_value val >>= λ v. convert_fields d (put_field k v results)

  pub convert_value : Data → Result Data
  convert_value (datetime s) = ok (scalar s)
  convert_value (dict d) = convert_fields d end >>= λ r. ok (dict r)
  convert_value (list l) = convert_items l >>= λ r. ok (list r)
  convert_value (scalar s) = ok (scalar s)

  pub convert_items : Items → Result Items
  convert_items nil = ok nil
  convert_items (cons x l) =
      convert_to_lower x >>= λ y. convert_items l >>= λ m. ok (cons (dict y) m)

  pub convert_to_lower : Data → Result Fields
  convert_to_lower (dict d) = convert_fields d end
  convert_to_lower _ = ok end

key_run : lower_key "StreamARN" ≡ ok "stream_arn"
unfolding lower_key separate drop_underscore lower
key_run = refl

lost_run :
    convert_to_lower (dict (field "ShardLevelMetrics" (list (cons (scalar "ALL") nil)) end))
    ≡ ok (field "shard_level_metrics" (list (cons (dict end) nil)) end)
unfolding convert_to_lower
lost_run = refl
