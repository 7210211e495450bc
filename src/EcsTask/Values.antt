-- ===== src/EcsTask/Values.antt =====
-- The values of JSON, as `plugins/modules/ecs_taskdefinition.py` reads them: their truth, Python's
-- `==`, `len` and `in`. A number is an integer; dictionaries keep the order of their keys, which
-- `==` does not see.
use community_aws.Base.{
  is_within, ℕ, suc, String, Bool, true, false, ◌&&◌, not, Option, none, some, eqb, if◌then◌else◌,
  ◌==◌, string_eq, nat_eq, bool_eq, option_eq, type_error, Result, ok, err,
}
use community_aws.Base.Int.{ℤ, pos, eqb_ℤ}

mutual
  pub data Value : Type 0 where
    null : Value
    boolean : Bool → Value
    number : ℤ → Value
    text : String → Value
    list : Items → Value
    dict : Fields → Value

  pub data Items : Type 0 where
    nil : Items
    cons : Value → Items → Items

  pub data Fields : Type 0 where
    end : Fields
    field : String → Value → Fields → Fields

-- `d.get(k)`
unfoldable pub lookup : String → Fields → Option Value
lookup k end = none
lookup k (field j v d) = if j == k then some v else lookup k d

abbrev pub length_items : Items → ℕ
length_items nil = 0
length_items (cons v l) = suc (length_items l)

abbrev pub length_fields : Fields → ℕ
length_fields end = 0
length_fields (field k v d) = suc (length_fields d)

-- True is 1, and False is 0.
abbrev pub of_bool : Bool → ℤ
of_bool b = if b then pos 1 else pos 0

-- `v == u`, for a u that may be missing
unfoldable mutual
  pub equal : Value → Value → Bool
  equal null null = true
  equal (boolean b) (boolean c) = b == c
  equal (boolean b) (number n) = eqb_ℤ (of_bool b) n
  equal (number n) (boolean b) = eqb_ℤ n (of_bool b)
  equal (number n) (number m) = eqb_ℤ n m
  equal (text s) (text t) = s == t
  equal (list l) (list m) = equal_items l m
  equal (dict d) (dict e) = eqb (length_fields d) (length_fields e) && equal_fields d e
  equal _ _ = false

  pub equal_items : Items → Items → Bool
  equal_items nil nil = true
  equal_items (cons v l) (cons u m) = equal v u && equal_items l m
  equal_items _ _ = false

  -- the keys of the first have equal values in the second
  pub equal_fields : Fields → Fields → Bool
  equal_fields end e = true
  equal_fields (field k v d) e =
      elim (lookup k e) [ none ↦ false | some u ↦ equal v u ] && equal_fields d e

-- the truth of a value
abbrev pub truthy : Value → Bool
truthy null = false
truthy (boolean b) = b
truthy (number n) = not (eqb_ℤ n (pos 0))
truthy (text String.[]) = false
truthy (text (String.◌∷◌ c s)) = true
truthy (list nil) = false
truthy (list (cons v l)) = true
truthy (dict end) = false
truthy (dict (field k v d)) = true

-- `k in right and right[k]`
abbrev pub truthy_at : Option Value → Bool
truthy_at none = false
truthy_at (some v) = truthy v

abbrev pub text_length : String → ℕ
text_length String.[] = 0
text_length (String.◌∷◌ c s) = suc (text_length s)

-- `len(v or [])`
abbrev pub length_or : Value → Result ℕ
length_or (boolean true) = err type_error
length_or (number n) = if eqb_ℤ n (pos 0) then ok 0 else err type_error
length_or null = ok 0
length_or (boolean false) = ok 0
length_or (text s) = ok (text_length s)
length_or (list l) = ok (length_items l)
length_or (dict d) = ok (length_fields d)

unfoldable pub item_in : Value → Items → Bool
unfolding equal
item_in v nil = false
item_in v (cons u l) = if equal v u then true else item_in v l

-- a key of a dictionary is a text here, and lists and dictionaries are no keys
abbrev key_in : Value → Fields → Result Bool
key_in (text s) d = ok (elim (lookup s d) [ none ↦ false | some u ↦ true ])
key_in (list l) d = err type_error
key_in (dict e) d = err type_error
key_in _ d = ok false

abbrev text_in : Value → String → Result Bool
text_in (text s) t = ok (is_within s t)
text_in _ t = err type_error

-- `v in (u or [])`
unfoldable pub value_in : Value → Value → Result Bool
unfolding item_in lookup
value_in v (list l) = ok (item_in v l)
value_in v (dict end) = ok false
value_in v (dict (field k u d)) = key_in v (field k u d)
value_in v (text String.[]) = ok false
value_in v (text (String.◌∷◌ c s)) = text_in v (String.◌∷◌ c s)
value_in v null = ok false
value_in v (boolean b) = if b then err type_error else ok false
value_in v (number n) = if eqb_ℤ n (pos 0) then ok false else err type_error
