-- ===== src/IamPolicy/Policy.antt =====
-- The class `Policy` of iam_policy.py. The field `changed` is part of what each operation returns.
pub mod Laws
use community_aws.Base.{
  ℕ, zero, suc, ◌+◌, ◌-◌, ◌*◌, ◌≤◌, ◌<◌, String, ◌≡◌, refl, sym, ap, ◌∙◌, ◌≢◌, ◌↔◌, ◌⊎◌, inl, inr,
  Bool, true, false, ◌&&◌, ◌||◌, not, Option, none, some, List, [], ◌∷◌, ◌++◌, map, arith,
  ℕ_discrete, ltb, leb, eqb, if◌then◌else◌, Bool-cases, Sum-cases, Option-cases, eqb_iff, length,
  take, drop, filter, any, all, All, filter-filter, filter-append, contains, contains-append,
  contains-filter, length-append, length-take, length-drop, take-append-drop, Eq, ◌==◌, ==_iff,
  ==_refl, ==_false, String-discrete, string_eq, nat_eq, bool_eq, option_eq, Option-discrete, upper,
  Error, key_error, value_error, type_error, index_error, unbound_local_error, fail_json,
  client_error, Result, ok, err, ◌>>=◌, ◌>>◌, or_raise, raise_if, >>=-eq-ok, for_each, Result-cases,
  ok_pair, ok_inj, some_ok_pair,
}
use community_aws.IamPolicy.Client.{
  File, content, missing, unreadable, Iam, Kind, iam_type, list_policies, get_policy, put_policy,
  delete_policy, names_of,
}

pub data State : Type 0 where
  present absent : State

module _ (c : Iam) where
  -- the parameter `policy_json`, a text or a value
  pub data PolicyJson : Type 0 where
    text : String → PolicyJson
    value : c.Document → PolicyJson

  pub record Policy : Type 0 where
    pub kind : Kind
    pub name : String
    pub policy_name : String
    pub policy_document : Option String
    pub policy_json : Option PolicyJson
    pub skip_duplicates : Bool
    pub state : State
    pub check_mode : Bool

  -- the dictionary that `run` returns
  pub record Report : Type 0 where
    pub changed : Bool
    pub type_name : String
    pub name : String
    pub policies : List String

  unfoldable pub list_names : Policy → c.World → Result (List String)
  list_names p w = list_policies c p.kind p.name w >>= λ l. ok (names_of c l)

  -- `json.loads`, with the exception that `get_policy_text` makes of it
  abbrev pub decode : String → Result c.Document
  decode s = or_raise (client_error "PolicyError") (c.loads s)

  get_policy_from_document : String → Result c.Document
  get_policy_from_document path = elim (c.open_file path) [
    | content s ↦ decode s
    | missing ↦ err (client_error "PolicyError")
    | unreadable e ↦ err e
  ]

  get_policy_from_json : PolicyJson → Result c.Document
  get_policy_from_json (text s) = decode s
  get_policy_from_json (value d) = ok d

  unfoldable pub get_policy_text : Policy → Result c.Document
  unfolding get_policy_from_document get_policy_from_json
  get_policy_text p = elim p.policy_document [
    | some path ↦ get_policy_from_document path
    | none ↦ elim p.policy_json [ some j ↦ get_policy_from_json j | none ↦ ok c.null ]
  ]

  unfoldable pub put : Policy → c.Document → c.World → Result (Bool × c.World)
  put p doc w =
      if p.check_mode
      then ok (true, w)
      else put_policy c p.kind p.name p.policy_name (c.dumps doc) w >>= λ w'. ok (true, w')

  unfoldable pub delete : Policy → c.World → Result (Bool × c.World)
  delete p w = list_names p w >>= λ names.
      if not (contains p.policy_name names)
      then ok (false, w)
      else if p.check_mode
      then ok (true, w)
      else delete_policy c p.kind p.name p.policy_name w >>= λ w'. ok (true, w')

  -- the loop of `create`: `matching_policies` and `policy_match`
  unfoldable pub matching :
      Policy → c.Document → c.World → List String → Result (List String × Bool)
  matching p doc w [] = ok ([], false)
  matching p doc w (pol ∷ names) = get_policy c p.kind p.name pol w >>= λ d.
      matching p doc w names >>= λ (found, match_).
      ok (if not (c.compare_policies d doc) then (pol ∷ found, true) else (found, match_))

  unfoldable pub create : Policy → c.World → Result (Bool × c.World)
  create p w = do
    policy_doc ← get_policy_text p
    names ← list_names p w
    (matching_policies, policy_match) ← matching p policy_doc w names
    if not (contains p.policy_name matching_policies) && not (p.skip_duplicates && policy_match)
        then put p policy_doc w
        else ok (false, w)

  abbrev pub act : State → Policy → c.World → Result (Bool × c.World)
  act present p w = create p w
  act absent p w = delete p w

  unfoldable pub run : Policy → c.World → Result (Report × c.World)
  run p w = do
    (changed, w') ← act p.state p w
    names ← list_names p w'
    ok (
      record { changed = changed; type_name = iam_type p.kind; name = p.name; policies = names },
      w',
    )
