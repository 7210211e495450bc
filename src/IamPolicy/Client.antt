-- ===== src/IamPolicy/Client.antt =====
-- The calls of iam_policy.py: boto3's IAM client, the `json` module, `open`, and `compare_policies`
-- of the collection amazon.aws. They are outside the repository.
use community_aws.Base.{
  String, ◌≡◌, Bool, true, false, Option, none, some, List, [], contains, string_eq, nat_eq,
  bool_eq, option_eq, Error, Result, ok,
}

-- what `open` and `read` give
pub data File : Type 0 where
  content : String → File
  -- an IOError with errno 2
  missing : File
  unreadable : Error → File

-- `Document` is what a JSON text decodes to, `null` included. A list of policies is the key
-- PolicyNames of the answer.
pub record Iam : Type 1 where
  pub World : Type 0
  pub Document : Type 0
  pub null : Document
  pub list_user_policies : String → World → Result (Option (List String))
  pub list_role_policies : String → World → Result (Option (List String))
  pub list_group_policies : String → World → Result (Option (List String))
  pub get_user_policy : String → String → World → Result Document
  pub get_role_policy : String → String → World → Result Document
  pub get_group_policy : String → String → World → Result Document
  pub put_user_policy : String → String → String → World → Result World
  pub put_role_policy : String → String → String → World → Result World
  pub put_group_policy : String → String → String → World → Result World
  pub delete_user_policy : String → String → World → Result World
  pub delete_role_policy : String → String → World → Result World
  pub delete_group_policy : String → String → World → Result World
  pub dumps : Document → String
  -- none is a JSONDecodeError
  pub loads : String → Option Document
  pub open_file : String → File
  -- true if the two differ
  pub compare_policies : Document → Document → Bool

-- the subclasses of `Policy`
pub data Kind : Type 0 where
  user_policy role_policy group_policy : Kind

-- `_iam_type`
abbrev pub iam_type : Kind → String
iam_type user_policy = "user"
iam_type role_policy = "role"
iam_type group_policy = "group"

module _ (c : Iam) where
  -- `_list`, `_get`, `_put` and `_delete`
  unfoldable pub list_policies : Kind → String → c.World → Result (Option (List String))
  list_policies user_policy name w = c.list_user_policies name w
  list_policies role_policy name w = c.list_role_policies name w
  list_policies group_policy name w = c.list_group_policies name w

  unfoldable pub get_policy : Kind → String → String → c.World → Result c.Document
  get_policy user_policy name policy w = c.get_user_policy name policy w
  get_policy role_policy name policy w = c.get_role_policy name policy w
  get_policy group_policy name policy w = c.get_group_policy name policy w

  unfoldable pub put_policy : Kind → String → String → String → c.World → Result c.World
  put_policy user_policy name policy doc w = c.put_user_policy name policy doc w
  put_policy role_policy name policy doc w = c.put_role_policy name policy doc w
  put_policy group_policy name policy doc w = c.put_group_policy name policy doc w

  unfoldable pub delete_policy : Kind → String → String → c.World → Result c.World
  delete_policy user_policy name policy w = c.delete_user_policy name policy w
  delete_policy role_policy name policy w = c.delete_role_policy name policy w
  delete_policy group_policy name policy w = c.delete_group_policy name policy w

  -- `.get('PolicyNames', [])`
  abbrev pub names_of : Option (List String) → List String
  names_of none = []
  names_of (some l) = l

-- What IAM and the helpers document: a policy that was put is listed and read back, a deleted one
-- is not listed, a document is decoded as it was encoded and does not differ from itself.
pub record IsIam (c : Iam) : Type 0 where
  pub list-put :
      (k : Kind) (n p t : String) (w w' : c.World) (l : Option (List String))
      → put_policy c k n p t w ≡ ok w'
      → list_policies c k n w' ≡ ok l
      → contains p (names_of c l) ≡ true
  pub get-put :
      (k : Kind) (n p : String) (d e : c.Document) (w w' : c.World)
      → put_policy c k n p (c.dumps d) w ≡ ok w'
      → get_policy c k n p w' ≡ ok e
      → c.loads (c.dumps d) ≡ some e
  pub loads-dumps : (d : c.Document) → c.loads (c.dumps d) ≡ some d
  pub list-delete :
      (k : Kind) (n p : String) (w w' : c.World) (l : Option (List String))
      → delete_policy c k n p w ≡ ok w'
      → list_policies c k n w' ≡ ok l
      → contains p (names_of c l) ≡ false
  pub compare-same : (d : c.Document) → c.compare_policies d d ≡ false
