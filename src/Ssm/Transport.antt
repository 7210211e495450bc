-- ===== src/Ssm/Transport.antt =====
-- `_file_transport_command`, `put_file` and `fetch_file`: a file moves through an object of an S3
-- bucket. A zero return code is what the code tests; whether the file is there is the host's matter.
-- Running a command, the presigned URLs, the bucket and the local files are an interface.
mod Tests
use community_aws.Base.{
  ℕ, zero, suc, ◌+◌, ◌-◌, ◌*◌, ◌≤◌, ◌<◌, String, ◌≡◌, refl, sym, ap, ◌∙◌, ◌≢◌, ◌↔◌, ◌⊎◌, inl, inr,
  Bool, true, false, ◌&&◌, ◌||◌, not, Option, none, some, List, [], ◌∷◌, ◌++◌, map, arith,
  ℕ_discrete, ltb, leb, eqb, if◌then◌else◌, Bool-cases, Sum-cases, Option-cases, eqb_iff, length,
  take, drop, filter, any, all, All, filter-filter, filter-append, contains, contains-append,
  contains-filter, length-append, length-take, length-drop, take-append-drop, Eq, ◌==◌, ==_iff,
  ==_refl, ==_false, String-discrete, string_eq, nat_eq, bool_eq, option_eq, Option-discrete, upper,
  Error, key_error, value_error, type_error, index_error, unbound_local_error, fail_json,
  client_error, Result, ok, err, ◌>>=◌, ◌>>◌, or_raise, raise_if, >>=-eq-ok, for_each, Result-cases,
  ok_pair, ok_inj, some_ok_pair,
}
use community_aws.Base.Int.{ℤ, pos, negsuc}
use community_aws.Ssm.Text.{Text, codes}

pub data SsmAction : Type 0 where
  get put : SsmAction

-- `exec` is `exec_command` with `sudoable` off: the return code and the two outputs. A call that
-- raises leaves no state.
pub record Env : Type 1 where
  pub World : Type 0
  pub exec : Text → World → Result ((ℤ × Text × Text) × World)
  pub put_url : Text → Text
  pub get_url : Text → Text
  -- `upload_fileobj` and `download_fileobj`: a local file and the key of an object
  pub upload : Text → Text → World → Result World
  pub download : Text → Text → World → Result World
  -- `os.path.exists`, of a local file
  pub exists : Text → World → Bool

-- `out_path.replace('\\', '/')`
unfoldable pub s3_path : Text → Text
s3_path [] = []
s3_path (c ∷ s) = (if eqb c 92 then 47 else c) ∷ s3_path s

-- `"... '%s' ... '%s'..." % (a, b)`
abbrev pub quoted : Text → Text
quoted s = 39 ∷ (s ++ 39 ∷ [])

unfoldable pub put_command : Bool → Text → Text → Text
put_command is_windows in_path url =
    if is_windows
    then codes "Invoke-WebRequest -Method PUT -InFile "
      ++ quoted in_path
      ++ codes " -Uri "
      ++ quoted url
      ++ codes " -UseBasicParsing"
    else codes "curl --request PUT --upload-file " ++ quoted in_path ++ codes " " ++ quoted url

unfoldable pub get_command : Bool → Text → Text → Text
get_command is_windows url out_path =
    if is_windows
    then codes "Invoke-WebRequest " ++ quoted url ++ codes " -OutFile " ++ quoted out_path
    else codes "curl " ++ quoted url ++ codes " -o " ++ quoted out_path

module _ (env : Env) (is_windows : Bool) where
  -- the test of the return code
  abbrev pub checked : (ℤ × Text × Text) × env.World → Result ((ℤ × Text × Text) × env.World)
  checked ((pos zero, out, errors), w) = ok ((pos 0, out, errors), w)
  checked ((pos (suc n), out, errors), w) = err (client_error "AnsibleError")
  checked ((negsuc n, out, errors), w) = err (client_error "AnsibleError")

  -- one call of `_file_transport_command`, without the decorator
  unfoldable pub file_transport_command :
      Text → Text → SsmAction → env.World → Result ((ℤ × Text × Text) × env.World)
  file_transport_command in_path out_path get w = do
    (result, w1) ← env.exec (put_command is_windows in_path (env.put_url (s3_path out_path))) w
    w2 ← env.download (s3_path out_path) out_path w1
    checked (result, w2)
  file_transport_command in_path out_path put w = do
    w1 ← env.upload in_path (s3_path out_path) w
    (result, w2) ← env.exec (get_command is_windows (env.get_url (s3_path out_path)) out_path) w1
    checked (result, w2)

  unfoldable pub put_file : Text → Text → env.World → Result ((ℤ × Text × Text) × env.World)
  put_file in_path out_path w =
      if not (env.exists in_path w)
      then err (client_error "AnsibleFileNotFound")
      else file_transport_command in_path out_path put w

  unfoldable pub fetch_file : Text → Text → env.World → Result ((ℤ × Text × Text) × env.World)
  fetch_file in_path out_path w = file_transport_command in_path out_path get w
