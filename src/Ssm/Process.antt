-- ===== src/Ssm/Process.antt =====
-- `_wrap_command` and `_post_process`.
pub mod Laws
use community_aws.Base.{
  ℕ, zero, suc, ◌+◌, ◌-◌, ◌*◌, ◌≤◌, ◌<◌, String, ◌≡◌, refl, sym, ap, ◌∙◌, ◌≢◌, ◌↔◌, ◌⊎◌, inl, inr,
  Bool, true, false, ◌&&◌, ◌||◌, not, Option, none, some, List, [], ◌∷◌, ◌++◌, map, arith,
  ℕ_discrete, ltb, leb, eqb, if◌then◌else◌, Bool-cases, Sum-cases, Option-cases, eqb_iff, length,
  take, drop, filter, any, all, All, filter-filter, filter-append, contains, contains-append,
  contains-filter, length-append, length-take, length-drop, take-append-drop, Eq, ◌==◌, ==_iff,
  ==_refl, ==_false, String-discrete, string_eq, nat_eq, bool_eq, option_eq, Option-discrete, upper,
  Error, key_error, value_error, type_error, index_error, unbound_local_error, fail_json,
  client_error, Result, ok, err, ◌>>=◌, ◌>>◌, or_raise, raise_if, >>=-eq-ok, for_each, Result-cases,
  ok_pair, ok_inj, some_ok_pair,
}
use community_aws.Base.Int.{ℤ}
use community_aws.Ssm.Text.{
  Text, codes, splitlines, second_last, starts_with, before_last, from_last, int_of,
  remove_newlines,
}

-- What `_wrap_command` takes of Ansible's shell plugin: `_encode_script(cmd, preserve_rc=True)`,
-- and `" ".join(_common_args) + " -EncodedCommand"`.
pub record Shell : Type 0 where
  pub encode_script : Text → Text
  pub encoded_command : Text

unfoldable pub wrap_command : Shell → Bool → Text → Bool → Text → Text → Text
wrap_command shell is_windows cmd sudoable mark_start mark_end =
    if is_windows
    then (if starts_with cmd shell.encoded_command then cmd else shell.encode_script cmd)
      ++ codes "; echo "
      ++ mark_start
      ++ 10 ∷ codes "echo "
      ++ mark_end
      ++ 10 ∷ []
    else codes "echo "
      ++ mark_start
      ++ 10 ∷ (if sudoable then codes "sudo " ++ cmd else cmd)
      ++ 10 ∷ codes "echo $'\\n'$?"
      ++ 10 ∷ codes "echo "
      ++ mark_end
      ++ 10 ∷ []

abbrev pub second {ℓ} : {A : Type ℓ} → List A → Option A
second [] = none
second (x ∷ []) = none
second (x ∷ y ∷ l) = some y

-- `int(s)`
abbrev pub int_or_raise : Text → Result ℤ
int_or_raise s = or_raise value_error (int_of s)

-- Windows: the exit code is the line behind the mark. The test `last_exit_code.isdigit` names the
-- method and does not call it, so it is true for every text.
unfoldable pub post_process_windows : Text → Text → Result (ℤ × Text)
post_process_windows stdout mark_begin = do
  last_exit_code ← or_raise index_error (second (splitlines (from_last mark_begin stdout)))
  returncode ← int_or_raise last_exit_code
  let kept = before_last mark_begin stdout
  ok (returncode, if starts_with kept (codes "{") then remove_newlines kept else kept)

-- `stdout = stdout[:stdout.rfind('\n')]`
unfoldable pub drop_line : Text → Text
drop_line = before_last (10 ∷ [])

unfoldable pub post_process_posix : Text → Result (ℤ × Text)
post_process_posix stdout = do
  line ← or_raise index_error (second_last (splitlines stdout))
  returncode ← int_or_raise line
  ok (returncode, drop_line (drop_line (drop_line stdout)))

unfoldable pub post_process : Bool → Text → Text → Result (ℤ × Text)
unfolding post_process_windows post_process_posix
post_process is_windows stdout mark_begin =
    if is_windows then post_process_windows stdout mark_begin else post_process_posix stdout
