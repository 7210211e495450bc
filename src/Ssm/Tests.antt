-- ===== src/Ssm/Tests.antt =====
-- Runs of the functions of aws_ssm.py, and the theorems applied there.
use community_aws.Base.{
  ℕ, zero, suc, ◌<◌, ◌≡◌, refl, true, false, none, some, List, [], ◌∷◌, ◌++◌, arith, string_eq,
  nat_eq, bool_eq, option_eq, value_error, type_error, unbound_local_error, Result, ok, err,
}
use community_aws.Base.Int.{pos, negsuc}
use community_aws.Ssm.Text.{
  Text, codes, is_break, splitlines, second_last, starts_with, has_text, split_last, before_last,
  from_last, int_of, remove_newlines,
}
use community_aws.Ssm.Process.{
  wrap_command, drop_line, post_process, post_process_posix, post_process_windows,
}
use community_aws.Ssm.Process.Laws.{eol, post_process_posix_lem}
use community_aws.Ssm.Exec.{
  Event, exec_once, exited, idle, line, returned, finished, Marks, read_line, exec_command,
}
use community_aws.Ssm.Exec.Laws.{
  joined, lines, ExitsEarly, exec_command_between, exec_command_exited, exec_command_recovers,
}
use community_aws.Ssm.Retry.{sleep, close, pause}
use community_aws.Ssm.Retry.Laws.{waits}

abbrev hello : Text
hello = codes "hello"

splitlines-run : splitlines (codes "a\r\nb\n\r") ≡ codes "a" ∷ codes "b" ∷ [] ∷ []
unfolding splitlines is_break
splitlines-run = refl

int_of-run :
    (int_of (codes " -12 ") ≡ some (negsuc 11))
    × (int_of (codes "1_0") ≡ some (pos 10))
    × (int_of (codes "") ≡ none)
unfolding int_of
int_of-run = (refl, refl, refl)

wrap-run :
    wrap_command
      (record { encode_script = λ s. s; encoded_command = [] })
      false
      (codes "id")
      true
      (codes "A")
      (codes "B")
    ≡ codes "echo A\nsudo id\necho $'\\n'$?\necho B\n"
unfolding wrap_command starts_with
wrap-run = refl

windows-run : post_process_windows (codes "{\n}A x\n3\n") (codes "A") ≡ ok (pos 3, codes "{}")
unfolding post_process_windows before_last from_last split_last starts_with splitlines is_break
    int_of remove_newlines
windows-run = refl

-- The guard on the exit code lets a text through that is no number.
windows-not_a_number : post_process_windows (codes "A x\nnone\n") (codes "A") ≡ err value_error
unfolding post_process_windows before_last from_last split_last starts_with splitlines is_break
    int_of remove_newlines
windows-not_a_number = refl

status-read : int_of (codes "0") ≡ some (pos 0)
unfolding int_of
status-read = refl

post_process_posix_lem_example :
    post_process_posix (hello ++ eol ++ eol ++ codes "0" ++ eol) ≡ ok (pos 0, hello ++ 13 ∷ 13 ∷ [])
unfolding is_break
post_process_posix_lem_example =
    post_process_posix_lem hello (codes "0") (pos 0) (refl, tt) status-read

abbrev marks : Marks
marks = record { is_windows = false; mark_begin = codes "ABC"; mark_end = codes "XYZ" }

abbrev body : List Text
body = (hello ++ eol) ∷ eol ∷ (codes "0" ++ eol) ∷ []

exec_command_between_example :
    exec_once marks (
      lines (codes "motd" ∷ [])
      ++ line (codes "ABC\n") ∷ (lines body ++ line (codes "XYZ\n") ∷ exited ∷ []))
    ≡ finished (post_process false (joined body) marks.mark_begin)
unfolding has_text starts_with
exec_command_between_example =
    exec_command_between marks refl (codes "motd" ∷ []) body (codes "ABC\n") (codes "XYZ\n")
      (exited ∷ []) (refl, tt) refl ((refl, refl), ((refl, refl), ((refl, refl), tt))) refl refl

exec_once-run :
    exec_once marks (line (codes "ABC\n") ∷ (lines body ++ line (codes "XYZ\n") ∷ []))
    ≡ returned (pos 0) (hello ++ 13 ∷ 13 ∷ [])
unfolding exec_once read_line has_text starts_with post_process drop_line before_last split_last
    splitlines is_break second_last int_of
exec_once-run = refl

-- a call whose session exits behind two lines
abbrev exits : Marks × List Event
exits = (marks, idle ∷ line (codes "ABC\n") ∷ line hello ∷ exited ∷ [])

exits-ExitsEarly : ExitsEarly exits
unfolding has_text starts_with
exits-ExitsEarly =
    (idle ∷ line (codes "ABC\n") ∷ line hello ∷ [], [], refl, (tt, (refl, (refl, tt))))

exec_command_exited_example : exec_command (λ k. exits) 3 ≡ (waits 0 3, err unbound_local_error)
exec_command_exited_example = exec_command_exited (λ k. exits) 3 (λ k b. exits-ExitsEarly)

abbrev speaks : Marks × List Event
speaks = (
  marks,
  lines (codes "motd" ∷ [])
      ++ line (codes "ABC\n") ∷ (lines body ++ line (codes "XYZ\n") ∷ exited ∷ []),
)

-- The first session exits, and the others answer.
abbrev second_speaks : ℕ → Marks × List Event
second_speaks zero = exits
second_speaks (suc k) = speaks

first-ExitsEarly : (k : ℕ) → k < 1 → ExitsEarly (second_speaks k)
first-ExitsEarly zero b = exits-ExitsEarly
first-ExitsEarly (suc k) b = absurd (omega (arith, b))

body_status : post_process false (joined body) marks.mark_begin ≡ ok (pos 0, hello ++ 13 ∷ 13 ∷ [])
unfolding post_process drop_line before_last split_last splitlines is_break second_last int_of
    starts_with
body_status = refl

exec_command_recovers_example :
    exec_command second_speaks 3 ≡ (waits 0 1, ok (some (pos 0, hello ++ 13 ∷ 13 ∷ [])))
unfolding has_text starts_with
exec_command_recovers_example =
    exec_command_recovers second_speaks 1 3 marks (codes "motd" ∷ []) body (codes "ABC\n")
      (codes "XYZ\n") (hello ++ 13 ∷ 13 ∷ []) (exited ∷ []) (pos 0) first-ExitsEarly (omega arith)
      refl refl (refl, tt) refl ((refl, refl), ((refl, refl), ((refl, refl), tt))) refl refl
      body_status

-- fails twice, then succeeds
abbrev third_time : ℕ → Result ℕ
third_time zero = err type_error
third_time (suc zero) = err value_error
third_time (suc (suc n)) = ok n

pauses :
    waits 0 6
    ≡ sleep 0
      ∷ close
      ∷ sleep 1
      ∷ close
      ∷ sleep 3
      ∷ close
      ∷ sleep 7
      ∷ close
      ∷ sleep 15
      ∷ close
      ∷ sleep 30
      ∷ close
      ∷ []
unfolding pause
pauses = refl
