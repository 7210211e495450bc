-- ===== src/Ssm/Exec.antt =====
-- `exec_command`: the loop that reads the session's output between the two marks. Each round of
-- the `while` sees one event; a line is the text that `_filter_ansi` returns. Waiting for the
-- session, the clock and the terminal are the environment, which chooses the events. `exec_once` is
-- one call of the function, and `exec_command` the calls that its decorator makes.
pub mod Laws
use community_aws.Base.{
  some_inj, is_within, is_empty, ℕ, zero, suc, ◌+◌, ◌-◌, ◌*◌, ◌≤◌, ◌<◌, String, ◌≡◌, refl, sym, ap,
  ◌∙◌, ◌≢◌, ◌↔◌, ◌⊎◌, inl, inr, Bool, true, false, ◌&&◌, ◌||◌, not, Option, none, some, List, [],
  ◌∷◌, ◌++◌, map, arith, ℕ_discrete, ltb, leb, eqb, if◌then◌else◌, Bool-cases, Sum-cases,
  Option-cases, eqb_iff, length, take, drop, filter, any, all, All, filter-filter, filter-append,
  contains, contains-append, contains-filter, length-append, length-take, length-drop,
  take-append-drop, Eq, ◌==◌, ==_iff, ==_refl, ==_false, String-discrete, string_eq, nat_eq,
  bool_eq, option_eq, Option-discrete, upper, lower, lower, Error, key_error, value_error,
  type_error, index_error, unbound_local_error, fail_json, client_error, Result, ok, err, ◌>>=◌,
  ◌>>◌, or_raise, raise_if, >>=-eq-ok, for_each, Result-cases, ok_pair, ok_inj, some_ok_pair,
}
use community_aws.Base.Int.{ℤ}
use community_aws.Ssm.Text.{Text, codes, starts_with, has_text}
use community_aws.Ssm.Process.{post_process}
use community_aws.Ssm.Retry.{Step, ssm_retry}

pub data Event : Type 0 where
  -- `session.poll()` is not None
  exited : Event
  -- less than a second remains
  expired : Event
  -- `_poll_stdout.poll(1000)` returned nothing
  idle : Event
  line : Text → Event

pub data Outcome : Type 0 where
  -- the return code and the output
  returned : ℤ → Text → Outcome
  -- AnsibleConnectionFailure, with `_timeout` set
  timed_out : Outcome
  raised : Error → Outcome
  -- the events do not end the loop
  reading : Outcome

pub record Reader : Type 0 where
  pub stdout : Text
  pub win_line : Text
  pub begun : Bool

pub record Marks : Type 0 where
  pub is_windows : Bool
  pub mark_begin : Text
  pub mark_end : Text

-- `mark_start`
abbrev pub mark_start : Marks → Text
mark_start m = if m.is_windows then m.mark_begin ++ codes " $LASTEXITCODE" else m.mark_begin

abbrev pub finished : Result (ℤ × Text) → Outcome
finished (ok (returncode, stdout)) = returned returncode stdout
finished (err e) = raised e

-- what a line does: the next state of the reader, or the end of the loop
pub data Read : Type 0 where
  next : Reader → Read
  stop : Outcome → Read

-- the tests on a line, which on Windows is all that was read before the first mark
read_text : Marks → Reader → Text → Read
read_text m r text =
    if has_text (mark_start m) text
    then next (record r {
      begun = true;
      stdout = if starts_with text (mark_start m) then r.stdout else [];
    })
    else if r.begun
    then (if has_text m.mark_end text
        then stop (finished (post_process m.is_windows r.stdout m.mark_begin))
        else next (record r { stdout = r.stdout ++ text }))
    else next r

unfoldable pub read_line : Marks → Reader → Text → Read
unfolding read_text
read_line m r text =
    if not r.begun && m.is_windows
    then read_text m (record r { win_line = r.win_line ++ text }) (r.win_line ++ text)
    else read_text m r text

-- The loop, and the `return` behind it: where the session has exited with no end mark, the
-- variable `returncode` has no value yet.
unfoldable pub read_session : Marks → Reader → List Event → Outcome
read_session m r [] = reading
read_session m r (exited ∷ events) = raised unbound_local_error
read_session m r (expired ∷ events) = timed_out
read_session m r (idle ∷ events) = read_session m r events
read_session m r (line text ∷ events) = elim (read_line m r text) [
  | next r' ↦ read_session m r' events
  | stop outcome ↦ outcome
]

abbrev pub start : Reader
start = record { stdout = []; win_line = []; begun = false }

-- one call of the function under the decorator, from the loop on
unfoldable pub exec_once : Marks → List Event → Outcome
unfolding read_session
exec_once m = read_session m start

-- what the decorator sees of a call: a return, an exception, or nothing yet
abbrev pub as_result : Outcome → Result (Option (ℤ × Text))
as_result (returned returncode stdout) = ok (some (returncode, stdout))
as_result timed_out = err (client_error "AnsibleConnectionFailure")
as_result (raised e) = err e
as_result reading = ok none

-- `exec_command` with its decorator: each call has marks of its own, and the events that it sees.
unfoldable pub exec_command : (ℕ → Marks × List Event) → ℕ → List Step × Result (Option (ℤ × Text))
unfolding exec_once ssm_retry
exec_command calls retries = ssm_retry (λ k. as_result (exec_once (calls k).0 (calls k).1)) retries
