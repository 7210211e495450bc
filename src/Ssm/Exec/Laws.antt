-- ===== src/Ssm/Exec/Laws.antt =====
-- What `exec_command` returns, by the lines of the session.
use community_aws.Base.{
  ℕ, zero, suc, ◌+◌, ◌≤◌, ◌<◌, ◌≡◌, refl, sym, ap, ◌∙◌, inl, inr, true, false, ◌&&◌, not, Option,
  some, List, [], ◌∷◌, ◌++◌, arith, if◌then◌else◌, Bool-cases, All, string_eq, nat_eq, bool_eq,
  option_eq, unbound_local_error, Result, ok, err,
}
use mathlib.Core.List.{append-nil, append_assoc}
use community_aws.Ssm.Text.{Text, starts_with, has_text}
use community_aws.Ssm.Process.{post_process}
use community_aws.Ssm.Retry.Laws.{waits, Fails, ssm_retry-first, ssm_retry-last}
use community_aws.Base.Int.{ℤ}
use community_aws.Ssm.Exec.{
  Event, exited, expired, idle, line, raised, as_result, exec_once, Reader, Marks, mark_start,
  finished, next, stop, read_line, read_session, start, exec_command,
}

abbrev pub joined : List Text → Text
joined [] = []
joined (l ∷ ls) = l ++ joined ls

abbrev pub lines : List Text → List Event
lines [] = []
lines (l ∷ ls) = line l ∷ lines ls

-- an event that neither ends the session nor is a line with the end mark
abbrev pub Unfinished : Marks → Event → Type 0
Unfinished m exited = ⊥
Unfinished m expired = ⊥
Unfinished m idle = Unit
Unfinished m (line l) = has_text m.mark_end l ≡ false

module _ (m : Marks) (posix : m.is_windows ≡ false) where
  read_before :
      (r : Reader) (l : Text)
      → has_text m.mark_begin l ≡ false
      → r.begun ≡ false
      → read_line m r l ≡ next r
  unfolding read_line
  read_before r l h b = ground (arith, posix)

  read_begin :
      (r : Reader) (l : Text)
      → has_text m.mark_begin l ≡ true
      → r.stdout ≡ []
      → read_line m r l ≡ next (record r { begun = true; stdout = [] })
  unfolding read_line
  read_begin r l h b = ground (arith, posix)

  read_body :
      (r : Reader) (l : Text)
      → has_text m.mark_begin l ≡ false
      → has_text m.mark_end l ≡ false
      → r.begun ≡ true
      → read_line m r l ≡ next (record r { stdout = r.stdout ++ l })
  unfolding read_line
  read_body r l h k b = ground (arith, posix)

  read_end :
      (r : Reader) (l : Text)
      → has_text m.mark_begin l ≡ false
      → has_text m.mark_end l ≡ true
      → r.begun ≡ true
      → read_line m r l ≡ stop (finished (post_process false r.stdout m.mark_begin))
  unfolding read_line
  read_end r l h k b = ground (arith, posix)

  -- lines before the mark are passed over
  skip_lines :
      (before : List Text) (r : Reader) (events : List Event)
      → All (λ l. has_text m.mark_begin l ≡ false) before
      → r.begun ≡ false
      → read_session m r (lines before ++ events) ≡ read_session m r events
  unfolding read_session
  skip_lines [] r events h b = refl
  skip_lines (l ∷ before) r events (h, hs) b =
      rw (read_before r l h b, read_session) (skip_lines before r events hs b)

  -- lines after the mark are collected
  collect_lines :
      (body : List Text) (r : Reader) (events : List Event)
      → All (λ l. (has_text m.mark_begin l ≡ false) × (has_text m.mark_end l ≡ false)) body
      → r.begun ≡ true
      → read_session m r (lines body ++ events)
        ≡ read_session m (record r { stdout = r.stdout ++ joined body }) events
  unfolding read_session
  collect_lines [] r events h b =
      ap (λ t. read_session m (record r { stdout = t }) events) (sym (append-nil r.stdout))
  collect_lines (l ∷ body) r events ((h, k), hs) b =
      rw (read_body r l h k b, read_session)
        (collect_lines body (record r { stdout = r.stdout ++ l }) events hs b
          ∙ ap (λ t. read_session m (record r { stdout = t }) events)
              (append_assoc r.stdout l (joined body)))

  -- On POSIX: lines without the start mark, one with it, lines with neither mark, and one with
  -- the end mark alone. The result is what `_post_process` makes of exactly the lines between the
  -- two marks, and nothing that comes later is read.
  pub exec_command_between :
      (before body : List Text) (first last : Text) (later : List Event)
      → All (λ l. has_text m.mark_begin l ≡ false) before
      → has_text m.mark_begin first ≡ true
      → All (λ l. (has_text m.mark_begin l ≡ false) × (has_text m.mark_end l ≡ false)) body
      → has_text m.mark_begin last ≡ false
      → has_text m.mark_end last ≡ true
      → exec_once m (lines before ++ line first ∷ (lines body ++ line last ∷ later))
        ≡ finished (post_process false (joined body) m.mark_begin)
  unfolding exec_once
  exec_command_between before body first last later hb hf hm hl he =
      skip_lines before start _ hb refl
      ∙ rw (read_begin start first hf refl, read_session)
          (collect_lines body (record start { begun = true }) (line last ∷ later) hm refl
            ∙ rw (
              read_end (record start { begun = true; stdout = joined body }) last hl he refl,
              read_session,
            ))

abbrev begin_at : Marks → Reader → Text → Reader
begin_at m r text = record r {
  begun = true;
  stdout = if starts_with text (mark_start m) then r.stdout else [];
}

read_unfinished :
    (m : Marks) (r : Reader) (l : Text)
    → has_text m.mark_end l ≡ false
    → (r' : Reader) × (read_line m r l ≡ next r')
unfolding read_line
read_unfinished m r l h = elim (Bool-cases (not r.begun && m.is_windows)) [
  | inl waiting ↦ elim (Bool-cases (has_text (mark_start m) (r.win_line ++ l))) [
    | inl found ↦ (
      begin_at m (record r { win_line = r.win_line ++ l }) (r.win_line ++ l),
      rw (waiting, found),
    )
    | inr missing ↦ (record r { win_line = r.win_line ++ l }, ground (arith, waiting, missing))
  ]
  | inr plain ↦ elim (Bool-cases (has_text (mark_start m) l)) [
    | inl found ↦ (begin_at m r l, rw (plain, found))
    | inr missing ↦ elim (Bool-cases r.begun) [
      | inl begun ↦ (record r { stdout = r.stdout ++ l }, ground (arith, plain, missing, begun, h))
      | inr other ↦ (r, ground (arith, plain, missing, other))
    ]
  ]
]

read_exited :
    (m : Marks) (r : Reader) (events later : List Event)
    → All (Unfinished m) events
    → read_session m r (events ++ exited ∷ later) ≡ raised unbound_local_error
unfolding read_session
read_exited m r [] later h = refl
read_exited m r (exited ∷ events) later (h, hs) = absurd h
read_exited m r (expired ∷ events) later (h, hs) = absurd h
read_exited m r (idle ∷ events) later (h, hs) = read_exited m r events later hs
read_exited m r (line l ∷ events) later (h, hs) =
    let (r', e) = read_unfinished m r l h in rw (e, read_session) (read_exited m r' events later hs)

-- the session of a call exits, and the events before are quiet rounds and lines without the end mark
abbrev pub ExitsEarly : Marks × List Event → Type 0
ExitsEarly (m, all_events) =
    (events : List Event) × (later : List Event) × (all_events ≡ events ++ exited ∷ later)
    × All (Unfinished m) events

exec_once_exited :
    (call : Marks × List Event)
    → ExitsEarly call
    → exec_once call.0 call.1 ≡ raised unbound_local_error
unfolding exec_once
exec_once_exited (m, all_events) (events, later, e, h) =
    ap (λ l. exec_once m l) e ∙ read_exited m start events later h

module _ (calls : ℕ → Marks × List Event) where
  abbrev attempt : ℕ → Result (Option (ℤ × Text))
  attempt k = as_result (exec_once (calls k).0 (calls k).1)

  exits-Fails : (n k : ℕ) → ((j : ℕ) → j < k + n → ExitsEarly (calls j)) → Fails attempt k n
  exits-Fails zero k h = tt
  exits-Fails (suc n) k h = (
    (unbound_local_error, ap as_result (exec_once_exited (calls k) (h k (omega arith)))),
    exits-Fails n (suc k) (λ j b. h j (omega (arith, b))),
  )

  -- On both systems: if in the first call and in all the `retries` repetitions the session exits with
  -- no end mark before, `exec_command` closes the session and calls again after a pause each time, and
  -- ends in the UnboundLocalError of the last call.
  pub exec_command_exited :
      (retries : ℕ)
      → ((k : ℕ) → k ≤ retries → ExitsEarly (calls k))
      → exec_command calls retries ≡ (waits 0 retries, err unbound_local_error)
  unfolding exec_command
  exec_command_exited retries h =
      ssm_retry-last attempt retries unbound_local_error
        (exits-Fails retries 0 (λ j b. h j (omega (arith, b))))
        (ap as_result (exec_once_exited (calls retries) (h retries (omega arith))))

  -- On POSIX: if in the first n calls, n at most `retries`, the session exits with no end mark before,
  -- and the next call sees a start mark, lines with neither mark and an end mark, then `exec_command`
  -- returns the code and the output that `_post_process` finds between the two marks, after a pause
  -- and a close for each of the n calls.
  pub exec_command_recovers :
      (n retries : ℕ) (m : Marks) (before body : List Text) (first last output : Text)
      (later : List Event) (returncode : ℤ)
      → ((k : ℕ) → k < n → ExitsEarly (calls k))
      → n ≤ retries
      → calls n ≡ (m, lines before ++ line first ∷ (lines body ++ line last ∷ later))
      → m.is_windows ≡ false
      → All (λ l. has_text m.mark_begin l ≡ false) before
      → has_text m.mark_begin first ≡ true
      → All (λ l. (has_text m.mark_begin l ≡ false) × (has_text m.mark_end l ≡ false)) body
      → has_text m.mark_begin last ≡ false
      → has_text m.mark_end last ≡ true
      → post_process false (joined body) m.mark_begin ≡ ok (returncode, output)
      → exec_command calls retries ≡ (waits 0 n, ok (some (returncode, output)))
  unfolding exec_command
  exec_command_recovers n retries m before body first last output later returncode h enough call
        posix hb hf hm hl he processed =
      ssm_retry-first attempt n retries (some (returncode, output))
        (exits-Fails n 0 (λ j b. h j (omega (arith, b)))) enough
        (ap (λ (x : Marks × List Event). as_result (exec_once x.0 x.1)) call
          ∙ ap as_result (
              exec_command_between m posix before body first last later hb hf hm hl he
              ∙ ap finished processed))
