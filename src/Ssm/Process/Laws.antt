-- ===== src/Ssm/Process/Laws.antt =====
-- What `_post_process` makes of the output of a wrapped command.
use community_aws.Base.{
  ℕ, ◌≡◌, refl, ap, ◌∙◌, ◌≢◌, inl, inr, false, ◌&&◌, none, some, List, [], ◌∷◌, ◌++◌, arith, eqb,
  Bool-cases, All, string_eq, nat_eq, bool_eq, option_eq, value_error, ok, err,
}
use mathlib.Core.List.{append_assoc}
use community_aws.Base.Int.{ℤ}
use community_aws.Ssm.Text.{
  Text, is_break, starts_newline, attach, splitlines, second_last, starts_with, split_last,
  before_last, int_of,
}
use community_aws.Ssm.Process.{drop_line, post_process_posix}

NonEmpty : List Text → Type 0
NonEmpty l = (x : Text) × (xs : List Text) × (l ≡ x ∷ xs)

attach-NonEmpty : (c : ℕ) (l : List Text) → NonEmpty (attach c l)
unfolding NonEmpty
attach-NonEmpty c [] = (c ∷ [], [], refl)
attach-NonEmpty c (x ∷ xs) = (c ∷ x, xs, refl)

splitlines-NonEmpty : (p : Text) → NonEmpty (splitlines (p ++ 10 ∷ []))
unfolding NonEmpty splitlines is_break
splitlines-NonEmpty [] = ([], [], refl)
splitlines-NonEmpty (c ∷ p) = elim (Bool-cases (eqb c 13 && starts_newline (p ++ 10 ∷ []))) [
  | inl skipped ↦ rw skipped (splitlines-NonEmpty p)
  | inr kept ↦ elim (Bool-cases (is_break c)) [
    | inl breaks ↦ ([], splitlines (p ++ 10 ∷ []), rw (kept, breaks))
    | inr other ↦ rw (kept, other) (attach-NonEmpty c (splitlines (p ++ 10 ∷ [])))
  ]
]

attach-append : (c : ℕ) (a b : List Text) → NonEmpty a → attach c (a ++ b) ≡ attach c a ++ b
unfolding NonEmpty
attach-append c a b (x, xs, e) = rw e

starts_newline-append : (p q : Text) → starts_newline (p ++ 10 ∷ q) ≡ starts_newline (p ++ 10 ∷ [])
starts_newline-append [] q = refl
starts_newline-append (c ∷ p) q = refl

-- A newline ends a line: what stands behind it is split by itself.
splitlines-append :
    (p q : Text) → splitlines (p ++ 10 ∷ q) ≡ splitlines (p ++ 10 ∷ []) ++ splitlines q
unfolding splitlines is_break
splitlines-append [] q = refl
splitlines-append (c ∷ p) q = elim (Bool-cases (eqb c 13 && starts_newline (p ++ 10 ∷ []))) [
  | inl skipped ↦ rw (starts_newline-append p q, skipped) (splitlines-append p q)
  | inr kept ↦ elim (Bool-cases (is_break c)) [
    | inl breaks ↦
        rw (starts_newline-append p q, kept, breaks) (ap (λ l. [] ∷ l) (splitlines-append p q))
    | inr other ↦
        rw (starts_newline-append p q, kept, other)
          (ap (attach c) (splitlines-append p q)
            ∙ attach-append c _ (splitlines q) (splitlines-NonEmpty p))
  ]
]

-- the end of a line as it comes through two terminals
abbrev pub eol : Text
eol = 13 ∷ 13 ∷ 10 ∷ []

not_return : (c : ℕ) → is_break c ≡ false → eqb c 13 ≡ false
unfolding is_break
not_return c h = ground arith

splitlines-line : (d : Text) → All (λ c. is_break c ≡ false) d → splitlines (d ++ eol) ≡ d ∷ [] ∷ []
unfolding splitlines is_break
splitlines-line [] h = refl
splitlines-line (c ∷ d) (h, hs) = rw (not_return c h, h, splitlines-line d hs)

second_last-append : {A : Type 0} (l : List A) (x y : A) → second_last (l ++ x ∷ y ∷ []) ≡ some x
unfolding second_last
second_last-append [] x y = refl
second_last-append (a ∷ []) x y = refl
second_last-append (a ∷ b ∷ []) x y = refl
second_last-append (a ∷ b ∷ c ∷ l) x y = second_last-append (b ∷ c ∷ l) x y

no_newline : (q : Text) → All (λ c. c ≢ 10) q → split_last (10 ∷ []) q ≡ none
unfolding split_last starts_with
no_newline [] h = refl
no_newline (c ∷ q) (h, hs) = rw (no_newline q hs) (ground (arith, h))

split_last-newline :
    (p q : Text) → All (λ c. c ≢ 10) q → split_last (10 ∷ []) (p ++ 10 ∷ q) ≡ some (p, 10 ∷ q)
unfolding split_last starts_with
split_last-newline [] q h = rw (no_newline q h)
split_last-newline (c ∷ p) q h = rw (split_last-newline p q h)

drop_line-newline : (p q : Text) → All (λ c. c ≢ 10) q → drop_line (p ++ 10 ∷ q) ≡ p
unfolding drop_line before_last
drop_line-newline p q h = rw (split_last-newline p q h, before_last)

abbrev returns : Text
returns = 13 ∷ 13 ∷ []

-- the text before the status line
before_status : Text → Text
before_status body = (body ++ eol) ++ returns

status-plain : (d : Text) → All (λ c. is_break c ≡ false) d → All (λ c. c ≢ 10) (d ++ returns)
unfolding is_break
status-plain [] h = (omega arith, (omega arith, tt))
status-plain (c ∷ d) (h, hs) = (ground (arith, h), status-plain d hs)

output_split :
    (body status : Text)
    → body ++ eol ++ eol ++ status ++ eol ≡ before_status body ++ 10 ∷ (status ++ eol)
unfolding before_status
output_split body status = simp append_assoc

output_end :
    (body status : Text)
    → before_status body ++ 10 ∷ (status ++ eol)
      ≡ (before_status body ++ 10 ∷ (status ++ returns)) ++ 10 ∷ []
output_end body status = simp append_assoc

before_status-end : (body : Text) → before_status body ≡ (body ++ returns) ++ 10 ∷ returns
unfolding before_status
before_status-end body = simp append_assoc

status_line :
    (body status : Text)
    → All (λ c. is_break c ≡ false) status
    → second_last (splitlines (before_status body ++ 10 ∷ (status ++ eol))) ≡ some status
status_line body status plain =
    ap second_last (
      splitlines-append (before_status body) (status ++ eol)
      ∙ ap (λ l. splitlines (before_status body ++ 10 ∷ []) ++ l) (splitlines-line status plain))
    ∙ second_last-append (splitlines (before_status body ++ 10 ∷ [])) status []

output_kept :
    (body status : Text)
    → All (λ c. is_break c ≡ false) status
    → drop_line (drop_line (drop_line (before_status body ++ 10 ∷ (status ++ eol))))
      ≡ body ++ returns
output_kept body status plain =
    ap (λ t. drop_line (drop_line t))
      (ap drop_line (output_end body status) ∙ drop_line-newline _ [] tt)
    ∙ ap drop_line
        (drop_line-newline (before_status body) (status ++ returns) (status-plain status plain))
    ∙ ap drop_line (before_status-end body)
    ∙ drop_line-newline (body ++ returns) returns (omega arith, (omega arith, tt))

-- On POSIX, over a terminal that ends each line with two carriage returns and a newline, the text
-- between the marks is the command's output, an empty line end, and the line of the exit status
-- that the wrapper echoes. For any output that ends its last line, and any status line that `int`
-- reads and that holds no line break, the result is that status and the output without the newline
-- that ends it.
pub post_process_posix_lem :
    (body status : Text) (n : ℤ)
    → All (λ c. is_break c ≡ false) status
    → int_of status ≡ some n
    → post_process_posix (body ++ eol ++ eol ++ status ++ eol) ≡ ok (n, body ++ 13 ∷ 13 ∷ [])
unfolding post_process_posix
post_process_posix_lem body status n plain number =
    rw (output_split body status, status_line body status plain, number)
      (ap (λ t. ok (n, t)) (output_kept body status plain))

splitlines-short_line :
    (d : Text) → All (λ c. is_break c ≡ false) d → splitlines (d ++ 10 ∷ []) ≡ d ∷ []
unfolding splitlines is_break
splitlines-short_line [] h = refl
splitlines-short_line (c ∷ d) (h, hs) = rw (not_return c h, h, splitlines-short_line d hs)

newline_line : (s : Text) (ls : List Text) → splitlines s ≡ ls → splitlines (10 ∷ s) ≡ [] ∷ ls
unfolding splitlines is_break
newline_line s ls h = ap (λ l. [] ∷ l) h

-- Over a terminal that ends lines with a newline alone, reading the status fails with a
-- ValueError for any output and any status line: the line taken for the status is the empty one
-- before it.
post_process_posix_newlines :
    (body status : Text)
    → All (λ c. is_break c ≡ false) status
    → post_process_posix (body ++ 10 ∷ 10 ∷ (status ++ 10 ∷ [])) ≡ err value_error
unfolding post_process_posix
post_process_posix_newlines body status plain =
    rw
      (ap second_last (
          splitlines-append body (10 ∷ (status ++ 10 ∷ []))
          ∙ ap (λ l. splitlines (body ++ 10 ∷ []) ++ l)
              (newline_line (status ++ 10 ∷ []) (status ∷ []) (splitlines-short_line status plain)))
        ∙ second_last-append (splitlines (body ++ 10 ∷ [])) [] status)
      (unfold int_of in refl)
