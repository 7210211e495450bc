-- ===== src/Base/Within.antt =====
-- What `s in t` decides for two texts.
use Prim.Native.Char.{code}
use Prim.Native.String.{String, ◌++◌}
use text.Mathlib.TextEquality.{Char-path}
use text.Mathlib.TextLemmas.{
  nil-append, cons-append, head-eq_of_cons-eq, tail-eq_of_cons-eq, cons≢nil,
}
use mathlib.Core.Path.{◌≡◌, refl, sym, ap, ◌∙◌}
use mathlib.Core.Logic.{◌↔◌, inl, inr}
use mathlib.Core.Bool.{true}
use native.Mathlib.Omega.{arith}
use community_aws.Base.Tests.{Bool-cases}
use community_aws.Base.Strings.{starts_with, is_within}

-- the first text stands somewhere in the second
abbrev pub IsPart : String → String → Type 0
IsPart s t = (before : String) × (after : String) × (t ≡ before ++ (s ++ after))

abbrev IsStart : String → String → Type 0
IsStart s t = (after : String) × (t ≡ s ++ after)

starts_with-there : (s t : String) → starts_with s t ≡ true → IsStart s t
starts_with-there String.[] t h = (t, sym (nil-append t))
starts_with-there (String.◌∷◌ c s) String.[] h = cc
starts_with-there (String.◌∷◌ c s) (String.◌∷◌ e t) h =
    let tails : starts_with s t ≡ true = ground (arith, h) in
    let heads : code c ≡ code e = ground (arith, h) in
    let (after, same) = starts_with-there s t tails in
    (
      after,
      ap (λ x. String.◌∷◌ x t) (sym (Char-path c e heads))
          ∙ ap (λ x. String.◌∷◌ c x) same
          ∙ sym (cons-append c s after),
    )

starts_with-back : (s t after : String) → t ≡ s ++ after → starts_with s t ≡ true
starts_with-back String.[] t after h = refl
starts_with-back (String.◌∷◌ c s) String.[] after h =
    absurd (cons≢nil (sym (h ∙ cons-append c s after)))
starts_with-back (String.◌∷◌ c s) (String.◌∷◌ e t) after h =
    let both = h ∙ cons-append c s after in
    let heads : code e ≡ code c = ap code (head-eq_of_cons-eq both) in
    let tails = starts_with-back s t after (tail-eq_of_cons-eq both) in ground (arith, heads, tails)

is_within-there : (s t : String) → is_within s t ≡ true → IsPart s t
is_within-there s String.[] h =
    let (after, same) = starts_with-there s String.[] h in
    (String.[], after, same ∙ sym (nil-append (s ++ after)))
is_within-there s (String.◌∷◌ c t) h = elim (Bool-cases (starts_with s (String.◌∷◌ c t))) [
  | inl here ↦
      let (after, same) = starts_with-there s (String.◌∷◌ c t) here in
      (String.[], after, same ∙ sym (nil-append (s ++ after)))
  | inr later ↦
      let (before, after, same) = is_within-there s t (rw later at h) in
      (
        String.◌∷◌ c before,
        after,
        ap (λ x. String.◌∷◌ c x) same ∙ sym (cons-append c before (s ++ after)),
      )
]

is_within-back : (s t before after : String) → t ≡ before ++ (s ++ after) → is_within s t ≡ true
is_within-back s String.[] String.[] after h =
    starts_with-back s String.[] after (h ∙ nil-append (s ++ after))
is_within-back s (String.◌∷◌ c t) String.[] after h =
    let here = starts_with-back s (String.◌∷◌ c t) after (h ∙ nil-append (s ++ after)) in
    rw here refl
is_within-back s String.[] (String.◌∷◌ d before) after h =
    absurd (cons≢nil (sym (h ∙ cons-append d before (s ++ after))))
is_within-back s (String.◌∷◌ c t) (String.◌∷◌ d before) after h =
    let later =
      is_within-back s t before after
        (tail-eq_of_cons-eq (h ∙ cons-append d before (s ++ after))) in
    ground (arith, later)

-- `s in t` just if the text `s` stands somewhere in `t`
pub is_within_lem : (s t : String) → (is_within s t ≡ true) ↔ IsPart s t
is_within_lem s t = (is_within-there s t, λ (before, after, h). is_within-back s t before after h)
