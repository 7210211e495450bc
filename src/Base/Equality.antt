-- ===== src/Base/Equality.antt =====
-- Python's `==`, for every type whose equality is decided.
use Prim.Native.Nat.{ℕ}
use Prim.Native.String.{String}
use text.Mathlib.Text.{◌==◌ as text_eq}
use text.Mathlib.TextEquality.{eq_iff}
use mathlib.Core.Path.{◌≡◌, refl}
use mathlib.Core.Logic.{◌↔◌, ◌≢◌}
use mathlib.Core.Bool.{Bool, true, false, Bool-discrete}
use mathlib.Core.Option.{Option}
use native.Mathlib.Omega.{arith}
use native.Mathlib.Decide.{ℕ_discrete}

pub record Eq {ℓ} (A : Type ℓ) : Type ℓ where
  pub decides : Discrete A

infix 50 ◌==◌
abbrev pub ◌==◌ {ℓ} : {A : Type ℓ} ⦃e : Eq A⦄ → A → A → Bool
◌==◌ ⦃e⦄ a b = elim (e.decides a b) [ yes _ ↦ true | no _ ↦ false ]

module _ {ℓ} {A : Type ℓ} ⦃e : Eq A⦄ where
  pub ==_iff : (a b : A) → ((a == b) ≡ true) ↔ (a ≡ b)
  ==_iff a b = go (e.decides a b)
    where
      go : (d : Dec (a ≡ b)) → ((elim d [ yes _ ↦ true | no _ ↦ false ]) ≡ true) ↔ (a ≡ b)
      go (yes p) = (λ _. p, λ _. refl)
      go (no n) = (λ h. cc, λ p. absurd (n p))

  pub ==_refl : (a : A) → (a == a) ≡ true
  ==_refl a = (==_iff a a).1 refl

  pub ==_false : (a b : A) → a ≢ b → (a == b) ≡ false
  ==_false a b n = ground arith

unfoldable pub String-discrete : Discrete String
String-discrete s t = go (text_eq s t) (eq_iff s t).0 (eq_iff s t).1
  where
    go : (b : Bool) → (b ≡ true → s ≡ t) → (s ≡ t → b ≡ true) → Dec (s ≡ t)
    go true f g = yes (f refl)
    go false f g = no (λ p. cc (g p))

instance abbrev pub string_eq : Eq String
string_eq = record { decides = String-discrete }

instance abbrev pub nat_eq : Eq ℕ
nat_eq = record { decides = ℕ_discrete }

instance abbrev pub bool_eq : Eq Bool
bool_eq = record { decides = Bool-discrete }

unfoldable pub Option-discrete {ℓ} : {A : Type ℓ} → Discrete A → Discrete (Option A)
Option-discrete d = hlevel d

instance abbrev pub option_eq {ℓ} : {A : Type ℓ} ⦃e : Eq A⦄ → Eq (Option A)
option_eq ⦃e⦄ = record { decides = Option-discrete e.decides }
