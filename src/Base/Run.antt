-- ===== src/Base/Run.antt =====
-- Stateful code with exceptions and loops: a run takes the state of the service and of the clock,
-- and ends with a value and a new state, ends with an exception, or does not end in the rounds that
-- its loops are given.
use mathlib.Core.Path.{◌≡◌, refl}
use mathlib.Core.Option.{Option, none, some}
use mathlib.Core.Logic.{◌⊎◌, inl, inr}
use community_aws.Base.Exceptions.{Error, Result, ok, err}

pub data Outcome (A : Type 0) : Type 0 where
  done : A → Outcome A
  raised : Error → Outcome A
  endless : Outcome A

abbrev pub Run : Type 0 → Type 0 → Type 0
Run W A = W → Outcome (A × W)

infixl 5 ◌>>=◌ ◌>>◌
abbrev pub ◌>>=◌ : {W A B : Type 0} → Run W A → (A → Run W B) → Run W B
◌>>=◌ m next w = elim (m w) [ done (a, w') ↦ next a w' | raised e ↦ raised e | endless ↦ endless ]

abbrev pub ◌>>◌ : {W A B : Type 0} → Run W A → Run W B → Run W B
m >> next = m >>= λ _. next

abbrev pub return_ : {W A : Type 0} → A → Run W A
return_ a w = done (a, w)

-- a call that reads the state
abbrev pub look : {W A : Type 0} → (W → A) → Run W A
look f w = done (f w, w)

abbrev pub raise : {W A : Type 0} → Error → Run W A
raise e w = raised e

-- a computation that may raise
abbrev pub lift : {W A : Type 0} → Result A → Run W A
lift (ok a) = return_ a
lift (err e) = raise e

-- a value that may be missing
abbrev pub given : {W A : Type 0} → Error → Option A → Run W A
given e none w = raised e
given e (some a) w = done (a, w)

pub done_inj :
    {W A : Type 0} {a b : A} {v w : W}
    → ◌≡◌ {A = Outcome (A × W)} (done (a, v)) (done (b, w))
    → (a ≡ b) × (v ≡ w)
done_inj h = (cc, cc)

pub Outcome-cases :
    {A W : Type 0} (o : Outcome (A × W))
    → ((a : A) × (w : W) × (o ≡ done (a, w))) ⊎ (((e : Error) × (o ≡ raised e)) ⊎ (o ≡ endless))
Outcome-cases (done (a, w)) = inl (a, w, refl)
Outcome-cases (raised e) = inr (inl (e, refl))
Outcome-cases endless = inr (inr refl)

-- What a run that ends with a value went through.
pub bind-eq-done :
    {W A B : Type 0} (m : Run W A) (next : A → Run W B) (w w' : W) (b : B)
    → (m >>= next) w ≡ done (b, w')
    → (a : A) × (v : W) × (m w ≡ done (a, v)) × (next a v ≡ done (b, w'))
bind-eq-done m next w w' b h = elim (Outcome-cases (m w)) [
  | inl (a, v, e) ↦ (a, v, e, rw (e, ◌>>=◌) at h)
  | inr (inl (e, r)) ↦ cc (rw (r, ◌>>=◌) at h)
  | inr (inr r) ↦ cc (rw (r, ◌>>=◌) at h)
]
