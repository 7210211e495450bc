-- ===== src/Base/Rules.antt =====
-- Predicates on runs that their composition keeps, and rules for what holds after a run.
use mathlib.Core.Path.{◌≡◌, sym, ◌∙◌, subst}
use mathlib.Core.Bool.{Bool, true, false}
use mathlib.Core.Option.{Option, none, some}
use mathlib.Core.Logic.{inl, inr, ◌≢◌}
use community_aws.Base.Tests.{if◌then◌else◌}
use community_aws.Base.Exceptions.{Error, Result, ok, err}
use community_aws.Base.Run.{
  done, endless, lift, Run, ◌>>=◌, return_, look, raise, given, done_inj, Outcome-cases,
  bind-eq-done,
}

-- A predicate on runs that their composition keeps: it holds of a whole function where it holds of
-- the calls that the function makes.
pub record Closed (W : Type 0) : Type 1 where
  pub Holds : {A : Type 0} → Run W A → Type 0
  pub of_return : {A : Type 0} (a : A) → Holds (return_ a)
  pub of_look : {A : Type 0} (f : W → A) → Holds (look f)
  pub of_raise : {A : Type 0} (e : Error) → Holds {A = A} (raise e)
  pub of_bind :
      {A B : Type 0} (m : Run W A) (next : A → Run W B)
      → Holds m
      → ((a : A) → Holds (next a))
      → Holds (m >>= next)

module _ {W : Type 0} (c : Closed W) where
  pub of_if :
      {A : Type 0} (t : Bool) (m n : Run W A) → c.Holds m → c.Holds n → c.Holds (if t then m else n)
  of_if true m n h k = h
  of_if false m n h k = k

  pub of_given : {A : Type 0} (e : Error) (o : Option A) → c.Holds (given e o)
  of_given e none = c.of_raise e
  of_given e (some a) = c.of_return a

  pub of_lift : {A : Type 0} (r : Result A) → c.Holds (lift r)
  of_lift (ok a) = c.of_return a
  of_lift (err e) = c.of_raise e

-- a run that leaves the state as it was, whenever it ends with a value
abbrev pub Keeps : {W A : Type 0} → Run W A → Type 0
Keeps {W} {A} m = (w w' : W) (a : A) → m w ≡ done (a, w') → w' ≡ w

pub Keeps-return : {W A : Type 0} (f : W → A) → Keeps (look f)
Keeps-return f w w' b h = sym (done_inj h).1

pub Keeps-raise : {W A : Type 0} (e : Error) → Keeps {W = W} {A = A} (raise e)
Keeps-raise e w w' b h = cc

pub Keeps-bind :
    {W A B : Type 0} (m : Run W A) (next : A → Run W B)
    → Keeps m
    → ((a : A) → Keeps (next a))
    → Keeps (m >>= next)
Keeps-bind m next k ks w w' b h =
    let (a, v, e, f) = bind-eq-done m next w w' b h in ks a v w' b f ∙ k w v a e

abbrev pub keeps : (W : Type 0) → Closed W
keeps W = record {
  Holds = Keeps;
  of_return = λ a. Keeps-return (λ w. a);
  of_look = Keeps-return;
  of_raise = Keeps-raise;
  of_bind = Keeps-bind;
}

-- a run that ends, with a value or with an exception
abbrev pub Ends : {W A : Type 0} → Run W A → Type 0
Ends {W} m = (w : W) → m w ≢ endless

pub Ends-return : {W A : Type 0} (f : W → A) → Ends (look f)
Ends-return f w h = cc

pub Ends-raise : {W A : Type 0} (e : Error) → Ends {W = W} {A = A} (raise e)
Ends-raise e w h = cc

pub Ends-bind :
    {W A B : Type 0} (m : Run W A) (next : A → Run W B)
    → Ends m
    → ((a : A) → Ends (next a))
    → Ends (m >>= next)
Ends-bind m next k ks w h = elim (Outcome-cases (m w)) [
  | inl (a, v, e) ↦ ks a v (rw (e, ◌>>=◌) at h)
  | inr (inl (x, e)) ↦ cc (rw (e, ◌>>=◌) at h)
  | inr (inr e) ↦ k w e
]

abbrev pub ends : (W : Type 0) → Closed W
ends W = record {
  Holds = Ends;
  of_return = λ a. Ends-return (λ w. a);
  of_look = Ends-return;
  of_raise = Ends-raise;
  of_bind = Ends-bind;
}

-- a run that keeps a property of the state, whenever it ends with a value
abbrev pub Preserves : {W A : Type 0} → (W → Type 0) → Run W A → Type 0
Preserves {W} {A} I m = (w w' : W) (a : A) → m w ≡ done (a, w') → I w → I w'

module _ {W : Type 0} (I : W → Type 0) where
  pub Preserves-return : {A : Type 0} (f : W → A) → Preserves I (look f)
  Preserves-return f w w' b h i = subst I (done_inj h).1 i

  pub Preserves-raise : {A : Type 0} (e : Error) → Preserves {A = A} I (raise e)
  Preserves-raise e w w' b h i = cc

  pub Preserves-bind :
      {A B : Type 0} (m : Run W A) (next : A → Run W B)
      → Preserves I m
      → ((a : A) → Preserves I (next a))
      → Preserves I (m >>= next)
  Preserves-bind m next k ks w w' b h i =
      let (a, v, e, f) = bind-eq-done m next w w' b h in ks a v w' b f (k w v a e i)

  abbrev pub preserves : Closed W
  preserves = record {
    Holds = Preserves I;
    of_return = λ a. Preserves-return (λ w. a);
    of_look = Preserves-return;
    of_raise = Preserves-raise;
    of_bind = Preserves-bind;
  }

-- a run after which the state has a property, whenever it ends with a value
abbrev pub Ensures : {W A : Type 0} → (W → Type 0) → Run W A → Type 0
Ensures {W} {A} P m = (w w' : W) (a : A) → m w ≡ done (a, w') → P w'

module _ {W A : Type 0} (P : W → Type 0) where
  pub Ensures-raise : (e : Error) → Ensures {A = A} P (raise e)
  Ensures-raise e w w' b h = cc

  pub Ensures-bind :
      {B : Type 0} (m : Run W B) (next : B → Run W A)
      → ((b : B) → Ensures P (next b))
      → Ensures P (m >>= next)
  Ensures-bind m next ks w w' b h = let (a, v, e, f) = bind-eq-done m next w w' b h in ks a v w' b f

  pub Ensures-if :
      (t : Bool) (m n : Run W A) → Ensures P m → Ensures P n → Ensures P (if t then m else n)
  Ensures-if true m n h k = h
  Ensures-if false m n h k = k

  pub Ensures-then :
      {B : Type 0} (m : Run W B) (next : B → Run W A)
      → Ensures P m
      → ((b : B) → Preserves P (next b))
      → Ensures P (m >>= next)
  Ensures-then m next k ks w w' b h =
      let (a, v, e, f) = bind-eq-done m next w w' b h in ks a v w' b f (k w v a e)

  pub Ensures-Preserves : (m : Run W A) → Ensures P m → Preserves P m
  Ensures-Preserves m k w w' a h i = k w w' a h

  pub Ensures-then-branch :
      (t : Bool) (m n : Run W A) → t ≡ true → Ensures P m → Ensures P (if t then m else n)
  Ensures-then-branch true m n e h = h
  Ensures-then-branch false m n e h = cc

-- a run that ends where a property holds of the state, and keeps the property
abbrev pub EndsIn : {W A : Type 0} → (W → Type 0) → Run W A → Type 0
EndsIn {W} {A} I m =
    (w : W) → I w → (m w ≢ endless) × ((w' : W) (a : A) → m w ≡ done (a, w') → I w')

module _ {W : Type 0} (I : W → Type 0) where
  pub EndsIn-return : {A : Type 0} (f : W → A) → EndsIn I (look f)
  EndsIn-return f w i = ((λ h. cc), λ w' b h. Preserves-return I f w w' b h i)

  pub EndsIn-raise : {A : Type 0} (e : Error) → EndsIn {A = A} I (raise e)
  EndsIn-raise e w i = ((λ h. cc), λ w' b h. cc)

  pub EndsIn-bind :
      {A B : Type 0} (m : Run W A) (next : A → Run W B)
      → EndsIn I m
      → ((a : A) → EndsIn I (next a))
      → EndsIn I (m >>= next)
  EndsIn-bind m next k ks w i = (
    (λ h. elim (Outcome-cases (m w)) [
      | inl (a, v, e) ↦ (ks a v ((k w i).1 v a e)).0 (rw (e, ◌>>=◌) at h)
      | inr (inl (x, e)) ↦ cc (rw (e, ◌>>=◌) at h)
      | inr (inr e) ↦ (k w i).0 e
    ]),
    λ w' b h.
        let (a, v, e, f) = bind-eq-done m next w w' b h in (ks a v ((k w i).1 v a e)).1 w' b f,
  )

  abbrev pub ends_in : Closed W
  ends_in = record {
    Holds = EndsIn I;
    of_return = λ a. EndsIn-return (λ w. a);
    of_look = EndsIn-return;
    of_raise = EndsIn-raise;
    of_bind = EndsIn-bind;
  }
