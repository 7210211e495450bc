-- ===== src/Base/Exceptions.antt =====
-- Python's exceptions as values. `fail_json` ends the module run with an error message.
use Prim.Native.String.{String}
use mathlib.Core.Path.{◌≡◌, refl}
use mathlib.Core.Logic.{◌⊎◌, inl, inr}
use mathlib.Core.Bool.{Bool, true, false}
use mathlib.Core.Option.{Option, none, some}
use mathlib.Core.List.{List, [], ◌∷◌}

pub data Error : Type 0 where
  key_error : String → Error
  value_error type_error index_error unbound_local_error : Error
  -- `module.fail_json`, `module.fail_json_aws`
  fail_json : String → Error
  -- an exception of the AWS client that the code lets through
  client_error : String → Error

pub data Result {ℓ} (A : Type ℓ) : Type ℓ where
  ok : A → Result A
  err : Error → Result A

-- `d[k]` on a key that may be missing
abbrev pub or_raise {ℓ} : {A : Type ℓ} → Error → Option A → Result A
or_raise e none = err e
or_raise e (some a) = ok a

abbrev pub raise_if : Bool → Error → Result (Unit {0})
raise_if true e = err e
raise_if false e = ok tt

-- An exception skips the rest of the block.
infixl 5 ◌>>=◌ ◌>>◌
abbrev pub ◌>>=◌ {κ ℓ} : {B : Type κ} {A : Type ℓ} → Result A → (A → Result B) → Result B
err c >>= next = err c
ok x >>= next = next x

module _ {κ ℓ} {B : Type κ} {A : Type ℓ} where
  -- what a block that ended without an exception went through
  pub >>=-eq-ok :
      (first : Result A) (next : A → Result B) {y : B}
      → (first >>= next) ≡ ok y
      → (x : A) × (first ≡ ok x) × (next x ≡ ok y)
  >>=-eq-ok (err c) next h = cc
  >>=-eq-ok (ok x) next h = (x, refl, h)

abbrev pub ◌>>◌ {κ} : {B : Type κ} → Result (Unit {0}) → Result B → Result B
first >> then_ = first >>= λ _. then_

module _ {ℓ κ} {S : Type ℓ} {A : Type κ} where
  -- `for x in xs: s = step(x, s)`, left by the first exception
  abbrev pub for_each : (A → S → Result S) → List A → S → Result S
  for_each step [] s = ok s
  for_each step (x ∷ xs) s = step x s >>= for_each step xs

pub Result-cases {ℓ} :
    {A : Type ℓ} (r : Result A) → ((a : A) × (r ≡ ok a)) ⊎ ((e : Error) × (r ≡ err e))
Result-cases (ok a) = inl (a, refl)
Result-cases (err e) = inr (e, refl)

pub ok_pair {ℓ κ} :
    {A : Type ℓ} {B : Type κ} {a c : A} {b d : B}
    → ◌≡◌ {A = Result (A × B)} (ok (a, b)) (ok (c, d))
    → (a ≡ c) × (b ≡ d)
ok_pair h = (cc, cc)

pub ok_inj {ℓ} : {A : Type ℓ} {a b : A} → ◌≡◌ {A = Result A} (ok a) (ok b) → a ≡ b
ok_inj h = cc

pub some_inj {ℓ} : {A : Type ℓ} {a b : A} → some a ≡ some b → a ≡ b
some_inj h = cc

pub inl_inj {ℓ} : {A B : Type ℓ} {a b : A} → ◌≡◌ {A = A ⊎ B} (inl a) (inl b) → a ≡ b
inl_inj h = cc

pub some_ok_pair {ℓ κ} :
    {A : Type ℓ} {B : Type κ} {a c : A} {b d : B}
    → ◌≡◌ {A = Option (Result (A × B))} (some (ok (a, b))) (some (ok (c, d)))
    → (a ≡ c) × (b ≡ d)
some_ok_pair h = (cc, cc)
