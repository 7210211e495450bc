-- ===== src/ParameterGroup/Values/Types.antt =====
-- What a value's type and the text of the allowed values allow.
use mathlib.Core.Path.{subst}
use community_aws.Base.{
  IsPart, is_within_lem, is_within, String, ◌≡◌, refl, sym, ◌↔◌, ◌⊎◌, inl, inr, Bool, true, false,
  ◌&&◌, Option, none, some, arith, if◌then◌else◌, Bool-cases, ◌==◌, ==_iff, String-discrete,
  string_eq, nat_eq, bool_eq, option_eq, Error, key_error, fail_json, ok, err,
}
use community_aws.ParameterGroup.Client.{Value, text, number, boolean, Service}
use community_aws.ParameterGroup.Values.{is_int, check_type, is_allowed}

abbrev is_text : Value → Bool
is_text (text t) = true
is_text (number n) = false
is_text (boolean b) = false

-- integers are numbers or Booleans, strings are texts, and there is no other type
abbrev pub fits : String → Value → Bool
fits data_type value =
    if data_type == "integer" then is_int value else (data_type == "string") && is_text value

pub check_type-fits : (t : String) (v : Value) → fits t v ≡ true → check_type t v ≡ ok tt
unfolding check_type
check_type-fits t (text x) h = ground (arith, h)
check_type-fits t (number n) h = ground (arith, h)
check_type-fits t (boolean b) h = ground (arith, h)

pub check_type-refused :
    (t : String) (v : Value) → fits t v ≡ false → (e : Error) × (check_type t v ≡ err e)
unfolding check_type
check_type-refused t (text x) h = elim (Bool-cases (t == "integer")) [
  | inl int ↦ (fail_json "is not an allowed value for the parameter", rw int refl)
  | inr other_ ↦ elim (Bool-cases (t == "string")) [
    | inl string ↦ cc (rw (other_, string) at h)
    | inr unknown ↦ (key_error t, rw (other_, unknown) refl)
  ]
]
check_type-refused t (number n) h = elim (Bool-cases (t == "integer")) [
  | inl int ↦ cc (rw int at h)
  | inr other_ ↦ elim (Bool-cases (t == "string")) [
    | inl string ↦ (fail_json "is not an allowed value for the parameter", rw (other_, string) refl)
    | inr unknown ↦ (key_error t, rw (other_, unknown) refl)
  ]
]
check_type-refused t (boolean b) h = elim (Bool-cases (t == "integer")) [
  | inl int ↦ cc (rw int at h)
  | inr other_ ↦ elim (Bool-cases (t == "string")) [
    | inl string ↦ (fail_json "is not an allowed value for the parameter", rw (other_, string) refl)
    | inr unknown ↦ (key_error t, rw (other_, unknown) refl)
  ]
]

-- the type of a value, by the two names of types
abbrev pub IsNumber : Value → Type 0
IsNumber (text t) = ⊥
IsNumber (number n) = Unit
IsNumber (boolean b) = Unit

abbrev pub IsText : Value → Type 0
IsText (text t) = Unit
IsText (number n) = ⊥
IsText (boolean b) = ⊥

abbrev pub HasType : String → Value → Type 0
HasType data_type value =
    ((data_type ≡ "integer") × IsNumber value) ⊎ ((data_type ≡ "string") × IsText value)

-- What the one text of the allowed values allows.
abbrev pub IsAllowed : Service → Option String → Value → Type 0
IsAllowed s none value = Unit
IsAllowed s (some choices) value =
    (choices ≡ "") ⊎ (IsPart (s.to_text value) choices ⊎ IsNumber value)

pub same_truth : (a b : Bool) → (a ≡ true → b ≡ true) → (b ≡ true → a ≡ true) → a ≡ b
same_truth true b f g = sym (f refl)
same_truth false true f g = g refl
same_truth false false f g = refl

is_int_lem : (v : Value) → (is_int v ≡ true) ↔ IsNumber v
is_int_lem (text t) = (λ h. cc, λ h. absurd h)
is_int_lem (number n) = (λ h. tt, λ h. refl)
is_int_lem (boolean b) = (λ h. tt, λ h. refl)

is_text_lem : (v : Value) → (is_text v ≡ true) ↔ IsText v
is_text_lem (text t) = (λ h. tt, λ h. refl)
is_text_lem (number n) = (λ h. cc, λ h. absurd h)
is_text_lem (boolean b) = (λ h. cc, λ h. absurd h)

string_fits : (v : Value) → is_text v ≡ true → fits "string" v ≡ true
unfolding String-discrete
string_fits v k = k

pub fits_lem : (t : String) (v : Value) → (fits t v ≡ true) ↔ HasType t v
fits_lem t v = (
  (λ h. elim (Bool-cases (t == "integer")) [
    | inl int ↦ inl ((==_iff t "integer").0 int, (is_int_lem v).0 (rw int at h))
    | inr other_ ↦
        let both : (t == "string") && is_text v ≡ true = rw other_ at h in
        let named : (t == "string") ≡ true = ground (arith, both) in
        inr ((==_iff t "string").0 named, (is_text_lem v).0 (ground (arith, both)))
  ]),
  λ h. elim h [
    | inl (named, int) ↦ rw (fits, (==_iff t "integer").1 named) ((is_int_lem v).1 int)
    | inr (named, string) ↦
        subst (λ x. fits x v ≡ true) (sym named) (string_fits v ((is_text_lem v).1 string))
  ],
)

pub is_allowed_lem :
    (s : Service) (o : Option String) (v : Value) → (is_allowed s o v ≡ true) ↔ IsAllowed s o v
unfolding is_allowed
is_allowed_lem s none v = (λ h. tt, λ h. refl)
is_allowed_lem s (some choices) v = (
  (λ h. elim (Bool-cases (choices == "")) [
    | inl empty ↦ inl ((==_iff choices "").0 empty)
    | inr some_ ↦ elim (Bool-cases (is_within (s.to_text v) choices)) [
      | inl part ↦ inr (inl ((is_within_lem (s.to_text v) choices).0 part))
      | inr missing ↦ inr (inr ((is_int_lem v).0 (rw (some_, missing) at h)))
    ]
  ]),
  λ h. elim h [
    | inl empty ↦ let e = (==_iff choices "").1 empty in ground (arith, e)
    | inr (inl part) ↦ let e = (is_within_lem (s.to_text v) choices).1 part in ground (arith, e)
    | inr (inr int) ↦ let e = (is_int_lem v).1 int in ground (arith, e)
  ],
)
