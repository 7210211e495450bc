-- ===== src/ParameterGroup/Values/Laws.antt =====
-- The check of the values, against a description of what is valid and what is a change.
use community_aws.Base.{
  String, ◌≡◌, refl, sym, ap, ◌∙◌, ◌≢◌, ◌↔◌, ◌⊎◌, inl, inr, Bool, true, false, ◌&&◌, ◌||◌, none,
  some, List, [], ◌∷◌, arith, Bool-cases, Option-cases, any, all, All, ==_iff, ==_false, string_eq,
  nat_eq, bool_eq, option_eq, Error, fail_json, ok, err, for_each, ok_inj,
}
use community_aws.ParameterGroup.Client.{Value, Service}
use community_aws.ParameterGroup.Values.{
  Dict, Entry, lookup, is_allowed, differs, check_value, check_valid_modification,
}
use community_aws.ParameterGroup.Values.Types.{
  fits, check_type-fits, check_type-refused, HasType, IsAllowed, same_truth, fits_lem,
  is_allowed_lem,
}

module _ (s : Service) (d : Dict) where
  -- the same as tests
  abbrev is_valid : String × Value → Bool
  is_valid (parameter, value) = elim (lookup parameter d) [
    | none ↦ false
    | some e ↦ fits e.data_type value && is_allowed s e.allowed_values value
  ]

  abbrev is_change : String × Value → Bool
  is_change (parameter, value) = elim (lookup parameter d) [
    | none ↦ false
    | some e ↦ differs s value e
  ]

  check_value-valid :
      (v : String × Value) (changed : Bool)
      → is_valid v ≡ true
      → check_value s d v changed ≡ ok (is_change v || changed)
  unfolding check_value
  check_value-valid (parameter, value) changed h = elim (Option-cases (lookup parameter d)) [
    | inl missing ↦ cc (rw (missing, is_valid) at h)
    | inr (e, found) ↦
        let both = rw (found, is_valid) at h in
        let fit : fits e.data_type value ≡ true = ground (arith, both) in
        let allowed : is_allowed s e.allowed_values value ≡ true = ground (arith, both) in
        rw (found, check_type-fits e.data_type value fit, allowed) (ground arith)
  ]

  check_value-refused :
      (v : String × Value) (changed : Bool)
      → is_valid v ≡ false
      → (x : Error) × (check_value s d v changed ≡ err x)
  unfolding check_value
  check_value-refused (parameter, value) changed h = elim (Option-cases (lookup parameter d)) [
    | inl missing ↦ (fail_json "is not a modifiable parameter.", rw missing refl)
    | inr (e, found) ↦ elim (Bool-cases (fits e.data_type value)) [
      | inr misfit ↦
          let (x, refused) = check_type-refused e.data_type value misfit in
          (x, rw (found, refused) refl)
      | inl fit ↦
          let both = rw (found, is_valid, fit) at h in
          let forbidden : is_allowed s e.allowed_values value ≡ false = ground (arith, both) in
          (
            fail_json "is not an allowed value",
            rw (found, check_type-fits e.data_type value fit, forbidden) refl,
          )
    ]
  ]

  check-valid :
      (values : List (String × Value)) (changed : Bool)
      → all is_valid values ≡ true
      → for_each (check_value s d) values changed ≡ ok (any is_change values || changed)
  check-valid [] changed h = refl
  check-valid (v ∷ l) changed h =
      let first : is_valid v ≡ true = ground (arith, h) in
      let others : all is_valid l ≡ true = ground (arith, h) in
      rw (check_value-valid v changed first, check-valid l (is_change v || changed) others)
        (ground arith)

  check-refused :
      (values : List (String × Value)) (changed : Bool)
      → all is_valid values ≡ false
      → (x : Error) × (for_each (check_value s d) values changed ≡ err x)
  check-refused [] changed h = cc
  check-refused (v ∷ l) changed h = elim (Bool-cases (is_valid v)) [
    | inr bad ↦ let (x, refused) = check_value-refused v changed bad in (x, rw refused refl)
    | inl good ↦
        let others : all is_valid l ≡ false = ground (arith, h, good) in
        let (x, refused) = check-refused l (is_change v || changed) others in
        (x, rw (check_value-valid v changed good) refused)
  ]

  -- a modifiable parameter, with a value of its type that is allowed
  abbrev pub IsValid : String × Value → Type 0
  IsValid (parameter, value) =
      (e : Entry) × (lookup parameter d ≡ some e)
      × (HasType e.data_type value × IsAllowed s e.allowed_values value)

  -- a value whose text is not the current one
  abbrev pub IsChange : String × Value → Type 0
  IsChange (parameter, value) =
      (e : Entry) × (lookup parameter d ≡ some e) × (some (s.to_text value) ≢ e.parameter_value)

  abbrev pub SomeChange : List (String × Value) → Type 0
  SomeChange [] = ⊥
  SomeChange (v ∷ l) = IsChange v ⊎ SomeChange l

  is_valid_lem : (v : String × Value) → (is_valid v ≡ true) ↔ IsValid v
  is_valid_lem (parameter, value) = (
    (λ h. elim (Option-cases (lookup parameter d)) [
      | inl missing ↦ cc (rw (missing, is_valid) at h)
      | inr (e, found) ↦
          let both = rw (found, is_valid) at h in
          (
            e,
            found,
            (
              (fits_lem e.data_type value).0 (ground (arith, both)),
              (is_allowed_lem s e.allowed_values value).0 (ground (arith, both)),
            ),
          )
    ]),
    λ (e, found, (typed, allowed)).
        let one = (fits_lem e.data_type value).1 typed in
        let two = (is_allowed_lem s e.allowed_values value).1 allowed in
        rw (found, is_valid, one, two) refl,
  )

  is_change_lem : (v : String × Value) → (is_change v ≡ true) ↔ IsChange v
  is_change_lem (parameter, value) = (
    (λ h. elim (Option-cases (lookup parameter d)) [
      | inl missing ↦ cc (rw (missing, is_change) at h)
      | inr (e, found) ↦
          let differ = rw (found, is_change) at h in
          (e, found, λ same. cc (sym (rw ((==_iff _ _).1 same) at differ)))
    ]),
    λ (e, found, other).
        let unequal = ==_false (some (s.to_text value)) e.parameter_value other in
        rw (found, is_change, unequal) refl,
  )

  all-IsValid : (values : List (String × Value)) → (all is_valid values ≡ true) ↔ All IsValid values
  all-IsValid [] = (λ h. tt, λ h. refl)
  all-IsValid (v ∷ l) = (
    (λ h. ((is_valid_lem v).0 (ground (arith, h)), (all-IsValid l).0 (ground (arith, h)))),
    λ (first, others).
        let one = (is_valid_lem v).1 first in
        let rest = (all-IsValid l).1 others in ground (arith, one, rest),
  )

  any-SomeChange :
      (values : List (String × Value)) → (any is_change values ≡ true) ↔ SomeChange values
  any-SomeChange [] = (λ h. cc, λ h. absurd h)
  any-SomeChange (v ∷ l) = (
    (λ h. elim (Bool-cases (is_change v)) [
      | inl here ↦ inl ((is_change_lem v).0 here)
      | inr not_here ↦ inr ((any-SomeChange l).0 (ground (arith, h, not_here)))
    ]),
    λ h. elim h [
      | inl here ↦ let one = (is_change_lem v).1 here in ground (arith, one)
      | inr later ↦ let rest = (any-SomeChange l).1 later in ground (arith, rest)
    ],
  )

  -- The check of the values passes exactly if each is of a modifiable parameter, has its type (a text
  -- for a string; a number or a Boolean for an integer; there is no other type), and is allowed: nothing
  -- is listed as allowed, the value is no text, or its text stands somewhere in the one text of
  -- the allowed values, be it across two of them. It then reports a change exactly if the text of some
  -- value is not the current one.
  pub check_valid_modification_lem :
      (values : List (String × Value)) (changed : Bool)
      → (check_valid_modification s values d ≡ ok changed)
        ↔ (All IsValid values × ((changed ≡ true) ↔ SomeChange values))
  unfolding check_valid_modification
  check_valid_modification_lem values changed = (
    (λ h. elim (Bool-cases (all is_valid values)) [
      | inl good ↦
          let same : changed ≡ any is_change values =
            ok_inj (sym h ∙ check-valid values false good) ∙ ground arith in
          (
            (all-IsValid values).0 good,
            (
              (λ c. (any-SomeChange values).0 (sym same ∙ c)),
              λ c. same ∙ (any-SomeChange values).1 c,
            ),
          )
      | inr bad ↦ let (x, refused) = check-refused values false bad in cc
    ]),
    λ (valid, change).
        check-valid values false ((all-IsValid values).1 valid)
        ∙ ap (λ b. ok b)
            (same_truth (any is_change values || false) changed
              (λ h. change.1 ((any-SomeChange values).0 (ground (arith, h))))
              (λ h. let c = (any-SomeChange values).1 (change.0 h) in ground (arith, c))),
  )
