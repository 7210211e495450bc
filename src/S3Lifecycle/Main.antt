-- ===== src/S3Lifecycle/Main.antt =====
-- The function `main`: the checks of the parameters, and which of the two operations runs.
use community_aws.Base.{
  is_empty, zero, String, ◌≡◌, refl, Bool, true, false, ◌&&◌, ◌||◌, not, Option, none, some, List,
  string_eq, nat_eq, bool_eq, option_eq, Error, fail_json, Result, err, ◌>>=◌, ◌>>◌, raise_if,
}
use community_aws.Base.Int.{ℤ, pos}
use community_aws.S3Lifecycle.Build.{Status, enabled, disabled, Params}
use community_aws.S3Lifecycle.Client.{Client}
use community_aws.S3Lifecycle.Destroy.{create_lifecycle_rule, destroy_lifecycle_rule}

-- whether the import of dateutil succeeded, and whether `strptime` reads a text with the format
-- "%Y-%m-%dT%H:%M:%S.000Z"
pub record Host : Type 0 where
  pub has_dateutil : Bool
  pub is_date : String → Bool

pub data State : Type 0 where
  present absent : State

-- the truth of a parameter: an empty text, the number 0 and an empty list count as missing
abbrev pub has_text : Option String → Bool
has_text none = false
has_text (some String.[]) = false
has_text (some (String.◌∷◌ c s)) = true

abbrev pub has_days : Option ℤ → Bool
has_days none = false
has_days (some (pos zero)) = false
has_days (some n) = true

abbrev pub has_entries {ℓ} : {A : Type ℓ} → Option (List A) → Bool
has_entries none = false
has_entries (some l) = not (is_empty l)

-- the loop over `required_when_present`
unfoldable pub has_required : Params → Bool
has_required p =
    has_text p.expiration_date
    || has_days p.expiration_days
    || has_text p.transition_date
    || has_days p.transition_days
    || has_entries p.transitions
    || has_days p.noncurrent_version_expiration_days
    || has_days p.noncurrent_version_transition_days
    || has_entries p.noncurrent_version_transitions

abbrev is_enabled : Status → Bool
is_enabled enabled = true
is_enabled disabled = false

abbrev is_present : State → Bool
is_present present = true
is_present absent = false

-- a date that is given, and not read
abbrev is_wrong : Host → Option String → Bool
is_wrong h none = false
is_wrong h (some s) = not (h.is_date s)

abbrev wrong_date : Error
wrong_date =
    fail_json
      "expiration_date is not a valid ISO-8601 format. The time must be midnight and a timezone of GMT must be included"

unfoldable pub check_params : Host → State → Params → Result (Unit {0})
unfolding has_required
check_params h state p =
    raise_if (not h.has_dateutil) (fail_json "dateutil required for this module")
    >> raise_if (is_present state && is_enabled p.status && not (has_required p))
        (fail_json "one of the following is required when 'state' is 'present'")
    >> raise_if (is_wrong h p.expiration_date) wrong_date
    >> raise_if (is_wrong h p.transition_date) wrong_date

module _ (client : Client) where
  abbrev run_state : State → Params → client.World → Result (Bool × client.World)
  run_state present p w = create_lifecycle_rule client p w
  run_state absent p w = destroy_lifecycle_rule client p w

  unfoldable pub main : Host → State → Params → client.World → Result (Bool × client.World)
  unfolding check_params create_lifecycle_rule destroy_lifecycle_rule
  main h state p w = check_params h state p >>= λ _. run_state state p w

-- An enabled rule whose only settings are numbers of days that are 0, or lists without entries, is
-- refused: 0 days count as no setting.
main-no_days :
    (client : Client) (h : Host) (p : Params) (w : client.World)
    → h.has_dateutil ≡ true
    → p.status ≡ enabled
    → has_required p ≡ false
    → main client h present p w
      ≡ err (fail_json "one of the following is required when 'state' is 'present'")
unfolding main check_params
main-no_days client h p w util on_ missing = rw (util, on_, missing) refl
