-- ===== src/Asg/Wait.antt =====
-- `wait_for_new_inst` and `wait_for_term_inst`: polling the group until a condition holds or the
-- time is up. The service and the clock are parameters: `describe` is what
-- `describe_autoscaling_groups` returns, and time counts in whole seconds. A loop takes fuel, the
-- rounds it may make; none means that the fuel ran out.
pub mod Laws
use community_aws.Base.{
  ℕ, zero, suc, ◌+◌, ◌-◌, ◌*◌, ◌≤◌, ◌<◌, String, ◌≡◌, refl, sym, ap, ◌∙◌, ◌≢◌, ◌↔◌, ◌⊎◌, inl, inr,
  Bool, true, false, ◌&&◌, ◌||◌, not, Option, none, some, List, [], ◌∷◌, ◌++◌, map, arith,
  ℕ_discrete, ltb, leb, eqb, if◌then◌else◌, Bool-cases, Sum-cases, Option-cases, eqb_iff, length,
  take, drop, filter, any, all, All, filter-filter, filter-append, contains, contains-append,
  contains-filter, length-append, length-take, length-drop, take-append-drop, Eq, ◌==◌, ==_iff,
  ==_refl, ==_false, String-discrete, string_eq, nat_eq, bool_eq, option_eq, Option-discrete, upper,
  Error, key_error, value_error, type_error, index_error, unbound_local_error, fail_json,
  client_error, Result, ok, err, ◌>>=◌, ◌>>◌, or_raise, raise_if, >>=-eq-ok, for_each, Result-cases,
  ok_pair, ok_inj,
}
use text.Mathlib.Text.{starts_with}
use mathlib.Core.Option
use community_aws.Base.Int.{ℤ, pos, ltb_ℤ}
use community_aws.Asg.Properties.{Group, Facts, Counts, Props, get_properties}

pub record Service : Type 1 where
  pub World : Type 0
  pub describe : World → List Group
  -- `time.time()` and `time.sleep(n)`
  pub now : World → ℕ
  pub sleep : ℕ → World → World
  -- the interpreter: None < 1 is True in Python 2, and a TypeError in Python 3
  pub none_is_smaller : Bool

-- The clock does not run slow: n seconds of sleep take at least n seconds.
pub record IsClock (s : Service) : Type 0 where
  pub sleep_lasts : (n : ℕ) (w : s.World) → s.now w + n ≤ s.now (s.sleep n w)

-- `describe_autoscaling_groups(…)[0]`
abbrev pub first_group : List Group → Result Group
first_group [] = err index_error
first_group (g ∷ _) = ok g

-- the instances of the facts that are among the terminated ones and still there
unfoldable pub is_terminating : List String → String × Facts → Bool
is_terminating terms (i, f) =
    contains i terms
    && (starts_with f.lifecycle_state "Terminating" || (f.health_status == "Unhealthy"))

unfoldable pub count_terminating : List String → Props → ℕ
count_terminating terms props = length (filter (is_terminating terms) props.instance_facts)

module _ (s : Service) where
  open s use {World, describe, now, sleep}

  unfoldable pub wait_new_loop :
      ℕ → ℕ → ℤ → (Counts → ℕ) → Props → World → Option (Result (Props × World))
  wait_new_loop zero deadline desired_size prop props w = none
  wait_new_loop (suc fuel) deadline desired_size prop props w =
      let w' = sleep 10 w in
      let again : Option (Result (Props × World)) = elim (first_group (describe w')) [
        | err e ↦ some (err e)
        | ok g ↦ wait_new_loop fuel deadline desired_size prop (get_properties g) w'
      ] in
      if ltb (now w) deadline && ltb_ℤ (pos (prop props.counts)) desired_size
      then again
      else some (ok (props, w))

  -- the test behind the loop
  new_or_fail : ℕ → Props × World → Result (Props × World)
  new_or_fail deadline (props, w) =
      if leb deadline (now w)
      then err (fail_json "Waited too long for new instances to become viable.")
      else ok (props, w)

  unfoldable pub wait_for_new_inst :
      ℕ → ℕ → ℤ → (Counts → ℕ) → World → Option (Result (Props × World))
  unfolding new_or_fail
  wait_for_new_inst fuel wait_timeout desired_size prop w = elim (first_group (describe w)) [
    | err e ↦ some (err e)
    | ok g ↦
        Option.map (λ r. r >>= new_or_fail (now w + wait_timeout))
          (wait_new_loop fuel (now w + wait_timeout) desired_size prop (get_properties g) w)
  ]

  unfoldable pub wait_term_loop : ℕ → ℕ → List String → ℕ → World → Option (Result (ℕ × World))
  wait_term_loop zero deadline terms count w = none
  wait_term_loop (suc fuel) deadline terms count w =
      let again : Option (Result (ℕ × World)) = elim (first_group (describe w)) [
        | err e ↦ some (err e)
        | ok g ↦
            wait_term_loop fuel deadline terms (count_terminating terms (get_properties g))
              (sleep 10 w)
      ] in
      if ltb (now w) deadline && ltb 0 count then again else some (ok (count, w))

  term_or_fail : ℕ → ℕ × World → Result World
  term_or_fail deadline (count, w) =
      if leb deadline (now w)
      then err (fail_json "Waited too long for old instances to terminate.")
      else ok w

  unfoldable pub wait_for_term_inst : ℕ → ℕ → List String → World → Option (Result World)
  unfolding term_or_fail
  wait_for_term_inst fuel wait_timeout terms w = elim (first_group (describe w)) [
    | err e ↦ some (err e)
    | ok g ↦
        Option.map (λ r. r >>= term_or_fail (now w + wait_timeout))
          (wait_term_loop fuel (now w + wait_timeout) terms 1 w)
  ]
