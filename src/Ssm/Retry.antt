-- ===== src/Ssm/Retry.antt =====
-- `_ssm_retry`: the decorator that runs a function again after an exception. `attempt k` is what
-- the k-th call of the function does, and the log holds what happens between the calls.
pub mod Laws
use community_aws.Base.{
  ℕ, zero, suc, ◌+◌, ◌-◌, ◌*◌, ◌≤◌, ◌<◌, String, ◌≡◌, refl, sym, ap, ◌∙◌, ◌≢◌, ◌↔◌, ◌⊎◌, inl, inr,
  Bool, true, false, ◌&&◌, ◌||◌, not, Option, none, some, List, [], ◌∷◌, ◌++◌, map, arith,
  ℕ_discrete, ltb, leb, eqb, if◌then◌else◌, Bool-cases, Sum-cases, Option-cases, eqb_iff, length,
  take, drop, filter, any, all, All, filter-filter, filter-append, contains, contains-append,
  contains-filter, length-append, length-take, length-drop, take-append-drop, Eq, ◌==◌, ==_iff,
  ==_refl, ==_false, String-discrete, string_eq, nat_eq, bool_eq, option_eq, Option-discrete, upper,
  Error, key_error, value_error, type_error, index_error, unbound_local_error, fail_json,
  client_error, Result, ok, err, ◌>>=◌, ◌>>◌, or_raise, raise_if, >>=-eq-ok, for_each, Result-cases,
  ok_pair, ok_inj, some_ok_pair,
}
use Prim.Native.Nat.{◌^◌}

pub data Step : Type 0 where
  -- `time.sleep(pause)`
  sleep : ℕ → Step
  -- `self.close()`
  close : Step

-- `pause = 2 ** attempt - 1`, at most 30
unfoldable pub pause : ℕ → ℕ
pause attempt = let p = 2 ^ attempt - 1 in if ltb 30 p then 30 else p

module _ {A : Type 0} where
  -- the rounds of `for attempt in range(remaining_tries)`, from a number, with the rounds left
  unfoldable pub retry_from : (ℕ → Result A) → ℕ → ℕ → List Step × Result A
  retry_from attempt k zero = ([], err unbound_local_error)
  retry_from attempt k (suc left) =
      let rest = retry_from attempt (suc k) left in
      elim (attempt k) [
        | ok a ↦ ([], ok a)
        | err e ↦ if eqb left 0 then ([], err e) else (sleep (pause k) ∷ close ∷ rest.0, rest.1)
      ]

  -- `retries` is the option of the connection; with no round at all `return_tuple` has no value
  unfoldable pub ssm_retry : (ℕ → Result A) → ℕ → List Step × Result A
  unfolding retry_from
  ssm_retry attempt retries = retry_from attempt 0 (retries + 1)
