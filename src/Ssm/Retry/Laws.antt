-- ===== src/Ssm/Retry/Laws.antt =====
-- How often `_ssm_retry` calls its function, and with what result.
use community_aws.Base.{
  ℕ, zero, suc, ◌+◌, ◌*◌, ◌≤◌, ◌≡◌, inl, inr, List, [], ◌∷◌, arith, string_eq, nat_eq, bool_eq,
  option_eq, Error, Result, ok, err, Result-cases,
}
use mathlib.Core.Path.{subst}
use community_aws.Ssm.Retry.{Step, sleep, close, pause, retry_from, ssm_retry}

-- the steps after each of the failed calls k, k + 1, …, n of them
abbrev pub waits : ℕ → ℕ → List Step
waits k zero = []
waits k (suc n) = sleep (pause k) ∷ close ∷ waits (suc k) n

-- the n calls from the k-th on fail
abbrev pub Fails : {A : Type 0} → (ℕ → Result A) → ℕ → ℕ → Type 0
Fails attempt k zero = Unit
Fails attempt k (suc n) = ((e : Error) × (attempt k ≡ err e)) × Fails attempt (suc k) n

module _ {A : Type 0} (attempt : ℕ → Result A) where
  moved : (i j : ℕ) (r : Result A) → i ≡ j → attempt i ≡ r → attempt j ≡ r
  moved i j r p e = subst (λ x. attempt x ≡ r) p e

  retry_from-first :
      (n k m : ℕ) (a : A)
      → Fails attempt k n
      → n ≤ m
      → attempt (k + n) ≡ ok a
      → retry_from attempt k (suc m) ≡ (waits k n, ok a)
  unfolding retry_from
  retry_from-first zero k m a h b e = ground (arith, moved (k + 0) k (ok a) (omega arith) e)
  retry_from-first (suc n) k zero a h b e = absurd (omega arith)
  retry_from-first (suc n) k (suc m) a ((x, hx), hs) b e =
      (ground (
        arith,
        hx,
        retry_from-first n (suc k) m a hs (omega arith)
            (subst (λ j. attempt j ≡ ok a) (omega arith) e),
      ))

  retry_from-last :
      (n k : ℕ) (c : Error)
      → Fails attempt k n
      → attempt (k + n) ≡ err c
      → retry_from attempt k (suc n) ≡ (waits k n, err c)
  unfolding retry_from
  retry_from-last zero k c h e = ground (arith, moved (k + 0) k (err c) (omega arith) e)
  retry_from-last (suc n) k c ((x, hx), hs) e =
      (ground (
        arith,
        hx,
        retry_from-last n (suc k) c hs (moved (k + suc n) (suc k + n) (err c) (omega arith) e),
      ))

  -- If the first n calls fail and the next one succeeds, and n is at most `retries`, the decorator
  -- returns that result after a pause and a close for each failed call.
  pub ssm_retry-first :
      (n retries : ℕ) (a : A)
      → Fails attempt 0 n
      → n ≤ retries
      → attempt n ≡ ok a
      → ssm_retry attempt retries ≡ (waits 0 n, ok a)
  unfolding ssm_retry
  ssm_retry-first n retries a h b e =
      subst (λ m. retry_from attempt 0 m ≡ (waits 0 n, ok a)) {x = suc retries} (omega arith)
        (retry_from-first n 0 retries a h b (moved n (0 + n) (ok a) (omega arith) e))

  -- If the first call and all `retries` repetitions fail, the decorator raises the last exception;
  -- it does not pause or close behind the last call.
  pub ssm_retry-last :
      (retries : ℕ) (c : Error)
      → Fails attempt 0 retries
      → attempt retries ≡ err c
      → ssm_retry attempt retries ≡ (waits 0 retries, err c)
  unfolding ssm_retry
  ssm_retry-last retries c h e =
      subst (λ m. retry_from attempt 0 m ≡ (waits 0 retries, err c)) {x = suc retries} (omega arith)
        (retry_from-last retries 0 c h (moved retries (0 + retries) (err c) (omega arith) e))

-- the seconds that a list of steps sleeps
abbrev pub slept : List Step → ℕ
slept [] = 0
slept (sleep n ∷ l) = n + slept l
slept (close ∷ l) = slept l

-- how often a list of steps closes the session
abbrev pub closes : List Step → ℕ
closes [] = 0
closes (sleep n ∷ l) = closes l
closes (close ∷ l) = closes l + 1

module _ {A : Type 0} (attempt : ℕ → Result A) where
  slept-retry_from :
      (left k : ℕ)
      → (slept (retry_from attempt k (suc left)).0 ≤ 30 * left)
        × (closes (retry_from attempt k (suc left)).0 ≤ left)
  unfolding retry_from pause
  slept-retry_from zero k = elim (Result-cases (attempt k)) [
    | inl (a, done) ↦ ground (arith, done)
    | inr (e, failed) ↦ ground (arith, failed)
  ]
  slept-retry_from (suc left) k =
      let (s, t) = slept-retry_from left (suc k) in
      elim (Result-cases (attempt k)) [
        | inl (a, done) ↦ ground (arith, done)
        | inr (e, failed) ↦ ground (arith, failed, s, t)
      ]

  -- Whatever the calls do, the decorator sleeps for at most thirty seconds for each of the `retries`
  -- repetitions, and closes the session at most as often.
  ssm_retry-slept :
      (retries : ℕ)
      → (slept (ssm_retry attempt retries).0 ≤ 30 * retries)
        × (closes (ssm_retry attempt retries).0 ≤ retries)
  unfolding ssm_retry
  ssm_retry-slept retries =
      subst
        (λ m.
          (slept (retry_from attempt 0 m).0 ≤ 30 * retries)
          × (closes (retry_from attempt 0 m).0 ≤ retries))
        {x = suc retries} (omega arith) (slept-retry_from retries 0)
