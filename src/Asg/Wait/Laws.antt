-- ===== src/Asg/Wait/Laws.antt =====
-- The waits end within their time, and a wait that succeeds has seen its condition.
use community_aws.Base.{
  ℕ, zero, suc, ◌+◌, ◌*◌, ◌≤◌, ◌<◌, String, ◌≡◌, ap, ◌≢◌, inl, inr, ◌&&◌, Option, none, some, List,
  arith, ltb, leb, Bool-cases, string_eq, nat_eq, bool_eq, option_eq, Result, ok, err, ◌>>=◌,
  Result-cases, some_ok_pair,
}
use mathlib.Core.Option
use mathlib.Core.Path.{subst}
use community_aws.Base.Int.{ℤ, pos, ltb_ℤ, ◌≤ℤ◌}
use community_aws.Asg.Properties.{Group, Counts, Props, get_properties}
use community_aws.Asg.Wait.{
  Service, IsClock, first_group, count_terminating, wait_new_loop, new_or_fail, wait_for_new_inst,
  wait_term_loop, term_or_fail, wait_for_term_inst,
}

module _ (s : Service) (clock : IsClock s) where
  wait_new_loop-total :
      (fuel deadline : ℕ) (n : ℤ) (prop : Counts → ℕ) (props : Props) (w : s.World)
      → deadline ≤ 10 * fuel + s.now w
      → wait_new_loop s (suc fuel) deadline n prop props w ≢ none
  unfolding wait_new_loop
  wait_new_loop-total zero deadline n prop props w h = ground arith
  wait_new_loop-total (suc fuel) deadline n prop props w h =
      elim (Result-cases (first_group (s.describe (s.sleep 10 w)))) [
        | inr (e, raised) ↦ ground (arith, raised)
        | inl (g, got) ↦ ground (
          arith,
          got,
          clock.sleep_lasts 10 w,
          wait_new_loop-total fuel deadline n prop (get_properties g) (s.sleep 10 w),
        )
      ]

  wait_term_loop-total :
      (fuel deadline : ℕ) (terms : List String) (count : ℕ) (w : s.World)
      → deadline ≤ 10 * fuel + s.now w
      → wait_term_loop s (suc fuel) deadline terms count w ≢ none
  unfolding wait_term_loop
  wait_term_loop-total zero deadline terms count w h = ground arith
  wait_term_loop-total (suc fuel) deadline terms count w h =
      elim (Result-cases (first_group (s.describe w))) [
        | inr (e, raised) ↦ ground (arith, raised)
        | inl (g, got) ↦ ground (
          arith,
          got,
          clock.sleep_lasts 10 w,
          wait_term_loop-total fuel deadline terms (count_terminating terms (get_properties g))
              (s.sleep 10 w),
        )
      ]

  -- A round for every ten seconds of the timeout, and one more, is enough: both waits return or
  -- raise.
  pub waits_end :
      (fuel wait_timeout : ℕ) (n : ℤ) (prop : Counts → ℕ) (terms : List String) (w : s.World)
      → wait_timeout ≤ 10 * fuel
      → (wait_for_new_inst s (suc fuel) wait_timeout n prop w ≢ none)
        × (wait_for_term_inst s (suc fuel) wait_timeout terms w ≢ none)
  unfolding wait_for_new_inst wait_for_term_inst
  waits_end fuel wait_timeout n prop terms w h = elim (Result-cases (first_group (s.describe w))) [
    | inr (e, raised) ↦ (ground (arith, raised), ground (arith, raised))
    | inl (g, got) ↦ (
      ground (
        arith,
        got,
        wait_new_loop-total fuel (s.now w + wait_timeout) n prop (get_properties g) w,
      ),
      ground (arith, got, wait_term_loop-total fuel (s.now w + wait_timeout) terms 1 w),
    )
  ]

module _ (s : Service) where
  stopped :
      (n : ℤ) (prop : Counts → ℕ) (props props' : Props)
      → props ≡ props'
      → n ≤ℤ pos (prop props.counts)
      → n ≤ℤ pos (prop props'.counts)
  stopped n prop props props' same h = subst (λ p. n ≤ℤ pos (prop p.counts)) same h

  wait_new_loop-enough :
      (fuel deadline : ℕ) (n : ℤ) (prop : Counts → ℕ) (props props' : Props) (w w' : s.World)
      → wait_new_loop s fuel deadline n prop props w ≡ some (ok (props', w'))
      → s.now w' < deadline
      → n ≤ℤ pos (prop props'.counts)
  unfolding wait_new_loop
  wait_new_loop-enough zero deadline n prop props props' w w' h t = cc
  wait_new_loop-enough (suc fuel) deadline n prop props props' w w' h t =
      elim (Bool-cases (ltb (s.now w) deadline && ltb_ℤ (pos (prop props.counts)) n)) [
        | inr stop ↦
            let (same, there) = some_ok_pair (rw stop at h) in
            let early : s.now w < deadline = rw there t in
            stopped n prop props props' same (ground (arith, stop))
        | inl more ↦ elim (Result-cases (first_group (s.describe (s.sleep 10 w)))) [
          | inr (e, raised) ↦ cc (rw (more, raised) at h)
          | inl (g, got) ↦
              wait_new_loop-enough fuel deadline n prop (get_properties g) props' (s.sleep 10 w) w'
                (rw (more, got) at h) t
        ]
      ]

  -- some answer of the service shows none of the instances terminating or unhealthy
  abbrev pub Seen : List String → Type 0
  Seen terms =
      (v : s.World) × (g : Group) × (first_group (s.describe v) ≡ ok g)
      × (count_terminating terms (get_properties g) ≡ 0)

  wait_term_loop-Seen :
      (fuel deadline : ℕ) (terms : List String) (count count' : ℕ) (w w' : s.World)
      → (count ≡ 0 → Seen terms)
      → wait_term_loop s fuel deadline terms count w ≡ some (ok (count', w'))
      → s.now w' < deadline
      → Seen terms
  unfolding wait_term_loop
  wait_term_loop-Seen zero deadline terms count count' w w' seen h t = cc
  wait_term_loop-Seen (suc fuel) deadline terms count count' w w' seen h t =
      elim (Bool-cases (ltb (s.now w) deadline && ltb 0 count)) [
        | inr stop ↦
            let (same, there) = some_ok_pair (rw stop at h) in
            let early : s.now w < deadline = rw there t in seen (ground (arith, stop))
        | inl more ↦ elim (Result-cases (first_group (s.describe w))) [
          | inr (e, raised) ↦ cc (rw (more, raised) at h)
          | inl (g, got) ↦
              wait_term_loop-Seen fuel deadline terms (count_terminating terms (get_properties g))
                count' (s.sleep 10 w) w' (λ z. (w, g, got, z)) (rw (more, got) at h) t
        ]
      ]

  after_new :
      (d : ℕ) (o : Option (Result (Props × s.World))) (props : Props) (w' : s.World)
      → Option.map (λ r. r >>= new_or_fail s d) o ≡ some (ok (props, w'))
      → (o ≡ some (ok (props, w'))) × (s.now w' < d)
  unfolding new_or_fail
  after_new d none props w' h = (cc, cc)
  after_new d (some (err e)) props w' h = (cc, cc)
  after_new d (some (ok (q, v))) props w' h = elim (Bool-cases (leb d (s.now v))) [
    | inl late ↦ (cc (rw late at h), cc (rw late at h))
    | inr early ↦
        let k : ◌≡◌ {A = Option (Result (Props × s.World))} (some (ok (q, v)))
            (some (ok (props, w'))) =
          rw early at h in
        let there = (some_ok_pair k).1 in (k, rw (← there) (ground (arith, early)))
  ]

  after_term :
      (d : ℕ) (o : Option (Result (ℕ × s.World))) (w' : s.World)
      → Option.map (λ r. r >>= term_or_fail s d) o ≡ some (ok w')
      → (count : ℕ) × (o ≡ some (ok (count, w'))) × (s.now w' < d)
  unfolding term_or_fail
  after_term d none w' h = (0, cc, cc)
  after_term d (some (err e)) w' h = (0, cc, cc)
  after_term d (some (ok (q, v))) w' h = elim (Bool-cases (leb d (s.now v))) [
    | inl late ↦ (0, cc (rw late at h), cc (rw late at h))
    | inr early ↦
        let k : ◌≡◌ {A = Option (Result s.World)} (some (ok v)) (some (ok w')) = rw early at h in
        let there : v ≡ w' = cc in
        (q, ap (λ x. some (ok (q, x))) there, rw (← there) (ground (arith, early)))
  ]

  -- A wait for new instances that succeeds returns properties whose count has reached the size,
  -- and ends before its time is up.
  wait_for_new_inst-enough :
      (fuel wait_timeout : ℕ) (n : ℤ) (prop : Counts → ℕ) (props : Props) (w w' : s.World)
      → wait_for_new_inst s fuel wait_timeout n prop w ≡ some (ok (props, w'))
      → (n ≤ℤ pos (prop props.counts)) × (s.now w' < s.now w + wait_timeout)
  unfolding wait_for_new_inst
  wait_for_new_inst-enough fuel wait_timeout n prop props w w' h =
      elim (Result-cases (first_group (s.describe w))) [
        | inr (e, raised) ↦ cc (rw (raised, wait_for_new_inst) at h)
        | inl (g, got) ↦
            let (looped, early) =
              after_new (s.now w + wait_timeout)
                (wait_new_loop s fuel (s.now w + wait_timeout) n prop (get_properties g) w) props w'
                (rw (got, wait_for_new_inst) at h) in
            (wait_new_loop-enough fuel _ n prop (get_properties g) props w w' looped early, early)
      ]

  -- A wait for terminating instances that succeeds has had an answer of the service that shows
  -- none of them terminating or unhealthy, and ends before its time is up.
  wait_for_term_inst-clear :
      (fuel wait_timeout : ℕ) (terms : List String) (w w' : s.World)
      → wait_for_term_inst s fuel wait_timeout terms w ≡ some (ok w')
      → Seen terms × (s.now w' < s.now w + wait_timeout)
  unfolding wait_for_term_inst
  wait_for_term_inst-clear fuel wait_timeout terms w w' h =
      elim (Result-cases (first_group (s.describe w))) [
        | inr (e, raised) ↦ cc (rw (raised, wait_for_term_inst) at h)
        | inl (g, got) ↦
            let (count, looped, early) =
              after_term (s.now w + wait_timeout)
                (wait_term_loop s fuel (s.now w + wait_timeout) terms 1 w) w'
                (rw (got, wait_for_term_inst) at h) in
            (
              wait_term_loop-Seen fuel _ terms 1 count w w' (λ z. absurd (omega arith)) looped
                  early,
              early,
            )
      ]
